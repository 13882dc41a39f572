-- ===== src/Engine/Password.antt =====
-- `generate_password` of logic/vaults-bridge-core/src/engine.rs, and the loops that it draws with.
-- The fuel of a loop of rejections is `patience`; `none` is a loop that outran it.
pub mod Draws
pub mod Bytes
pub mod Returns
pub mod Sound
pub mod Strength
use passport_passwords.Base.{
  ℕ, zero, suc, ◌+◌, ◌-◌, ◌*◌, ◌%◌, Text, text, List, [], ◌∷◌, ◌++◌, Option, none, some, ◌==◌, ltb,
  ◌||◌, if◌then◌else◌, length, take, set, is_empty,
}
use passport_passwords.Protocol.Message.{CharsetHint}
use passport_passwords.Crypto.{Crypto}

abbrev pub min_generated_length : ℕ
min_generated_length = 16

abbrev pub max_generated_length : ℕ
max_generated_length = 64

abbrev pub default_generated_length : ℕ
default_generated_length = 24

abbrev pub letters : Text
letters = text "abcdefghijklmnopqrstuvwxyzABCDEFGHIJKLMNOPQRSTUVWXYZ"

abbrev pub digits : Text
digits = text "0123456789"

abbrev pub symbols : Text
symbols = text "!@#$%^&*()-_=+[]{};:,.<>/?"

-- A draw gives a value and the next place on the tape, or outruns its fuel.
abbrev pub Draw : Type 0 → Type 0
Draw A = ℕ → Option (A × ℕ)

infixl 5 ◌>>=◌
abbrev pub ◌>>=◌ : {A B : Type 0} → Draw A → (A → Draw B) → Draw B
◌>>=◌ m f at = elim (m at) [ none ↦ none | some (a, at') ↦ f a at' ]

abbrev pub pure : {A : Type 0} → A → Draw A
pure a at = some (a, at)

-- `alphabet[i]`; every index that the code takes is in range.
unfoldable pub byte_at : Text → ℕ → ℕ
byte_at [] i = 0
byte_at (b ∷ bs) zero = b
byte_at (b ∷ bs) (suc i) = byte_at bs i

-- The classes that the hint enables, in the order of the source.
unfoldable pub classes_of : CharsetHint → List Text
classes_of hint =
    (if hint.letters then letters ∷ [] else [])
    ++ ((if hint.digits then digits ∷ [] else []) ++ (if hint.symbols then symbols ∷ [] else []))

-- `alphabet` holds the bytes of the classes, one after the other.
abbrev pub join : List Text → Text
join [] = []
join (t ∷ ts) = t ++ join ts

unfoldable pub alphabet_of : CharsetHint → Text
unfolding classes_of
alphabet_of hint = join (classes_of hint)

-- `bytes.swap(i, j)`
unfoldable pub swap : Text → ℕ → ℕ → Text
unfolding byte_at
swap bytes i j = set (set bytes i (byte_at bytes j)) j (byte_at bytes i)

module _ (c : Crypto) where
  -- The loop of `pick_byte`, on its fuel.
  unfoldable pub pick_loop : ℕ → Text → Draw ℕ
  unfolding byte_at
  pick_loop zero alphabet at = none
  pick_loop (suc fuel) alphabet at =
      let n = length alphabet in
      let again = pick_loop fuel alphabet (at + 1) in
      if ltb (c.os_rng at) (256 - 256 % n)
      then some (byte_at alphabet (c.os_rng at % n), at + 1)
      else again

  unfoldable pub pick_byte : Text → Draw ℕ
  unfolding pick_loop
  pick_byte alphabet = pick_loop c.patience alphabet

  -- `u32::from_le_bytes` of four bytes of the tape
  unfoldable pub word_at : ℕ → ℕ
  word_at at =
      c.os_rng at
      + 256 * c.os_rng (at + 1)
      + 65536 * c.os_rng (at + 2)
      + 16777216 * c.os_rng (at + 3)

  abbrev pub u32_max : ℕ
  u32_max = 4294967295

  unfoldable pub index_loop : ℕ → ℕ → Draw ℕ
  unfolding word_at
  index_loop zero n at = none
  index_loop (suc fuel) n at =
      let again = index_loop fuel n (at + 4) in
      if ltb (word_at at) (u32_max - u32_max % n) then some (word_at at % n, at + 4) else again

  unfoldable pub random_index : ℕ → Draw ℕ
  unfolding index_loop
  random_index upper_exclusive = index_loop c.patience upper_exclusive

  -- `for class in classes.iter().take(len) { bytes.push(pick_byte(class)) }`
  unfoldable pub pick_each : List Text → Draw Text
  pick_each [] = pure []
  pick_each (class ∷ classes) = do b ← pick_byte class; bs ← pick_each classes; pure (b ∷ bs)

  -- `while bytes.len() < len { bytes.push(pick_byte(&alphabet)) }`, on the bytes that are missing
  unfoldable pub pick_more : ℕ → Text → Draw Text
  pick_more zero alphabet = pure []
  pick_more (suc n) alphabet = do b ← pick_byte alphabet; bs ← pick_more n alphabet; pure (b ∷ bs)

  -- `for i in (1..len).rev()`, from `i` down
  unfoldable pub shuffle_loop : ℕ → Text → Draw Text
  shuffle_loop zero bytes = pure bytes
  shuffle_loop (suc i) bytes = do
    j ← random_index (suc i + 1)
    shuffle_loop i (swap bytes (suc i) j)

  -- `shuffle`; fewer than two bytes leave the loop nothing to do.
  unfoldable pub shuffle : Text → Draw Text
  shuffle bytes = if ltb (length bytes) 2 then pure bytes else shuffle_loop (length bytes - 1) bytes

  -- `generate_password(len, hint)`
  unfoldable pub generate_password : ℕ → CharsetHint → Draw Text
  generate_password len hint =
      let alphabet = alphabet_of hint in
      if len == 0 || is_empty alphabet then pure [] else do
        first ← pick_each (take len (classes_of hint))
        more ← pick_more (len - length first) alphabet
        shuffle (first ++ more)
