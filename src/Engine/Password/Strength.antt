-- ===== src/Engine/Password/Strength.antt =====
-- What a password of `generate_password` is made of.
use passport_passwords.Base.{
  ℕ, ◌≤◌, ◌≡◌, refl, sym, ◌∙◌, Text, [], ◌∷◌, Bool, true, false, not, ◌||◌, ◌&&◌, ◌==◌, leb, some,
  arith, length, take, any, all, inl, inr, Bool-cases,
}
use passport_passwords.Protocol.Message.{CharsetHint}
use passport_passwords.Crypto.{Crypto, IsCrypto}
use passport_passwords.Engine.Password.{
  letters, digits, symbols, classes_of, alphabet_of, join, generate_password,
}
use passport_passwords.Engine.Password.Draws.{Returns, contains}
use passport_passwords.Engine.Password.Bytes.{Within}
use passport_passwords.Engine.Password.Sound.{DrawnFrom, drawn_lem}
use passport_passwords.Engine.Password.Returns.{take-all, classes_of_lem, drawn}

-- The classes of ASCII: letters, digits, and the other characters that are printed.
abbrev pub is_letter : ℕ → Bool
is_letter b = (leb b'a' b && leb b b'z') || (leb b'A' b && leb b b'Z')

abbrev pub is_digit : ℕ → Bool
is_digit b = leb b'0' b && leb b b'9'

abbrev pub is_symbol : ℕ → Bool
is_symbol b = leb 33 b && leb b 126 && not (is_letter b) && not (is_digit b)

abbrev pub is_printed : ℕ → Bool
is_printed b = is_letter b || is_digit b || is_symbol b

-- What a password for a hint has: its length, and bytes of exactly the classes that are enabled.
pub record Strong (hint : CharsetHint) (len : ℕ) (password : Text) : Type 0 where
  pub long : length password ≡ len
  pub has_letter : any is_letter password ≡ hint.letters
  pub has_digit : any is_digit password ≡ hint.digits
  pub has_symbol : any is_symbol password ≡ hint.symbols
  pub nothing_else : all is_printed password ≡ true

module _ (q : ℕ → Bool) where
  all-contains : (t : Text) (b : ℕ) → all q t ≡ true → contains t b ≡ true → q b ≡ true
  all-contains [] b h k = cc
  all-contains (x ∷ t) b h k = elim (Bool-cases (x == b)) [
    | inl e ↦
        (let same : x ≡ b = ground arith in let this : q x ≡ true = ground arith in rw same at this)
    | inr e ↦ all-contains t b (ground (arith, h)) (ground (arith, k))
  ]

  any-all : (s : Text) → all (λ b. not (q b)) s ≡ true → any q s ≡ false
  any-all [] h = refl
  any-all (b ∷ s) h = ground (arith, any-all s)

-- The bytes of a class that is covered.
has : (q : ℕ → Bool) (t s : Text) → all q t ≡ true → any (contains t) s ≡ true → any q s ≡ true
has q t [] h k = cc
has q t (b ∷ s) h k = ground (arith, all-contains q t b h, has q t s h)

-- What holds of the whole alphabet holds of what is within it.
keeps :
    (q : ℕ → Bool) (alphabet s : Text) → all q alphabet ≡ true → Within alphabet s → all q s ≡ true
keeps q alphabet [] h k = refl
keeps q alphabet (b ∷ s) h k = ground (arith, all-contains q alphabet b h, keeps q alphabet s h)

-- No byte of a class that the alphabet has no byte of.
lacks :
    (q : ℕ → Bool) (alphabet s : Text)
    → all (λ b. not (q b)) alphabet ≡ true
    → Within alphabet s
    → any q s ≡ false
lacks q alphabet s h k = any-all q s (keeps (λ b. not (q b)) alphabet s h k)

abbrev alphabet : Bool → Bool → Bool → Text
alphabet l d s = join (classes_of (record { letters = l; digits = d; symbols = s }))

DrawnFrom-Strong :
    (l d s : Bool) (len : ℕ) (password : Text)
    → (l || d || s) ≡ true
    → DrawnFrom (classes_of (record { letters = l; digits = d; symbols = s })) len password
    → Strong (record { letters = l; digits = d; symbols = s }) len password
unfolding classes_of
DrawnFrom-Strong false false false len password e h = cc
DrawnFrom-Strong false false true len password e h = record {
  long = h.long;
  has_letter = lacks is_letter (alphabet false false true) password refl h.within;
  has_digit = lacks is_digit (alphabet false false true) password refl h.within;
  has_symbol = has is_symbol symbols password refl h.covers.0;
  nothing_else = keeps is_printed (alphabet false false true) password refl h.within;
}
DrawnFrom-Strong false true false len password e h = record {
  long = h.long;
  has_letter = lacks is_letter (alphabet false true false) password refl h.within;
  has_digit = has is_digit digits password refl h.covers.0;
  has_symbol = lacks is_symbol (alphabet false true false) password refl h.within;
  nothing_else = keeps is_printed (alphabet false true false) password refl h.within;
}
DrawnFrom-Strong false true true len password e h = record {
  long = h.long;
  has_letter = lacks is_letter (alphabet false true true) password refl h.within;
  has_digit = has is_digit digits password refl h.covers.0;
  has_symbol = has is_symbol symbols password refl h.covers.1.0;
  nothing_else = keeps is_printed (alphabet false true true) password refl h.within;
}
DrawnFrom-Strong true false false len password e h = record {
  long = h.long;
  has_letter = has is_letter letters password refl h.covers.0;
  has_digit = lacks is_digit (alphabet true false false) password refl h.within;
  has_symbol = lacks is_symbol (alphabet true false false) password refl h.within;
  nothing_else = keeps is_printed (alphabet true false false) password refl h.within;
}
DrawnFrom-Strong true false true len password e h = record {
  long = h.long;
  has_letter = has is_letter letters password refl h.covers.0;
  has_digit = lacks is_digit (alphabet true false true) password refl h.within;
  has_symbol = has is_symbol symbols password refl h.covers.1.0;
  nothing_else = keeps is_printed (alphabet true false true) password refl h.within;
}
DrawnFrom-Strong true true false len password e h = record {
  long = h.long;
  has_letter = has is_letter letters password refl h.covers.0;
  has_digit = has is_digit digits password refl h.covers.1.0;
  has_symbol = lacks is_symbol (alphabet true true false) password refl h.within;
  nothing_else = keeps is_printed (alphabet true true false) password refl h.within;
}
DrawnFrom-Strong true true true len password e h = record {
  long = h.long;
  has_letter = has is_letter letters password refl h.covers.0;
  has_digit = has is_digit digits password refl h.covers.1.0;
  has_symbol = has is_symbol symbols password refl h.covers.1.1.0;
  nothing_else = keeps is_printed (alphabet true true true) password refl h.within;
}

module _ (c : Crypto) (laws : IsCrypto c) where
  -- The draws of a call that asks for enough bytes of at least one class
  generate_password-drawn :
      (len : ℕ) (hint : CharsetHint) (at : ℕ)
      → 3 ≤ len
      → (hint.letters || hint.digits || hint.symbols) ≡ true
      → generate_password c len hint at ≡ drawn c (classes_of hint) len at
  unfolding generate_password alphabet_of
  generate_password-drawn len hint at three enabled =
      let hint_lem = classes_of_lem hint.letters hint.digits hint.symbols enabled in
      let nonzero : (len == 0) ≡ false = ground arith in
      let whole : take len (classes_of hint) ≡ classes_of hint =
        take-all len (classes_of hint) (omega (arith, hint_lem.few_classes)) in
      rw (nonzero, hint_lem.nonempty, whole) refl

  -- A password that is drawn for at least one class, with room for a byte of each, has the length
  -- asked for, and a letter, a digit or another printed character of ASCII where that class is
  -- enabled and only there, and no other byte.
  pub generate_password-Strong :
      (len : ℕ) (hint : CharsetHint) (at : ℕ) {password : Text} {at' : ℕ}
      → 3 ≤ len
      → (hint.letters || hint.digits || hint.symbols) ≡ true
      → generate_password c len hint at ≡ some (password, at')
      → Strong hint len password
  generate_password-Strong len hint at {password} {at'} three enabled h =
      let hint_lem = classes_of_lem hint.letters hint.digits hint.symbols enabled in
      DrawnFrom-Strong hint.letters hint.digits hint.symbols len password enabled (
        drawn_lem c (classes_of hint) len at {at' = at'} hint_lem.small hint_lem.some_bytes
          (omega (arith, hint_lem.few_classes)) (omega arith)
          (sym (generate_password-drawn len hint at three enabled) ∙ h))
