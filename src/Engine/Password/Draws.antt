-- ===== src/Engine/Password/Draws.antt =====
-- The loops of rejections come to an end, and draw what they should: `pick_byte`, `random_index`.
use passport_passwords.Base.{
  ℕ, zero, suc, ◌+◌, ◌-◌, ◌*◌, ◌%◌, ◌≤◌, ◌<◌, ◌≡◌, refl, Text, [], ◌∷◌, Bool, true, false, ◌==◌,
  ltb, some, arith, length, any, Bool-cases, inl, inr, ◌⊎◌, Option, ltb→lt,
}
use native.Mathlib.Nat.{mod-lt}
use passport_passwords.Crypto.{Crypto, IsCrypto, Unlucky}
use passport_passwords.Engine.Password.{
  byte_at, pick_loop, pick_byte, word_at, index_loop, random_index,
}

abbrev pub contains : Text → ℕ → Bool
contains alphabet b = any (λ x. x == b) alphabet

contains-byte_at :
    (alphabet : Text) (i : ℕ) → i < length alphabet → contains alphabet (byte_at alphabet i) ≡ true
unfolding byte_at
contains-byte_at [] i h = absurd (omega arith)
contains-byte_at (b ∷ bs) zero h = ground arith
contains-byte_at (b ∷ bs) (suc i) h = ground (arith, contains-byte_at bs i (omega arith))

-- The limit of `pick_byte` lies above the lower half.
low_accepted : (n v : ℕ) → 0 < n → n ≤ 128 → v < 128 → ltb v (256 - 256 % n) ≡ true
low_accepted n v pos few low = ground (arith, mod-lt 256 pos)

-- The limit of `random_index` lies above the lower half.
low_word_accepted :
    (n v : ℕ) → 0 < n → n ≤ 2147483647 → v < 2147483648 → ltb v (4294967295 - 4294967295 % n) ≡ true
low_word_accepted n v pos few low = ground (arith, mod-lt 4294967295 pos)

module _ (c : Crypto) where
  pick_loop-contains :
      (fuel : ℕ) (alphabet : Text) (at : ℕ) {b at' : ℕ}
      → 0 < length alphabet
      → pick_loop c fuel alphabet at ≡ some (b, at')
      → contains alphabet b ≡ true
  unfolding pick_loop
  pick_loop-contains zero alphabet at some_bytes h = cc
  pick_loop-contains (suc fuel) alphabet at {b} {at'} some_bytes h = ground (
    arith,
    contains-byte_at alphabet (c.os_rng at % length alphabet) (mod-lt (c.os_rng at) some_bytes),
    pick_loop-contains fuel alphabet (at + 1) {b = b} {at' = at'} some_bytes,
  )

  -- A byte that is drawn is one of the alphabet.
  pub pick_byte-contains :
      (alphabet : Text) (at : ℕ) {b at' : ℕ}
      → 0 < length alphabet
      → pick_byte c alphabet at ≡ some (b, at')
      → contains alphabet b ≡ true
  unfolding pick_byte
  pick_byte-contains alphabet at {b} {at'} some_bytes h =
      pick_loop-contains c.patience alphabet at {b = b} {at' = at'} some_bytes h

  index_loop-lt :
      (fuel n at : ℕ) {i at' : ℕ} → 0 < n → index_loop c fuel n at ≡ some (i, at') → i < n
  unfolding index_loop
  index_loop-lt zero n at pos h = cc
  index_loop-lt (suc fuel) n at {i} {at'} pos h =
      ground
        (arith, mod-lt (word_at c at) pos, index_loop-lt fuel n (at + 4) {i = i} {at' = at'} pos)

  -- An index that is drawn is below its bound.
  pub random_index-lt : (n at : ℕ) {i at' : ℕ} → 0 < n → random_index c n at ≡ some (i, at') → i < n
  unfolding random_index
  random_index-lt n at {i} {at'} pos h = index_loop-lt c.patience n at {i = i} {at' = at'} pos h

-- The draw gives a value, or the source of random bytes is unlucky.
abbrev pub Returns : {A : Type 0} → Crypto → Option (A × ℕ) → Type 0
Returns {A} c o = ((a : A) × (at : ℕ) × (o ≡ some (a, at))) ⊎ Unlucky c

module _ (c : Crypto) (laws : IsCrypto c) where
  -- The samples from a place on are all in the upper half.
  abbrev AllHigh : ℕ → ℕ → ℕ → Type 0
  AllHigh fuel stride at = (k : ℕ) → k < fuel → 128 ≤ c.os_rng (at + k * stride)

  AllHigh-suc :
      (fuel stride at : ℕ)
      → 128 ≤ c.os_rng at
      → AllHigh fuel stride (at + stride)
      → AllHigh (suc fuel) stride at
  AllHigh-suc fuel stride at first rest zero h =
      let e : at + 0 * stride ≡ at = ground arith in rw e first
  AllHigh-suc fuel stride at first rest (suc k) h =
      let e : at + suc k * stride ≡ at + stride + k * stride = ground arith in
      rw e (rest k (omega arith))

  pick_loop_lem :
      (fuel : ℕ) (alphabet : Text) (at : ℕ)
      → 0 < length alphabet
      → length alphabet ≤ 128
      → ((b at' : ℕ) × (pick_loop c fuel alphabet at ≡ some (b, at'))) ⊎ AllHigh fuel 1 at
  unfolding pick_loop
  pick_loop_lem zero alphabet at some_bytes few = inr λ k h. absurd (omega arith)
  pick_loop_lem (suc fuel) alphabet at some_bytes few =
      elim (Bool-cases (ltb (c.os_rng at) (256 - 256 % length alphabet))) [
        | inl taken ↦
            inl
              (byte_at alphabet (c.os_rng at % length alphabet), at + 1, rw (taken, pick_loop) refl)
        | inr thrown ↦ elim (pick_loop_lem fuel alphabet (at + 1) some_bytes few) [
          | inl (b, at', e) ↦ inl (b, at', rw (thrown, pick_loop) e)
          | inr high ↦ inr (
              AllHigh-suc fuel 1 at
                (ground (arith, low_accepted (length alphabet) (c.os_rng at) some_bytes few)) high)
        ]
      ]

  -- A draw from a small alphabet comes to an end.
  pub pick_byte_lem :
      (alphabet : Text) (at : ℕ)
      → 0 < length alphabet
      → length alphabet ≤ 128
      → Returns c (pick_byte c alphabet at)
  unfolding pick_byte
  pick_byte_lem alphabet at some_bytes few =
      elim (pick_loop_lem c.patience alphabet at some_bytes few) [
        | inl done ↦ inl done
        | inr high ↦ inr (record { stride = 1; at = at; high = high })
      ]

  low_word : (at : ℕ) → c.os_rng (at + 3) < 128 → word_at c at < 2147483648
  unfolding word_at
  low_word at low =
      omega (arith, laws.os_rng-lt at, laws.os_rng-lt (at + 1), laws.os_rng-lt (at + 2))

  high_word :
      (n at : ℕ)
      → 0 < n
      → n ≤ 2147483647
      → ltb (word_at c at) (4294967295 - 4294967295 % n) ≡ false
      → 128 ≤ c.os_rng (at + 3)
  high_word n at pos few thrown = elim (Bool-cases (ltb (c.os_rng (at + 3)) 128)) [
    | inl low ↦
        absurd (
          ground (arith, low_word_accepted n (word_at c at) pos few (low_word at (ltb→lt _ _ low))))
    | inr high ↦ ground arith
  ]

  index_loop_lem :
      (fuel n at : ℕ)
      → 0 < n
      → n ≤ 2147483647
      → ((i at' : ℕ) × (index_loop c fuel n at ≡ some (i, at'))) ⊎ AllHigh fuel 4 (at + 3)
  unfolding index_loop
  index_loop_lem zero n at pos few = inr λ k h. absurd (omega arith)
  index_loop_lem (suc fuel) n at pos few =
      elim (Bool-cases (ltb (word_at c at) (4294967295 - 4294967295 % n))) [
        | inl taken ↦ inl (word_at c at % n, at + 4, rw (taken, index_loop) refl)
        | inr thrown ↦ elim (index_loop_lem fuel n (at + 4) pos few) [
          | inl (i, at', e) ↦ inl (i, at', rw (thrown, index_loop) e)
          | inr high ↦
              let later : at + 4 + 3 ≡ at + 3 + 4 = omega arith in
              inr (AllHigh-suc fuel 4 (at + 3) (high_word n at pos few thrown) (rw later at high))
        ]
      ]

  -- A draw of an index comes to an end.
  pub random_index_lem : (n at : ℕ) → 0 < n → n ≤ 2147483647 → Returns c (random_index c n at)
  unfolding random_index
  random_index_lem n at pos few = elim (index_loop_lem c.patience n at pos few) [
    | inl done ↦ inl done
    | inr high ↦ inr (record { stride = 4; at = at + 3; high = high })
  ]
