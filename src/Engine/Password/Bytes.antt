-- ===== src/Engine/Password/Bytes.antt =====
-- Passwords as collections of bytes: what a swap keeps, and what a password covers.
use passport_passwords.Base.{
  ℕ, zero, suc, ◌≤◌, ◌<◌, ◌≡◌, refl, ◌∙◌, ap, Text, List, [], ◌∷◌, ◌++◌, Bool, true, false, not,
  ◌||◌, ◌==◌, arith, length, any, set,
}
use passport_passwords.Engine.Password.{byte_at, swap}
use passport_passwords.Engine.Password.Draws.{contains}

-- The same bytes, as far as any search tells, and as many.
abbrev pub SameBytes : Text → Text → Type 0
SameBytes s t = (length t ≡ length s) × ((p : ℕ → Bool) → any p t ≡ any p s)

length-set : (s : Text) (i v : ℕ) → length (set s i v) ≡ length s
length-set [] i v = refl
length-set (x ∷ s) zero v = refl
length-set (x ∷ s) (suc i) v = ap suc (length-set s i v)

module _ (p : ℕ → Bool) where
  -- A byte that leaves and one that comes in its place.
  any-set :
      (s : Text) (i v : ℕ)
      → i < length s
      → (p (byte_at s i) || any p (set s i v)) ≡ (p v || any p s)
  unfolding byte_at
  any-set [] i v h = absurd (omega arith)
  any-set (x ∷ s) zero v h = ground arith
  any-set (x ∷ s) (suc i) v h = ground (arith, any-set s i v (omega arith))

  any-swap : (s : Text) (i j : ℕ) → i < length s → j < length s → any p (swap s i j) ≡ any p s
  unfolding swap
  any-swap [] i j h k = absurd (omega arith)
  any-swap (x ∷ s) zero zero h k = refl
  any-swap (x ∷ s) zero (suc j) h k = any-set s j x (omega arith)
  any-swap (x ∷ s) (suc i) zero h k = any-set s i x (omega arith)
  any-swap (x ∷ s) (suc i) (suc j) h k =
      ap (λ r. p x || r) (any-swap s i j (omega arith) (omega arith))

  pub any-append : (s t : Text) → any p (s ++ t) ≡ (any p s || any p t)
  any-append [] t = refl
  any-append (x ∷ s) t = ground (arith, any-append s t)

pub swap-SameBytes : (s : Text) (i j : ℕ) → i < length s → j < length s → SameBytes s (swap s i j)
unfolding swap
swap-SameBytes s i j h k = (length-set _ j _ ∙ length-set s i _, λ p. any-swap p s i j h k)

-- A byte of each of the texts.
abbrev pub Covers : List Text → Text → Type 0
Covers [] bytes = Unit
Covers (t ∷ ts) bytes = (any (contains t) bytes ≡ true) × Covers ts bytes

pub Covers-mono :
    (ts : List Text) (s t : Text)
    → ((p : ℕ → Bool) → any p s ≡ true → any p t ≡ true)
    → Covers ts s
    → Covers ts t
Covers-mono [] s t h k = tt
Covers-mono (u ∷ ts) s t h k = (h (contains u) k.0, Covers-mono ts s t h k.1)

-- No byte outside of an alphabet.
abbrev pub Within : Text → Text → Type 0
Within alphabet bytes = any (λ b. not (contains alphabet b)) bytes ≡ false

-- The texts are small enough to draw from.
abbrev pub Small : List Text → Type 0
Small [] = Unit
Small (t ∷ ts) = (0 < length t) × (length t ≤ 128) × Small ts

pub contains-append : (s t : Text) (b : ℕ) → contains (s ++ t) b ≡ (contains s b || contains t b)
contains-append s t b = any-append (λ x. x == b) s t

pub Within-append : (s t bytes : Text) → Within t bytes → Within (s ++ t) bytes
Within-append s t [] h = refl
Within-append s t (b ∷ bytes) h = ground (arith, Within-append s t bytes, contains-append s t b)
