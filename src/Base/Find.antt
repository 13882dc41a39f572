-- ===== src/Base/Find.antt =====
-- `find` and `filter` after an update of the first match, and after an append.
use mathlib.Core.Path.{◌≡◌, refl}
use mathlib.Core.Logic.{inl, inr}
use mathlib.Core.Bool.{Bool, true, false}
use mathlib.Core.Option.{none, some}
use mathlib.Core.List.{List, [], ◌∷◌, ◌++◌, Mem, mem-cons, not-mem-nil, eq-or-mem_of_mem-cons}
use mathlib.Core.Logic.Or
use native.Mathlib.Omega.{arith}
use passport_passwords.Base.Tests.{Bool-cases}
use passport_passwords.Base.Lists.{all, filter, find, update_first}

module _ {ℓ} {A : Type ℓ} (p q : A → Bool) (f : A → A) where
  pub find-update_first :
      (xs : List A) {r : A}
      → ((x : A) → p x ≡ true → q (f x) ≡ true)
      → ((x : A) → q x ≡ true → p x ≡ true)
      → find p xs ≡ some r
      → find q (update_first p f xs) ≡ some (f r)
  find-update_first [] h k e = cc
  find-update_first (x ∷ xs) {r} h k e = ground (arith, h x, k x, find-update_first xs {r = r} h k)

  -- An update of the first match leaves a search alone that tells nothing of it.
  pub find-update_first_ne :
      (xs : List A)
      → ((x : A) → p x ≡ true → q x ≡ false)
      → ((x : A) → p x ≡ true → q (f x) ≡ false)
      → find q (update_first p f xs) ≡ find q xs
  find-update_first_ne [] h k = refl
  find-update_first_ne (x ∷ xs) h k = ground (arith, h x, k x, find-update_first_ne xs h k)

  pub filter-update_first_ne :
      (xs : List A)
      → ((x : A) → p x ≡ true → q x ≡ false)
      → ((x : A) → p x ≡ true → q (f x) ≡ false)
      → filter q (update_first p f xs) ≡ filter q xs
  filter-update_first_ne [] h k = refl
  filter-update_first_ne (x ∷ xs) h k = ground (arith, h x, k x, filter-update_first_ne xs h k)

module _ {ℓ} {A : Type ℓ} (p q : A → Bool) where
  pub find-append_none :
      (xs : List A) (y : A)
      → ((x : A) → q x ≡ true → p x ≡ true)
      → find p xs ≡ none
      → q y ≡ true
      → find q (xs ++ y ∷ []) ≡ some y
  find-append_none [] y h e t = ground arith
  find-append_none (x ∷ xs) y h e t = ground (arith, h x, find-append_none xs y h)

module _ {ℓ} {A : Type ℓ} (q : A → Bool) where
  pub filter-append_false :
      (xs : List A) (y : A) → q y ≡ false → filter q (xs ++ y ∷ []) ≡ filter q xs
  filter-append_false [] y t = ground arith
  filter-append_false (x ∷ xs) y t = ground (arith, filter-append_false xs y t)

  pub find-append_false : (xs : List A) (y : A) → q y ≡ false → find q (xs ++ y ∷ []) ≡ find q xs
  find-append_false [] y t = ground arith
  find-append_false (x ∷ xs) y t = ground (arith, find-append_false xs y t)

  pub find_sound : (xs : List A) {x : A} → find q xs ≡ some x → q x ≡ true
  find_sound [] e = cc
  find_sound (y ∷ xs) {x} e = ground (arith, find_sound xs {x = x})

  pub find-Mem : (xs : List A) {x : A} → find q xs ≡ some x → Mem x xs
  find-Mem [] e = cc
  find-Mem (y ∷ xs) {x} e = elim (Bool-cases (q y)) [
    | inl t ↦ mem-cons.1 (Or.inl (ground arith))
    | inr t ↦ mem-cons.1 (Or.inr (find-Mem xs (ground arith)))
  ]

  pub all-Mem : (xs : List A) {x : A} → Mem x xs → all q xs ≡ true → q x ≡ true
  all-Mem [] m e = absurd (not-mem-nil m)
  all-Mem (y ∷ xs) {x} m e =
      Or.elim (hlevel) (eq-or-mem_of_mem-cons m) (λ here. rw here (ground arith))
        (λ there. all-Mem xs there (ground arith))
