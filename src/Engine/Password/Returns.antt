-- ===== src/Engine/Password/Returns.antt =====
-- `generate_password` comes to an end, unless the source of random bytes is unlucky.
use passport_passwords.Base.{
  ℕ, zero, suc, ◌+◌, ◌-◌, ◌≤◌, ◌<◌, ◌≡◌, refl, ◌∙◌, ap, Text, List, [], ◌∷◌, ◌++◌, Bool, true,
  false, ◌||◌, ltb, none, some, arith, length, take, is_empty, inl, inr, Bool-cases,
}
use passport_passwords.Protocol.Message.{CharsetHint}
use passport_passwords.Crypto.{Crypto, IsCrypto}
use passport_passwords.Engine.Password.{
  classes_of, join, swap, pick_each, pick_more, shuffle_loop, shuffle, Draw, ◌>>=◌, pure, pick_byte,
  random_index,
}
use passport_passwords.Engine.Password.Draws.{Returns, pick_byte_lem, random_index_lem}
use passport_passwords.Engine.Password.Bytes.{Small}

pub take-all {ℓ} : {A : Type ℓ} (n : ℕ) (xs : List A) → length xs ≤ n → take n xs ≡ xs
take-all zero [] h = refl
take-all zero (x ∷ xs) h = absurd (omega arith)
take-all (suc n) [] h = refl
take-all (suc n) (x ∷ xs) h = ap (◌∷◌ x) (take-all n xs (omega arith))

-- What the draws need of the classes of a hint.
pub record Drawable (hint : CharsetHint) : Type 0 where
  pub small : Small (classes_of hint)
  pub some_bytes : 0 < length (join (classes_of hint))
  pub few_bytes : length (join (classes_of hint)) ≤ 128
  pub few_classes : length (classes_of hint) ≤ 3
  pub nonempty : is_empty (join (classes_of hint)) ≡ false

pub classes_of_lem :
    (l d s : Bool)
    → (l || d || s) ≡ true
    → Drawable (record { letters = l; digits = d; symbols = s })
unfolding classes_of
classes_of_lem false false false h = cc
classes_of_lem false false true h = ground arith
classes_of_lem false true false h = ground arith
classes_of_lem false true true h = ground arith
classes_of_lem true false false h = ground arith
classes_of_lem true false true h = ground arith
classes_of_lem true true false h = ground arith
classes_of_lem true true true h = ground arith

-- The draws of `generate_password`, for its classes.
abbrev pub drawn : Crypto → List Text → ℕ → Draw Text
drawn c classes len = do
  first ← pick_each c classes
  more ← pick_more c (len - length first) (join classes)
  shuffle c (first ++ more)

bind-some :
    {A B : Type 0} (m : Draw A) (f : A → Draw B) {at at' : ℕ} {a : A}
    → m at ≡ some (a, at')
    → (m >>= f) at ≡ f a at'
bind-some m f e = ap (λ r. elim r [ none ↦ none | some q ↦ f q.0 q.1 ]) e

module _ (c : Crypto) (laws : IsCrypto c) where
  pub Returns-bind :
      {A B : Type 0} (m : Draw A) (f : A → Draw B) (at : ℕ)
      → Returns c (m at)
      → ((a : A) (at' : ℕ) → m at ≡ some (a, at') → Returns c (f a at'))
      → Returns c ((m >>= f) at)
  Returns-bind m f at (inr unlucky) k = inr unlucky
  Returns-bind m f at (inl (a, at', e)) k = elim (k a at' e) [
    | inr unlucky ↦ inr unlucky
    | inl (b, at'', e') ↦ inl (b, at'', bind-some m f e ∙ e')
  ]

  Returns-pure : {A : Type 0} (a : A) (at : ℕ) → Returns c (pure a at)
  Returns-pure a at = inl (a, at, refl)

  pub pick_each-Returns : (ts : List Text) (at : ℕ) → Small ts → Returns c (pick_each c ts at)
  unfolding pick_each
  pick_each-Returns [] at small = Returns-pure [] at
  pick_each-Returns (t ∷ ts) at small =
      Returns-bind (pick_byte c t) _ at (pick_byte_lem c laws t at small.0 small.1) λ b at1 _.
        Returns-bind (pick_each c ts) _ at1 (pick_each-Returns ts at1 small.2)
          λ bs at2 _. Returns-pure (b ∷ bs) at2

  pub pick_more-Returns :
      (n : ℕ) (alphabet : Text) (at : ℕ)
      → 0 < length alphabet
      → length alphabet ≤ 128
      → Returns c (pick_more c n alphabet at)
  unfolding pick_more
  pick_more-Returns zero alphabet at some_bytes few = Returns-pure [] at
  pick_more-Returns (suc n) alphabet at some_bytes few =
      Returns-bind (pick_byte c alphabet) _ at (pick_byte_lem c laws alphabet at some_bytes few)
        λ b at1 _.
          Returns-bind (pick_more c n alphabet) _ at1
            (pick_more-Returns n alphabet at1 some_bytes few) λ bs at2 _. Returns-pure (b ∷ bs) at2

  shuffle_loop-Returns :
      (i : ℕ) (s : Text) (at : ℕ) → i < 2147483647 → Returns c (shuffle_loop c i s at)
  unfolding shuffle_loop
  shuffle_loop-Returns zero s at few = Returns-pure s at
  shuffle_loop-Returns (suc i) s at few =
      Returns-bind (random_index c (suc i + 1)) _ at
        (random_index_lem c laws (suc i + 1) at (omega arith) (omega arith))
        λ j at1 _. shuffle_loop-Returns i (swap s (suc i) j) at1 (omega arith)

  pub shuffle-Returns : (s : Text) (at : ℕ) → length s ≤ 2147483647 → Returns c (shuffle c s at)
  unfolding shuffle
  shuffle-Returns s at few = elim (Bool-cases (ltb (length s) 2)) [
    | inl short ↦ rw (short, shuffle) (Returns-pure s at)
    | inr long ↦ rw (long, shuffle) (shuffle_loop-Returns (length s - 1) s at (omega arith))
  ]
