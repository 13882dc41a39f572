-- ===== src/Engine/Password/Sound.antt =====
-- What the draws of `generate_password` give where they come to an end.
use passport_passwords.Base.{
  ℕ, zero, suc, ◌+◌, ◌-◌, ◌≤◌, ◌<◌, ◌≡◌, refl, ◌∙◌, ap, Text, List, [], ◌∷◌, ◌++◌, some, arith,
  length, length-append, inl, inr, Option-cases,
}
use passport_passwords.Crypto.{Crypto}
use passport_passwords.Engine.Password.{
  join, swap, pick_each, pick_more, shuffle_loop, shuffle, Draw, ◌>>=◌, pure, pick_byte,
  random_index,
}
use passport_passwords.Engine.Password.Draws.{pick_byte-contains, random_index-lt}
use passport_passwords.Engine.Password.Bytes.{
  SameBytes, swap-SameBytes, any-append, Covers, Covers-mono, Within, Small, contains-append,
  Within-append,
}
use passport_passwords.Engine.Password.Returns.{drawn}

-- A draw that comes to an end in a bind, for a proof that goes on with its two halves.
by_draw {κ} :
    {A B : Type 0} {P : Type κ} (m : Draw A) (f : A → Draw B) {at at'' : ℕ} {b : B}
    → (m >>= f) at ≡ some (b, at'')
    → ((a : A) (at' : ℕ) → m at ≡ some (a, at') → f a at' ≡ some (b, at'') → P)
    → P
by_draw m f {at} {at''} {b} h go = elim (Option-cases (m at)) [
  | inl e ↦ absurd (ground arith)
  | inr ((a, at'), e) ↦ go a at' e (ground arith)
]

-- A password from some classes.
pub record DrawnFrom (classes : List Text) (len : ℕ) (password : Text) : Type 0 where
  pub long : length password ≡ len
  pub covers : Covers classes password
  pub within : Within (join classes) password

module _ (c : Crypto) where
  pub pick_each_lem :
      (ts : List Text) (at : ℕ) {bytes : Text} {at' : ℕ}
      → Small ts
      → pick_each c ts at ≡ some (bytes, at')
      → DrawnFrom ts (length ts) bytes
  unfolding pick_each
  pick_each_lem [] at {bytes} small h =
      let e : [] ≡ bytes = ground arith in
      rw (← e) (record { long = refl; covers = tt; within = refl })
  pick_each_lem (t ∷ ts) at {bytes} small h =
      by_draw (pick_byte c t) (λ b. do bs ← pick_each c ts; pure (b ∷ bs)) h
        λ b at1 e h.
          by_draw (pick_each c ts) (λ bs. pure (b ∷ bs)) h
            λ bs at2 e' h.
              let inside = pick_byte-contains c t at {at' = at1} small.0 e in
              let rest = pick_each_lem ts at1 {at' = at2} small.2 e' in
              let same : b ∷ bs ≡ bytes = ground arith in
              rw (← same) (record {
                long = ap suc rest.long;
                covers = (
                  ground (arith, inside),
                  Covers-mono ts bs (b ∷ bs) (λ p k. ground arith) rest.covers,
                );
                within = ground (
                  arith,
                  inside,
                  contains-append t (join ts) b,
                  Within-append t (join ts) bs rest.within,
                );
              })

  pub pick_more_lem :
      (n : ℕ) (alphabet : Text) (at : ℕ) {bytes : Text} {at' : ℕ}
      → 0 < length alphabet
      → pick_more c n alphabet at ≡ some (bytes, at')
      → (length bytes ≡ n) × Within alphabet bytes
  unfolding pick_more
  pick_more_lem zero alphabet at {bytes} some_bytes h =
      let e : [] ≡ bytes = ground arith in rw (← e) (refl, refl)
  pick_more_lem (suc n) alphabet at {bytes} some_bytes h =
      by_draw (pick_byte c alphabet) (λ b. do bs ← pick_more c n alphabet; pure (b ∷ bs)) h
        λ b at1 e h.
          by_draw (pick_more c n alphabet) (λ bs. pure (b ∷ bs)) h
            λ bs at2 e' h.
              let inside = pick_byte-contains c alphabet at {at' = at1} some_bytes e in
              let (long, within) = pick_more_lem n alphabet at1 {at' = at2} some_bytes e' in
              let same : b ∷ bs ≡ bytes = ground arith in
              rw (← same) (ap suc long, ground (arith, inside, within))

  shuffle_loop_lem :
      (i : ℕ) (s : Text) (at : ℕ) {t : Text} {at' : ℕ}
      → i < length s
      → shuffle_loop c i s at ≡ some (t, at')
      → SameBytes s t
  unfolding shuffle_loop
  shuffle_loop_lem zero s at {t} h e =
      let same : s ≡ t = ground arith in rw (← same) (refl, λ p. refl)
  shuffle_loop_lem (suc i) s at {t} {at'} h e =
      by_draw (random_index c (suc i + 1)) (λ j. shuffle_loop c i (swap s (suc i) j)) e
        λ j at1 drew e.
          let below = random_index-lt c (suc i + 1) at {at' = at1} (omega arith) drew in
          let swapped = swap-SameBytes s (suc i) j h (omega arith) in
          let same =
            shuffle_loop_lem i (swap s (suc i) j) at1 {t = t} {at' = at'} (omega (arith, swapped.0))
              e in
          (same.0 ∙ swapped.0, λ p. same.1 p ∙ swapped.1 p)

  shuffle_lem :
      (s : Text) (at : ℕ) {t : Text} {at' : ℕ}
      → 2 ≤ length s
      → shuffle c s at ≡ some (t, at')
      → SameBytes s t
  unfolding shuffle
  shuffle_lem s at {t} {at'} long e =
      shuffle_loop_lem (length s - 1) s at {t = t} {at' = at'} (omega arith) (ground arith)

  pub drawn_lem :
      (classes : List Text) (len at : ℕ) {password : Text} {at' : ℕ}
      → Small classes
      → 0 < length (join classes)
      → length classes ≤ len
      → 2 ≤ len
      → drawn c classes len at ≡ some (password, at')
      → DrawnFrom classes len password
  drawn_lem classes len at {password} {at'} small some_bytes room two h =
      by_draw (pick_each c classes)
        (λ first. do
          more ← pick_more c (len - length first) (join classes)
          shuffle c (first ++ more))
        h
        λ first at1 e1 h.
          by_draw (pick_more c (len - length first) (join classes))
            (λ more. shuffle c (first ++ more)) h
            λ more at2 e2 h.
              let drew = pick_each_lem classes at {at' = at1} small e1 in
              let (long, within) =
                pick_more_lem (len - length first) (join classes) at1 {at' = at2} some_bytes e2 in
              let whole : length (first ++ more) ≡ len =
                length-append first more ∙ omega (arith, drew.long, long) in
              let same =
                shuffle_lem (first ++ more) at2 {t = password} {at' = at'} (omega (arith, whole))
                  h in
              record {
                long = same.0 ∙ whole;
                covers =
                    Covers-mono classes first password
                      (λ p k. same.1 p ∙ any-append p first more ∙ ground arith) drew.covers;
                within = same.1 _ ∙ any-append _ first more ∙ ground (arith, drew.within);
              }
