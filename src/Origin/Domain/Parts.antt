-- ===== src/Origin/Domain/Parts.antt =====
-- The parts of a host that the functions of origin.rs cut off: before and behind the last dot, and
-- in front of a suffix.
use passport_passwords.Base.{
  ℕ, zero, suc, ◌-◌, ◌≡◌, ◌≢◌, ◌⊎◌, refl, sym, ◌∙◌, ap, Text, text, [], ◌∷◌, ◌++◌, append_assoc,
  true, false, none, some, leb, arith, length, take, drop, length-append, drop-append_left,
  take-append_left, text_eq_iff, text_eq_refl, is_empty, Option-cases, inl, inr,
}
use passport_passwords.Origin.Domain.{strip_suffix, has_dot, last_part, before_last}

take-append-drop : (n : ℕ) (s : Text) → take n s ++ drop n s ≡ s
take-append-drop zero s = refl
take-append-drop (suc n) [] = refl
take-append-drop (suc n) (b ∷ s) = ap (◌∷◌ b) (take-append-drop n s)

pub strip_suffix-some :
    (s suffix : Text) {prefix : Text} → strip_suffix s suffix ≡ some prefix → s ≡ prefix ++ suffix
unfolding strip_suffix
strip_suffix-some s suffix {prefix} h =
    let n = length s - length suffix in
    let first : take n s ≡ prefix = ground arith in
    let second : drop n s ≡ suffix = ground (arith, text_eq_iff (drop n s) suffix) in
    sym (take-append-drop n s) ∙ rw (first, second) refl

last_part-no_dot : (s : Text) → has_dot s ≡ false → last_part s ≡ s
unfolding last_part
last_part-no_dot [] h = refl
last_part-no_dot (b ∷ s) h = ground arith

pub last_part_clear : (s : Text) → has_dot (last_part s) ≡ false
unfolding last_part
last_part_clear [] = refl
last_part_clear (b ∷ s) = ground (arith, last_part_clear s)

before_last-none : (s : Text) → before_last s ≡ none → has_dot s ≡ false
unfolding before_last
before_last-none [] h = refl
before_last-none (b ∷ s) h = ground (arith, before_last-none s)

before_last-has_dot : (s : Text) {t : Text} → before_last s ≡ some t → has_dot s ≡ true
unfolding before_last
before_last-has_dot [] h = cc
before_last-has_dot (b ∷ s) h = elim (Option-cases (before_last s)) [
  | inl nowhere ↦ ground arith
  | inr (u, e) ↦ ground (arith, before_last-has_dot s e)
]

pub before_last-some : (s : Text) {t : Text} → before_last s ≡ some t → s ≡ t ++ b'.' ∷ last_part s
unfolding before_last last_part
before_last-some [] h = cc
before_last-some (b ∷ s) {t} h = elim (Option-cases (before_last s)) [
  | inl nowhere ↦ ground (arith, before_last-none s nowhere)
  | inr (u, e) ↦
      let front : b ∷ u ≡ t = ground arith in
      rw (before_last-has_dot s e)
        (ap (◌∷◌ b) (before_last-some s e) ∙ ap (λ (f : Text). f ++ b'.' ∷ last_part s) front)
]

-- What stands behind the last dot, and what stands before it: nothing, or a text that ends in a
-- dot.
pub record LastPart (s : Text) : Type 0 where
  pub front : Text
  pub whole : s ≡ front ++ last_part s
  pub no_dot : has_dot (last_part s) ≡ false
  pub ends : (front ≡ []) ⊎ ((f : Text) × (front ≡ f ++ text "."))

pub last_part_lem : (s : Text) → LastPart s
last_part_lem s = elim (Option-cases (before_last s)) [
  | inl e ↦ record {
    front = [];
    whole = sym (last_part-no_dot s (before_last-none s e));
    no_dot = last_part_clear s;
    ends = inl refl;
  }
  | inr (t, e) ↦ record {
    front = t ++ text ".";
    whole = before_last-some s e ∙ sym (append_assoc t (text ".") (last_part s));
    no_dot = last_part_clear s;
    ends = inr (t, refl);
  }
]

pub strip_suffix-append : (p s : Text) → strip_suffix (p ++ s) s ≡ some p
unfolding strip_suffix
strip_suffix-append p s =
    let n : length (p ++ s) - length s ≡ length p = omega (arith, length-append p s) in
    let enough : leb (length s) (length (p ++ s)) ≡ true = ground (arith, length-append p s) in
    let front : take (length p) (p ++ s) ≡ p = take-append_left (length p) p s refl in
    let end : drop (length p) (p ++ s) ≡ s = drop-append_left (length p) p s refl in
    rw (n, enough, front, end, text_eq_refl s) refl

pub is_empty-append : (f l : Text) → l ≢ [] → is_empty (f ++ l) ≡ false
is_empty-append [] [] h = absurd (h refl)
is_empty-append [] (b ∷ l) h = refl
is_empty-append (b ∷ f) l h = refl

-- A label at the end is a part of what stands behind the last dot.
pub is_empty-last_part-append :
    (f l : Text) → l ≢ [] → has_dot l ≡ false → is_empty (last_part (f ++ l)) ≡ false
unfolding last_part
is_empty-last_part-append [] l h clear = rw (last_part-no_dot l clear) (is_empty-append [] l h)
is_empty-last_part-append (b ∷ f) l h clear =
    ground (arith, is_empty-last_part-append f l h clear, is_empty-append f l h)
