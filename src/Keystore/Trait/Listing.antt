-- ===== src/Keystore/Trait/Listing.antt =====
-- What `list_origins` shows: the origins of the live records, in order, each once.
use passport_passwords.Base.{
  text_lt_asymm, ◌≡◌, refl, ◌∙◌, Text, List, [], ◌∷◌, Bool, true, false, not, text_eq, text_eq_iff,
  text_lt, filter, map, any, Bool-cases, inl, inr, arith, ◌||◌, ◌&&◌,
}
use passport_passwords.Base.Sort.{sort_by, insert}
use passport_passwords.Record.{CredentialRecord}
use passport_passwords.Keystore.Trait.{sort_texts, set_insert, to_set, list_origins}

text_lt_trans : (a b c : Text) → text_lt a b ≡ true → text_lt b c ≡ true → text_lt a c ≡ true
unfolding text_lt
text_lt_trans a b [] h k = cc
text_lt_trans a [] (z ∷ c) h k = cc
text_lt_trans [] (y ∷ b) (z ∷ c) h k = refl
text_lt_trans (x ∷ a) (y ∷ b) (z ∷ c) h k = ground (arith, text_lt_trans a b c)

text_lt_total : (a b : Text) → text_lt a b ≡ false → text_eq a b ≡ false → text_lt b a ≡ true
unfolding text_lt text_eq
text_lt_total [] [] h k = cc
text_lt_total (x ∷ a) [] h k = refl
text_lt_total [] (y ∷ b) h k = cc
text_lt_total (x ∷ a) (y ∷ b) h k = ground (arith, text_lt_total a b)

-- Strictly increasing.
abbrev pub LowHead : Text → List Text → Type 0
LowHead x [] = Unit
LowHead x (y ∷ _) = text_lt x y ≡ true

abbrev pub Ascending : List Text → Type 0
Ascending [] = Unit
Ascending (x ∷ xs) = LowHead x xs × Ascending xs

abbrev pub has : Text → List Text → Bool
has x xs = any (text_eq x) xs

set_insert-LowHead :
    (z x : Text) (xs : List Text) → text_lt z x ≡ true → LowHead z xs → LowHead z (set_insert x xs)
unfolding set_insert
set_insert-LowHead z x [] h k = h
set_insert-LowHead z x (y ∷ ys) h k = ground arith

set_insert-Ascending : (x : Text) (xs : List Text) → Ascending xs → Ascending (set_insert x xs)
unfolding set_insert
set_insert-Ascending x [] h = (tt, tt)
set_insert-Ascending x (y ∷ ys) h = elim (Bool-cases (text_lt x y)) [
  | inl lt ↦ rw (lt, Ascending) (lt, h)
  | inr ge ↦ elim (Bool-cases (text_eq x y)) [
    | inl same ↦ rw (ge, same, Ascending) h
    | inr other ↦
        rw (ge, other, Ascending)
          (
            set_insert-LowHead y x ys (text_lt_total x y ge other) h.0,
            set_insert-Ascending x ys h.1,
          )
  ]
]

to_set-Ascending : (xs : List Text) → Ascending (to_set xs)
unfolding to_set
to_set-Ascending [] = tt
to_set-Ascending (x ∷ xs) = set_insert-Ascending x (to_set xs) (to_set-Ascending xs)

has-set_insert : (o x : Text) (xs : List Text) → has o (set_insert x xs) ≡ (text_eq o x || has o xs)
unfolding set_insert
has-set_insert o x [] = refl
has-set_insert o x (y ∷ ys) =
    ground (arith, has-set_insert o x ys, text_eq_iff x y, text_eq_iff o x, text_eq_iff o y)

has-to_set : (o : Text) (xs : List Text) → has o (to_set xs) ≡ has o xs
unfolding to_set
has-to_set o [] = refl
has-to_set o (x ∷ xs) = has-set_insert o x (to_set xs) ∙ rw (has-to_set o xs)

-- A list in order is sorted already.
sort_texts-Ascending : (xs : List Text) → Ascending xs → sort_texts xs ≡ xs
unfolding sort_by
sort_texts-Ascending [] h = refl
sort_texts-Ascending (x ∷ []) h = refl
sort_texts-Ascending (x ∷ y ∷ ys) h =
    rw (sort_texts-Ascending (y ∷ ys) h.1) (rw (text_lt_asymm x y h.0, insert))

has-origins :
    (o : Text) (rs : List CredentialRecord)
    → has o (map (λ r. r.origin) (filter (λ r. not r.archived) rs))
      ≡ any (λ r. not r.archived && text_eq o r.origin) rs
has-origins o [] = refl
has-origins o (r ∷ rs) = ground (arith, has-origins o rs)

-- The host is shown the origins in ascending order, each once, and exactly those that a record
-- has which is not archived.
pub list_origins_lem :
    (rs : List CredentialRecord)
    → Ascending (list_origins rs)
      × ((o : Text) → has o (list_origins rs) ≡ any (λ r. not r.archived && text_eq o r.origin) rs)
unfolding list_origins
list_origins_lem rs =
    let origins = map (λ (r : CredentialRecord). r.origin) (filter (λ r. not r.archived) rs) in
    let ordered = to_set-Ascending origins in
    let same = sort_texts-Ascending (to_set origins) ordered in
    rw same (ordered, λ o. has-to_set o origins ∙ has-origins o rs)
