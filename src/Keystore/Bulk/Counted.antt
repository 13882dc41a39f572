-- ===== src/Keystore/Bulk/Counted.antt =====
-- What the loops of a restore and an import count, and what they leave as it was.
use passport_passwords.Base.{
  ℕ, suc, ◌+◌, ◌≡◌, refl, sym, ◌∙◌, ap, List, [], ◌∷◌, ◌++◌, append-nil, append_assoc, arith,
}
use passport_passwords.Record.{CredentialRecord}
use passport_passwords.Keystore.Bulk.{
  ImportPolicy, skip, replace, keep_both, ImportSummary, Bucket, into_imported, into_skipped,
  into_replaced, count,
}

abbrev pub total : ImportSummary → ℕ
total s = s.imported + s.skipped + s.replaced

-- How many records one record adds.
abbrev pub added : Bucket → ℕ
added into_imported = 1
added into_skipped = 0
added into_replaced = 0

pub total-count : (b : Bucket) (s : ImportSummary) → total (count b s) ≡ suc (total s)
unfolding count
total-count into_imported s = omega arith
total-count into_skipped s = omega arith
total-count into_replaced s = omega arith

pub imported-count : (b : Bucket) (s : ImportSummary) → (count b s).imported ≡ s.imported + added b
unfolding count
imported-count into_imported s = refl
imported-count into_skipped s = omega arith
imported-count into_replaced s = omega arith

-- What was there is there afterwards, in its place, unless the policy is to replace.
abbrev pub Kept : ImportPolicy → List CredentialRecord → List CredentialRecord → Type 0
Kept skip before after = (more : List CredentialRecord) × (after ≡ before ++ more)
Kept replace before after = Unit
Kept keep_both before after = (more : List CredentialRecord) × (after ≡ before ++ more)

pub Kept-append :
    (policy : ImportPolicy) (rs : List CredentialRecord) (r : CredentialRecord)
    → Kept policy rs (rs ++ r ∷ [])
Kept-append skip rs r = (r ∷ [], refl)
Kept-append replace rs r = tt
Kept-append keep_both rs r = (r ∷ [], refl)

pub Kept-refl : (policy : ImportPolicy) (rs : List CredentialRecord) → Kept policy rs rs
Kept-refl skip rs = ([], sym (append-nil rs))
Kept-refl replace rs = tt
Kept-refl keep_both rs = ([], sym (append-nil rs))

pub Kept-trans :
    (policy : ImportPolicy) (rs ss ts : List CredentialRecord)
    → Kept policy rs ss
    → Kept policy ss ts
    → Kept policy rs ts
Kept-trans skip rs ss ts (xs, e) (ys, e') =
    (xs ++ ys, e' ∙ ap (λ l. l ++ ys) e ∙ append_assoc rs xs ys)
Kept-trans replace rs ss ts h k = tt
Kept-trans keep_both rs ss ts (xs, e) (ys, e') =
    (xs ++ ys, e' ∙ ap (λ l. l ++ ys) e ∙ append_assoc rs xs ys)
