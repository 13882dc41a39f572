-- ===== src/Keystore/Bulk/Unchanged.antt =====
-- A bulk operation that counts nothing as added or replaced has changed nothing.
use passport_passwords.Base.{
  ℕ, ◌+◌, ◌≡◌, ◌≢◌, ◌<◌, ◌∙◌, ◌⊎◌, inl, inr, refl, List, [], ◌∷◌, Option, none, some, Option-cases,
  Bool-cases, any, arith,
}
use passport_passwords.Record.{CredentialRecord, Ambient}
use passport_passwords.Keystore.{has_login}
use passport_passwords.Keystore.Bulk.{
  ImportItem, ImportPolicy, skip, replace, keep_both, ImportSummary, Bucket, into_imported,
  into_skipped, into_replaced, count, zero_summary, import_found, import_one, import_loop,
  import_many, push_imported, restore_found, unique_record_id, restore_one, restore_loop,
  restore_many, push_restored,
}

-- The counters of what changes the records.
abbrev pub changes : ImportSummary → ℕ
changes s = s.imported + s.replaced

-- One record that is not skipped is counted.
abbrev Counted : List CredentialRecord → List CredentialRecord → Bucket → Type 0
Counted before after b = ((b ≡ into_skipped) × (after ≡ before)) ⊎ (b ≢ into_skipped)

changes-count-skipped : (s : ImportSummary) → changes (count into_skipped s) ≡ changes s
unfolding count
changes-count-skipped s = omega arith

changes-count :
    (b : Bucket) (s : ImportSummary) → b ≢ into_skipped → changes (count b s) ≡ changes s + 1
unfolding count
changes-count into_imported s h = omega arith
changes-count into_skipped s h = absurd (h refl)
changes-count into_replaced s h = omega arith

-- What a bulk operation has done to the records, with the counters before and after.
abbrev Moved : List CredentialRecord → List CredentialRecord → ℕ → ℕ → Type 0
Moved before after m n = ((after ≡ before) × (n ≡ m)) ⊎ (m < n)

Moved-count :
    (rs after : List CredentialRecord) (b : Bucket) (s : ImportSummary)
    → Counted rs after b
    → Moved rs after (changes s) (changes (count b s))
Moved-count rs after b s (inl (e, same)) = rw e (inl (same, changes-count-skipped s))
Moved-count rs after b s (inr h) = inr (omega (arith, changes-count b s h))

Moved-trans :
    (rs ss ts : List CredentialRecord) (l m n : ℕ)
    → Moved rs ss l m
    → Moved ss ts m n
    → Moved rs ts l n
Moved-trans rs ss ts l m n (inl (e, f)) (inl (e', f')) = inl (e' ∙ e, f' ∙ f)
Moved-trans rs ss ts l m n (inl (e, f)) (inr h) = inr (omega arith)
Moved-trans rs ss ts l m n (inr h) (inl (e', f')) = inr (omega arith)
Moved-trans rs ss ts l m n (inr h) (inr k) = inr (omega arith)

module _ (env : Ambient) where
  import_found-Counted :
      (policy : ImportPolicy) (rs : List CredentialRecord) (item : ImportItem) (at : ℕ)
      → let (after, b, _) = import_found env policy rs item at in Counted rs after b
  unfolding import_found push_imported
  import_found-Counted skip rs item at = inl (refl, refl)
  import_found-Counted replace rs item at = inr (λ e. cc)
  import_found-Counted keep_both rs item at = inr (λ e. cc)

  import_one-Counted :
      (policy : ImportPolicy) (rs : List CredentialRecord) (item : ImportItem) (at : ℕ)
      → let (after, b, _) = import_one env policy rs item at in Counted rs after b
  unfolding import_one push_imported
  import_one-Counted policy rs item at =
      elim (Bool-cases (any (has_login item.origin item.username) rs)) [
        | inl found ↦ rw found (import_found-Counted policy rs item at)
        | inr new ↦ rw new (inr (λ e. cc))
      ]

  import_loop-Moved :
      (policy : ImportPolicy) (rs : List CredentialRecord) (s : ImportSummary) (at : ℕ)
      (items : List ImportItem)
      → let (after, t, _) = import_loop env policy rs s at items in
        Moved rs after (changes s) (changes t)
  unfolding import_loop
  import_loop-Moved policy rs s at [] = inl (refl, refl)
  import_loop-Moved policy rs s at (item ∷ items) =
      let (rs', b, at') = import_one env policy rs item at in
      let (after, t, _) = import_loop env policy rs' (count b s) at' items in
      Moved-trans rs rs' after (changes s) (changes (count b s)) (changes t)
        (Moved-count rs rs' b s (import_one-Counted policy rs item at))
        (import_loop-Moved policy rs' (count b s) at' items)

  -- An import that counts nothing as imported or replaced leaves the records alone.
  pub import_many-unchanged :
      (rs : List CredentialRecord) (items : List ImportItem) (policy : ImportPolicy) (at : ℕ)
      → let (after, t, _) = import_many env rs items policy at in
        t.imported ≡ 0 → t.replaced ≡ 0 → after ≡ rs
  unfolding import_many
  import_many-unchanged rs items policy at h k =
      ground (arith, import_loop-Moved policy rs zero_summary at items)

  -- What one record of a restore has done.
  abbrev RestoredTo : List CredentialRecord → Option (List CredentialRecord × Bucket × ℕ) → Type 0
  RestoredTo rs none = Unit
  RestoredTo rs (some (after, b, at)) = Counted rs after b

  push_restored-RestoredTo :
      (rs : List CredentialRecord) (r : CredentialRecord) (at : ℕ)
      → RestoredTo rs (push_restored env rs r at)
  unfolding push_restored
  push_restored-RestoredTo rs r at = elim (Option-cases (unique_record_id env rs r.id at)) [
    | inl e ↦ rw (e, push_restored) tt
    | inr ((id, at'), e) ↦ rw (e, push_restored) (inr (λ f. cc))
  ]

  restore_found-RestoredTo :
      (policy : ImportPolicy) (rs : List CredentialRecord) (r : CredentialRecord) (at : ℕ)
      → RestoredTo rs (restore_found env policy rs r at)
  unfolding restore_found
  restore_found-RestoredTo skip rs r at = inl (refl, refl)
  restore_found-RestoredTo replace rs r at = inr (λ e. cc)
  restore_found-RestoredTo keep_both rs r at = push_restored-RestoredTo rs _ at

  restore_one-RestoredTo :
      (policy : ImportPolicy) (rs : List CredentialRecord) (r : CredentialRecord) (at : ℕ)
      → RestoredTo rs (restore_one env policy rs r at)
  unfolding restore_one restore_found
  restore_one-RestoredTo policy rs r at =
      elim (Bool-cases (any (has_login r.origin r.username) rs)) [
        | inr new ↦ rw new (push_restored-RestoredTo rs r at)
        | inl found ↦ rw found (restore_found-RestoredTo policy rs r at)
      ]

  restore_loop-Moved :
      (policy : ImportPolicy) (rs : List CredentialRecord) (s : ImportSummary) (at : ℕ)
      (incoming : List CredentialRecord) {after : List CredentialRecord} {t : ImportSummary}
      {at' : ℕ}
      → restore_loop env policy rs s at incoming ≡ some (after, t, at')
      → Moved rs after (changes s) (changes t)
  unfolding restore_loop
  restore_loop-Moved policy rs s at [] h = ground arith
  restore_loop-Moved policy rs s at (r ∷ incoming) {after} {t} {at'} h =
      elim (Option-cases (restore_one env policy rs r at)) [
        | inl e ↦ absurd (ground arith)
        | inr ((rs', b, at''), e) ↦
            let one : Counted rs rs' b = rw e at (restore_one-RestoredTo policy rs r at) in
            Moved-trans rs rs' after (changes s) (changes (count b s)) (changes t)
              (Moved-count rs rs' b s one)
              (restore_loop-Moved policy rs' (count b s) at'' incoming {after = after} {t = t}
                {at' = at'} (ground arith))
      ]

  -- A restore that counts nothing as imported or replaced leaves the records alone.
  pub restore_many-unchanged :
      (rs incoming : List CredentialRecord) (policy : ImportPolicy) (at : ℕ)
      {after : List CredentialRecord} {t : ImportSummary} {at' : ℕ}
      → restore_many env rs incoming policy at ≡ some (after, t, at')
      → t.imported ≡ 0
      → t.replaced ≡ 0
      → after ≡ rs
  unfolding restore_many
  restore_many-unchanged rs incoming policy at {after} {t} {at'} h i k = ground (
    arith,
    restore_loop-Moved policy rs zero_summary at incoming {after = after} {t = t} {at' = at'} h,
  )
