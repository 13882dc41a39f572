-- ===== src/Keystore/Bulk/Imported.antt =====
-- What `import_many` has done: every item is counted once, and what was there stays unless it is
-- replaced.
use passport_passwords.Base.{
  ℕ, ◌+◌, ◌≡◌, refl, ◌∙◌, List, [], ◌∷◌, arith, length, length-append, any, Bool-cases, inl, inr,
  length-update_first,
}
use passport_passwords.Record.{CredentialRecord, Ambient}
use passport_passwords.Keystore.{has_login}
use passport_passwords.Keystore.Bulk.{
  ImportItem, ImportPolicy, skip, replace, keep_both, ImportSummary, zero_summary, count,
  push_imported, import_found, import_one, import_loop, import_many,
}
use passport_passwords.Keystore.Bulk.Counted.{
  total, added, total-count, imported-count, Kept, Kept-append, Kept-refl, Kept-trans,
}

module _ (env : Ambient) where
  -- What a step of an import keeps.
  record Imported (policy : ImportPolicy) (before after : List CredentialRecord) (more : ℕ)
      : Type 0 where
    grown : length after ≡ length before + more
    kept : Kept policy before after

  push_imported-Imported :
      (policy : ImportPolicy) (rs : List CredentialRecord) (item : ImportItem) (label : _) (at : ℕ)
      → let (after, b, _) = push_imported env rs item label at in Imported policy rs after (added b)
  unfolding push_imported
  push_imported-Imported policy rs item label at = record {
    grown = length-append rs _;
    kept = Kept-append policy rs _;
  }

  import_found-Imported :
      (policy : ImportPolicy) (rs : List CredentialRecord) (item : ImportItem) (at : ℕ)
      → let (after, b, _) = import_found env policy rs item at in Imported policy rs after (added b)
  unfolding import_found
  import_found-Imported skip rs item at = record { grown = omega arith; kept = Kept-refl skip rs }
  import_found-Imported replace rs item at = record {
    grown = length-update_first _ _ rs ∙ omega arith;
    kept = tt;
  }
  import_found-Imported keep_both rs item at = push_imported-Imported keep_both rs item _ at

  import_one-Imported :
      (policy : ImportPolicy) (rs : List CredentialRecord) (item : ImportItem) (at : ℕ)
      → let (after, b, _) = import_one env policy rs item at in Imported policy rs after (added b)
  unfolding import_one
  import_one-Imported policy rs item at =
      elim (Bool-cases (any (has_login item.origin item.username) rs)) [
        | inl found ↦ rw found (import_found-Imported policy rs item at)
        | inr new ↦ rw new (push_imported-Imported policy rs item item.label at)
      ]

  import_loop_lem :
      (policy : ImportPolicy) (rs : List CredentialRecord) (s : ImportSummary) (at : ℕ)
      (items : List ImportItem)
      → let (after, t, _) = import_loop env policy rs s at items in
        (total t ≡ total s + length items)
        × (length after + s.imported ≡ length rs + t.imported)
        × Kept policy rs after
  unfolding import_loop
  import_loop_lem policy rs s at [] = (omega arith, refl, Kept-refl policy rs)
  import_loop_lem policy rs s at (item ∷ rest) =
      let (mid, b, at1) = import_one env policy rs item at in
      let step = import_one-Imported policy rs item at in
      let (counted, grown, kept) = import_loop_lem policy mid (count b s) at1 rest in
      (
        omega (arith, counted, total-count b s),
        omega (arith, grown, step.grown, imported-count b s),
        Kept-trans policy rs mid _ step.kept kept,
      )

  -- An import counts each item as imported, skipped or replaced, the keystore grows by the
  -- imported ones, and unless the policy is to replace, the records that were there stay as they
  -- are, in front.
  pub import_many_lem :
      (rs : List CredentialRecord) (items : List ImportItem) (policy : ImportPolicy) (at : ℕ)
      → let (after, t, _) = import_many env rs items policy at in
        (total t ≡ length items) × (length after ≡ length rs + t.imported) × Kept policy rs after
  unfolding import_many
  import_many_lem rs items policy at =
      let (counted, grown, kept) = import_loop_lem policy rs zero_summary at items in
      (omega (arith, counted), omega (arith, grown), kept)
