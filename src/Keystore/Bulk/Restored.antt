-- ===== src/Keystore/Bulk/Restored.antt =====
-- What `restore_many` has done: it comes to an end, every record is counted once, the ids stay
-- distinct, and what was there stays unless it is replaced.
use passport_passwords.Base.{
  ℕ, ◌+◌, ◌≡◌, refl, ◌∙◌, List, [], ◌∷◌, ◌++◌, some, arith, length, length-append, any, Bool-cases,
  inl, inr, length-update_first,
}
use passport_passwords.Record.{CredentialRecord, Ambient}
use passport_passwords.Keystore.{has_login}
use passport_passwords.Keystore.Bulk.{
  ImportPolicy, skip, replace, keep_both, ImportSummary, zero_summary, Bucket, into_imported,
  into_skipped, into_replaced, count, push_restored, restore_found, restore_one, restore_loop,
  restore_many,
}
use passport_passwords.Keystore.Bulk.Ids.{
  DistinctIds, NeverRepeats, unique_record_id_lem, DistinctIds-append, DistinctIds-update_first,
}
use passport_passwords.Keystore.Bulk.Counted.{
  total, added, total-count, imported-count, Kept, Kept-append, Kept-refl, Kept-trans,
}

-- What a step of either loop keeps.
record Grown (policy : ImportPolicy) (before after : List CredentialRecord) (more : ℕ)
    : Type 0 where
  distinct : DistinctIds after
  grown : length after ≡ length before + more
  kept : Kept policy before after

module _ (env : Ambient) (fresh : NeverRepeats env) where
  push_restored-Grown :
      (policy : ImportPolicy) (rs : List CredentialRecord) (incoming : CredentialRecord) (at : ℕ)
      → DistinctIds rs
      → (after : List CredentialRecord) × (b : Bucket) × (at' : ℕ) × (push_restored env rs incoming
            at
          ≡ some (after, b, at'))
        × Grown policy rs after (added b)
  unfolding push_restored
  push_restored-Grown policy rs incoming at d =
      let (id, at', e, free) = unique_record_id_lem env fresh rs incoming.id at in
      let r : CredentialRecord = record incoming { id = id } in
      (
        rs ++ r ∷ [],
        into_imported,
        at',
        rw (e, push_restored) refl,
        record {
          distinct = DistinctIds-append rs r d free;
          grown = length-append rs (r ∷ []);
          kept = Kept-append policy rs r;
        },
      )

  restore_found-Grown :
      (policy : ImportPolicy) (rs : List CredentialRecord) (incoming : CredentialRecord) (at : ℕ)
      → DistinctIds rs
      → (after : List CredentialRecord) × (b : Bucket) × (at' : ℕ) × (restore_found env policy rs
            incoming at
          ≡ some (after, b, at'))
        × Grown policy rs after (added b)
  unfolding restore_found
  restore_found-Grown skip rs incoming at d = (
    rs,
    into_skipped,
    at,
    refl,
    record { distinct = d; grown = omega arith; kept = Kept-refl skip rs },
  )
  restore_found-Grown replace rs incoming at d = (
    _,
    into_replaced,
    at,
    refl,
    record {
      distinct =
          DistinctIds-update_first (has_login incoming.origin incoming.username) _ (λ r. refl) rs d;
      grown = length-update_first _ _ rs ∙ omega arith;
      kept = tt;
    },
  )
  restore_found-Grown keep_both rs incoming at d = push_restored-Grown keep_both rs _ at d

  restore_one-Grown :
      (policy : ImportPolicy) (rs : List CredentialRecord) (incoming : CredentialRecord) (at : ℕ)
      → DistinctIds rs
      → (after : List CredentialRecord) × (b : Bucket) × (at' : ℕ) × (restore_one env policy rs
            incoming at
          ≡ some (after, b, at'))
        × Grown policy rs after (added b)
  unfolding restore_one
  restore_one-Grown policy rs incoming at d =
      elim (Bool-cases (any (has_login incoming.origin incoming.username) rs)) [
        | inl found ↦ rw found (restore_found-Grown policy rs incoming at d)
        | inr new ↦ rw new (push_restored-Grown policy rs incoming at d)
      ]

  restore_loop_lem :
      (policy : ImportPolicy) (rs : List CredentialRecord) (s : ImportSummary) (at : ℕ)
      (incoming : List CredentialRecord)
      → DistinctIds rs
      → (after : List CredentialRecord) × (t : ImportSummary) × (at' : ℕ) × (restore_loop env policy
            rs s at incoming
          ≡ some (after, t, at'))
        × DistinctIds after
        × (total t ≡ total s + length incoming)
        × (length after + s.imported ≡ length rs + t.imported)
        × Kept policy rs after
  unfolding restore_loop
  restore_loop_lem policy rs s at [] d =
      (rs, s, at, refl, d, omega arith, refl, Kept-refl policy rs)
  restore_loop_lem policy rs s at (incoming ∷ rest) d =
      let (mid, b, at1, e, step) = restore_one-Grown policy rs incoming at d in
      let (after, t, at', e', d', counted, grown, kept) =
        restore_loop_lem policy mid (count b s) at1 rest step.distinct in
      (
        after,
        t,
        at',
        rw (e, restore_loop) e',
        d',
        omega (arith, counted, total-count b s),
        omega (arith, grown, step.grown, imported-count b s),
        Kept-trans policy rs mid after step.kept kept,
      )

  -- A restore of a backup into records with distinct ids always comes to an end, as long as the
  -- tape of UUIDs does not repeat itself. The ids stay distinct, each record of the backup is
  -- counted as imported, skipped or replaced, the keystore grows by the imported ones, and unless
  -- the policy is to replace, the records that were there stay as they are, in front.
  pub restore_many_lem :
      (rs incoming : List CredentialRecord) (policy : ImportPolicy) (at : ℕ)
      → DistinctIds rs
      → (after : List CredentialRecord) × (t : ImportSummary) × (at' : ℕ) × (restore_many env rs
            incoming policy at
          ≡ some (after, t, at'))
        × DistinctIds after
        × (total t ≡ length incoming)
        × (length after ≡ length rs + t.imported)
        × Kept policy rs after
  unfolding restore_many
  restore_many_lem rs incoming policy at d =
      let (after, t, at', e, d', counted, grown, kept) =
        restore_loop_lem policy rs zero_summary at incoming d in
      (after, t, at', e, d', omega (arith, counted), omega (arith, grown), kept)
