-- ===== src/Keystore/Bulk/Ended.antt =====
-- A restore comes to an end whatever the records are, as long as the tape of UUIDs never repeats
-- itself.
use passport_passwords.Base.{
  ℕ, List, [], ◌∷◌, none, ◌≢◌, arith, any, Bool-cases, Option-cases, inl, inr,
}
use passport_passwords.Record.{CredentialRecord, Ambient}
use passport_passwords.Keystore.{has_login}
use passport_passwords.Keystore.Bulk.{
  ImportPolicy, skip, replace, keep_both, ImportSummary, zero_summary, count, push_restored,
  restore_found, restore_one, restore_loop, restore_many,
}
use passport_passwords.Keystore.Bulk.Ids.{NeverRepeats, unique_record_id_lem}

module _ (env : Ambient) (fresh : NeverRepeats env) where
  push_restored-some :
      (rs : List CredentialRecord) (incoming : CredentialRecord) (at : ℕ)
      → push_restored env rs incoming at ≢ none
  unfolding push_restored
  push_restored-some rs incoming at h =
      let (id, at', e, free) = unique_record_id_lem env fresh rs incoming.id at in ground arith

  restore_found-some :
      (policy : ImportPolicy) (rs : List CredentialRecord) (incoming : CredentialRecord) (at : ℕ)
      → restore_found env policy rs incoming at ≢ none
  unfolding restore_found
  restore_found-some skip rs incoming at h = cc
  restore_found-some replace rs incoming at h = cc
  restore_found-some keep_both rs incoming at h = push_restored-some rs _ at h

  restore_one-some :
      (policy : ImportPolicy) (rs : List CredentialRecord) (incoming : CredentialRecord) (at : ℕ)
      → restore_one env policy rs incoming at ≢ none
  unfolding restore_one
  restore_one-some policy rs incoming at h =
      elim (Bool-cases (any (has_login incoming.origin incoming.username) rs)) [
        | inl found ↦ restore_found-some policy rs incoming at (ground arith)
        | inr new ↦ push_restored-some rs incoming at (ground arith)
      ]

  restore_loop-some :
      (policy : ImportPolicy) (rs : List CredentialRecord) (s : ImportSummary) (at : ℕ)
      (incoming : List CredentialRecord)
      → restore_loop env policy rs s at incoming ≢ none
  unfolding restore_loop
  restore_loop-some policy rs s at [] h = cc
  restore_loop-some policy rs s at (incoming ∷ rest) h =
      elim (Option-cases (restore_one env policy rs incoming at)) [
        | inl e ↦ restore_one-some policy rs incoming at e
        | inr ((rs', b, at'), e) ↦ restore_loop-some policy rs' (count b s) at' rest (ground arith)
      ]

  pub restore_many-some :
      (rs incoming : List CredentialRecord) (policy : ImportPolicy) (at : ℕ)
      → restore_many env rs incoming policy at ≢ none
  unfolding restore_many
  restore_many-some rs incoming policy at = restore_loop-some policy rs zero_summary at incoming
