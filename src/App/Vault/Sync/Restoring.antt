-- ===== src/App/Vault/Sync/Restoring.antt =====
-- The callbacks of backups keep the keystore in memory and on the disk the same.
use passport_passwords.Base.{
  ℕ, Text, List, [], ◌∷◌, Bool, true, false, ◌||◌, Option, none, some, ◌≡◌, refl, sym, ap, ◌∙◌, ok,
  Result-cases, Option-cases, Bool-cases, inl, inr, arith, ltb, is_empty, length,
}
use passport_passwords.Crypto.{IsCrypto}
use passport_passwords.Record.{CredentialRecord}
use passport_passwords.Keystore.{Keystore, snapshot}
use passport_passwords.Keystore.Bulk.{ImportPolicy, ImportSummary, restore_many}
use passport_passwords.Keystore.Bulk.Ids.{NeverRepeats}
use passport_passwords.Keystore.Bulk.Ended.{restore_many-some}
use passport_passwords.Keystore.Bulk.Unchanged.{restore_many-unchanged}
use passport_passwords.Keystore.Sealed.{IsJson, export_backup, records_from_backup}
use passport_passwords.App.Disk.{IsKeystoreStore}
use passport_passwords.App.Vault.{Platform, App, refresh_credentials, commit}
use passport_passwords.App.Vault.Importing.{
  Picked, cancelled, picker_failed, unreadable, picked, max_file_bytes, policy_from_int,
}
use passport_passwords.App.Vault.Backup.{
  PickedDir, no_dir, dir_failed, dir_chosen, set_backup_error, set_backup_success, write_backup,
  offer_records, restore_picked, export_encrypted_backup, offer_restore, pick_restore_backup,
  finish_restore, restore_not_saved, restore_records, on_backup_restore_confirm,
}
use passport_passwords.App.Vault.Sync.{InSync, same_sync, refresh-InSync, commit-InSync}

module _ (p : Platform) (laws : IsCrypto p.crypto) (json : IsJson p.json)
    (store : IsKeystoreStore p.store) (master : Text) where
  -- `InSync` of this section.
  abbrev pub Synced : App p → Type 0
  Synced = InSync p laws json store master

  set_backup_error-InSync : (m : Text) (a : App p) → Synced a → Synced (set_backup_error p m a)
  unfolding set_backup_error
  set_backup_error-InSync m a s =
      same_sync p laws json store master (set_backup_error p m a) a (ground arith) s

  set_backup_success-InSync : (m : Text) (a : App p) → Synced a → Synced (set_backup_success p m a)
  unfolding set_backup_success
  set_backup_success-InSync m a s =
      same_sync p laws json store master (set_backup_success p m a) a (ground arith) s

  write_backup-InSync :
      (dir : PickedDir) (written : Bool) (backup : Text) (a : App p)
      → Synced a
      → Synced (write_backup p dir written backup a).1
  unfolding write_backup
  write_backup-InSync no_dir written backup a s = s
  write_backup-InSync dir_failed written backup a s = set_backup_error-InSync _ a s
  write_backup-InSync (dir_chosen dir) true backup a s = set_backup_success-InSync _ a s
  write_backup-InSync (dir_chosen dir) false backup a s = set_backup_error-InSync _ a s

  offer_records-InSync :
      (records : List CredentialRecord) (a : App p) → Synced a → Synced (offer_records p records a)
  unfolding offer_records
  offer_records-InSync records a s =
      same_sync p laws json store master (offer_records p records a) a (ground arith) s

  pub export-InSync :
      (passphrase : Text) (dir : PickedDir) (written : Bool) (a : App p)
      → Synced a
      → Synced (export_encrypted_backup p passphrase dir written a).1
  unfolding export_encrypted_backup
  export-InSync passphrase dir written a s = elim (Bool-cases (ltb (length passphrase) 12)) [
    | inl short ↦ rw short (set_backup_error-InSync _ a s)
    | inr long ↦
        let (result, rng) = export_backup p.crypto p.json a.keystore passphrase a.rng in
        let b : App p = record a { rng = rng } in
        elim (Result-cases result) [
          | inl (f, e) ↦ rw (long, e) (set_backup_error-InSync _ b s)
          | inr (backup, e) ↦ rw (long, e) (write_backup-InSync dir written backup b s)
        ]
  ]

  offer_restore-InSync :
      (passphrase bytes : Text) (a : App p) → Synced a → Synced (offer_restore p passphrase bytes a)
  unfolding offer_restore
  offer_restore-InSync passphrase bytes a s =
      elim (Bool-cases (ltb max_file_bytes (length bytes))) [
        | inl large ↦ rw large (set_backup_error-InSync _ a s)
        | inr small ↦ elim (Result-cases (records_from_backup p.crypto p.json passphrase bytes)) [
          | inl (f, e) ↦ rw (small, e) (set_backup_error-InSync _ a s)
          | inr ([], e) ↦ rw (small, e) (set_backup_error-InSync _ a s)
          | inr (r ∷ records, e) ↦ rw (small, e) (offer_records-InSync (r ∷ records) a s)
        ]
      ]

  restore_picked-InSync :
      (passphrase : Text) (f : Picked) (a : App p)
      → Synced a
      → Synced (restore_picked p passphrase f a)
  unfolding restore_picked
  restore_picked-InSync passphrase cancelled a s = s
  restore_picked-InSync passphrase picker_failed a s = set_backup_error-InSync _ a s
  restore_picked-InSync passphrase unreadable a s = set_backup_error-InSync _ a s
  restore_picked-InSync passphrase (picked bytes) a s = offer_restore-InSync passphrase bytes a s

  pub pick_restore_backup-InSync :
      (passphrase : Text) (f : Picked) (a : App p)
      → Synced a
      → Synced (pick_restore_backup p passphrase f a)
  unfolding pick_restore_backup
  pick_restore_backup-InSync passphrase f a s = elim (Bool-cases (is_empty passphrase)) [
    | inl e ↦ rw e (set_backup_error-InSync _ a s)
    | inr e ↦ rw e (restore_picked-InSync passphrase f a s)
  ]

  finish_restore-InSync : (t : ImportSummary) (a : App p) → Synced a → Synced (finish_restore p t a)
  unfolding finish_restore
  finish_restore-InSync t a s =
      set_backup_success-InSync _ (refresh_credentials p a)
        (refresh-InSync p laws json store master a s)

  -- A confirmed restore comes to an end, and what it comes to is synced.
  abbrev pub SyncedOption : Option (App p) → Type 0
  SyncedOption none = ⊥
  SyncedOption (some a) = Synced a

  restore_not_saved-InSync : (a : App p) → Synced a → Synced (restore_not_saved p a)
  unfolding restore_not_saved
  restore_not_saved-InSync a s =
      same_sync p laws json store master (restore_not_saved p a) a (ground arith) s

  restore_records-InSync :
      (fresh : NeverRepeats p.env) (policy : ImportPolicy) (records : List CredentialRecord)
      (a : App p)
      → Synced a
      → SyncedOption (restore_records p policy records a)
  unfolding restore_records
  restore_records-InSync fresh policy records a s =
      elim (Option-cases (restore_many p.env a.keystore.records records policy a.at)) [
        | inl e ↦ absurd (restore_many-some p.env fresh a.keystore.records records policy a.at e)
        | inr ((after, t, at), e) ↦
            let ks : Keystore = record a.keystore { records = after } in
            let b : App p = record a { at = at } in
            let (done, c) = commit p (snapshot a.keystore) ks b in
            let kept = commit-InSync p laws json store master ks b refl s in
            rw (e, restore_records)
              (elim (Bool-cases (ltb 0 t.imported || ltb 0 t.replaced)) [
                | inl changed ↦ rw changed (elim (Bool-cases done) [
                  | inl d ↦ rw d (finish_restore-InSync t c kept)
                  | inr d ↦ rw d (restore_not_saved-InSync c kept)
                ])
                | inr none_changed ↦
                    let same : after ≡ a.keystore.records =
                      restore_many-unchanged p.env a.keystore.records records policy a.at
                        {after = after} {t = t} {at' = at} e (ground arith) (ground arith) in
                    rw none_changed (
                      finish_restore-InSync t (record a { keystore = ks; at = at })
                        (s
                          ∙ ap
                              (λ (rs : List CredentialRecord).
                                ok (record a.keystore { records = rs }))
                              (sym same)))
              ])
      ]

  pub on_backup_restore_confirm-InSync :
      (fresh : NeverRepeats p.env) (policy : ℕ) (a : App p)
      → Synced a
      → SyncedOption (on_backup_restore_confirm p policy a)
  unfolding on_backup_restore_confirm
  on_backup_restore_confirm-InSync fresh policy a s = elim (Option-cases a.pending_restore) [
    | inl e ↦ rw (e, on_backup_restore_confirm) s
    | inr (records, e) ↦
        rw (e, on_backup_restore_confirm)
          (restore_records-InSync fresh (policy_from_int policy) records
            (record a { pending_restore = none }) s)
  ]
