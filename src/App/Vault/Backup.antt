-- ===== src/App/Vault/Backup.antt =====
-- src/src/backup_flow.rs with its callbacks in main.rs: encrypted backups.
use passport_passwords.Base.{
  ℕ, Text, text, List, [], ◌∷◌, ◌++◌, Bool, ◌||◌, Option, none, some, ok, err, ltb, ◌==◌, is_empty,
  length, if◌then◌else◌, text_eq,
}
use mathlib.Core.List.{reverse}
use passport_passwords.Origin.{decimal}
use passport_passwords.Record.{CredentialRecord}
use passport_passwords.Keystore.{snapshot, Keystore}
use passport_passwords.Keystore.Bulk.{ImportPolicy, ImportSummary, restore_many}
use passport_passwords.Keystore.Sealed.{export_backup, records_from_backup}
use passport_passwords.App.Vault.{Platform, App, on_screen, refresh_credentials, commit}
use passport_passwords.App.Vault.Importing.{
  Picked, cancelled, picker_failed, unreadable, picked, max_file_bytes, policy_from_int,
}

abbrev pub backup_file_name : Text
backup_file_name = text "passport-passwords-backup.vbpw"

-- `trim_end_matches('/')`, on the text in reverse
abbrev pub drop_slashes : Text → Text
drop_slashes [] = []
drop_slashes (b ∷ s) = if b == b'/' then drop_slashes s else b ∷ s

unfoldable pub join_dir : Text → Text → Text
unfolding text_eq
join_dir dir file =
    let trimmed = reverse (drop_slashes (reverse dir)) in
    if is_empty trimmed
    then file
    else if text_eq trimmed (text "/")
    then b'/' ∷ file
    else trimmed ++ b'/' ∷ file

-- The directory that the user chose, if the picker gives one.
pub data PickedDir : Type 0 where
  no_dir dir_failed : PickedDir
  dir_chosen : Text → PickedDir

module _ (p : Platform) where
  -- `backup_flow::set_error` and `backup_flow::set_success`
  unfoldable pub set_backup_error : Text → App p → App p
  set_backup_error message =
      on_screen p
        λ s. record s { backup_error = message; backup_success = []; backup_restore_count = 0 }

  unfoldable pub set_backup_success : Text → App p → App p
  set_backup_success message =
      on_screen p
        λ s. record s { backup_success = message; backup_error = []; backup_restore_count = 0 }

  -- The second half of `export_encrypted_backup`, from the choice of a directory
  unfoldable pub write_backup : PickedDir → Bool → Text → App p → Option (Text × Text) × App p
  write_backup no_dir written backup a = (none, a)
  write_backup dir_failed written backup a =
      (none, set_backup_error (text "Could not choose a backup destination.") a)
  write_backup (dir_chosen dir) written backup a =
      let path = join_dir dir backup_file_name in
      if written
      then (
        some (path, backup),
        set_backup_success
            (text "Encrypted backup saved to " ++ path ++ text ". Keep its passphrase safe.") a,
      )
      else (none, set_backup_error (text "Could not write the backup file.") a)

  -- `export_encrypted_backup` of the device: `written` says whether the file could be written. The
  -- path and the bytes of the file come with the application afterwards.
  unfoldable pub export_encrypted_backup :
      Text → PickedDir → Bool → App p → Option (Text × Text) × App p
  export_encrypted_backup passphrase dir written a =
      if ltb (length passphrase) 12
      then (none, set_backup_error (text "Use a backup passphrase of at least 12 characters.") a)
      else (let (result, rng) = export_backup p.crypto p.json a.keystore passphrase a.rng in
          let b : App p = record a { rng = rng } in
          elim result [
            | err _ ↦ (none, set_backup_error (text "Could not create encrypted backup.") b)
            | ok backup ↦ write_backup dir written backup b
          ])

  -- The records of a backup, put up for confirmation
  unfoldable pub offer_records : List CredentialRecord → App p → App p
  offer_records records a =
      on_screen p
        (λ s. record s {
          backup_restore_count = length records;
          backup_error = [];
          backup_success = [];
        })
        (record a { pending_restore = some records })

  -- `pick_restore_backup` of the device, behind the file picker
  unfoldable pub offer_restore : Text → Text → App p → App p
  offer_restore passphrase bytes a =
      if ltb max_file_bytes (length bytes)
      then set_backup_error (text "Backup file is too large.") a
      else elim (records_from_backup p.crypto p.json passphrase bytes) [
        | err _ ↦ set_backup_error (text "Backup could not be opened. Check the passphrase.") a
        | ok [] ↦ set_backup_error (text "Backup contains no passwords.") a
        | ok (r ∷ records) ↦ offer_records (r ∷ records) a
      ]

  unfoldable pub restore_picked : Text → Picked → App p → App p
  restore_picked passphrase cancelled a = a
  restore_picked passphrase picker_failed a =
      set_backup_error (text "Could not choose a backup file.") a
  restore_picked passphrase unreadable a =
      set_backup_error (text "Could not read the selected backup.") a
  restore_picked passphrase (picked bytes) a = offer_restore passphrase bytes a

  unfoldable pub pick_restore_backup : Text → Picked → App p → App p
  pick_restore_backup passphrase file a =
      if is_empty passphrase
      then set_backup_error (text "Backup passphrase is required.") a
      else restore_picked passphrase file a

  abbrev pub restored_message : ImportSummary → Text
  restored_message s =
      text "Added "
      ++ decimal s.imported
      ++ text ", replaced "
      ++ decimal s.replaced
      ++ text ", skipped "
      ++ decimal s.skipped
      ++ text " from encrypted backup."

  unfoldable pub finish_restore : ImportSummary → App p → App p
  finish_restore summary a = set_backup_success (restored_message summary) (refresh_credentials p a)

  unfoldable pub restore_not_saved : App p → App p
  restore_not_saved = on_screen p λ s. record s {
    backup_restore_count = 0;
    backup_error = text "Backup could not be saved. Try again.";
  }

  -- The callback `on_backup_restore_confirm`, on the records that waited; `none` is a loop of
  -- `unique_record_id` that outran its fuel.
  unfoldable pub restore_records : ImportPolicy → List CredentialRecord → App p → Option (App p)
  restore_records policy records a =
      elim (restore_many p.env a.keystore.records records policy a.at) [
        | none ↦ none
        | some (after, summary, at) ↦
            let ks : Keystore = record a.keystore { records = after } in
            let (done, b) = commit p (snapshot a.keystore) ks (record a { at = at }) in
            some (
              if ltb 0 summary.imported || ltb 0 summary.replaced
              then (if done then finish_restore summary b else restore_not_saved b)
              else finish_restore summary (record a { keystore = ks; at = at }))
      ]

  unfoldable pub on_backup_restore_confirm : ℕ → App p → Option (App p)
  on_backup_restore_confirm policy a = elim a.pending_restore [
    | none ↦ some a
    | some records ↦
        restore_records (policy_from_int policy) records (record a { pending_restore = none })
  ]

  unfoldable pub on_backup_cancel : App p → App p
  on_backup_cancel a = record a { pending_restore = none }
