-- ===== src/App/Vault/Sync/Events.antt =====
-- All callbacks that reach the keystore, and what holds after any number of them.
use passport_passwords.Base.{
  ℤ, ℕ, Text, List, [], ◌∷◌, Bool, Option, none, some, ◌≡◌, refl, ok, Option-cases, inl, inr,
}
use passport_passwords.Crypto.{IsCrypto}
use passport_passwords.Keystore.Bulk.Ids.{NeverRepeats}
use passport_passwords.Keystore.Sealed.{IsJson}
use passport_passwords.App.Disk.{IsKeystoreStore, load_keystore}
use passport_passwords.App.Vault.{
  Platform, App, refresh_credentials, on_search_changed, on_save_new, on_edit_save, set_archived_to,
  on_delete_forever, on_change_color,
}
use passport_passwords.App.Vault.Importing.{
  Picked, pick_and_parse, on_import_confirm, on_import_cancel,
}
use passport_passwords.App.Vault.Backup.{
  PickedDir, export_encrypted_backup, pick_restore_backup, on_backup_restore_confirm,
  on_backup_cancel,
}
use passport_passwords.App.Vault.Sync.{InSync, refresh-InSync, on_save_new-InSync}
use passport_passwords.App.Vault.Sync.Editing.{
  on_edit_save-InSync, set_archived_to-InSync, on_delete_forever-InSync, on_change_color-InSync,
  on_search_changed-InSync,
}
use passport_passwords.App.Vault.Sync.Bulk.{on_import_confirm-InSync, pick_and_parse-InSync}
use passport_passwords.App.Vault.Sync.Restoring.{
  SyncedOption, export-InSync, pick_restore_backup-InSync, on_backup_restore_confirm-InSync,
}

pub data UiEvent : Type 0 where
  refresh_list import_cancel backup_cancel : UiEvent
  search_changed delete_forever_tap : Text → UiEvent
  -- origin, username, password, label, colour
  save_new : Text → Text → Text → Text → ℤ → UiEvent
  -- uuid, label, colour, username, password
  edit_save : Text → Text → ℤ → Text → Text → UiEvent
  -- `true` to archive, `false` to restore
  archive_tap : Bool → Text → UiEvent
  change_color : Text → ℤ → UiEvent
  import_pick : Picked → UiEvent
  import_confirm backup_confirm : ℕ → UiEvent
  backup_export : Text → PickedDir → Bool → UiEvent
  backup_pick : Text → Picked → UiEvent

module _ (p : Platform) where
  -- `none` is a restore whose loop of UUIDs outran its fuel, as it only does where one comes twice.
  unfoldable pub callback : UiEvent → App p → Option (App p)
  callback refresh_list a = some (refresh_credentials p a)
  callback import_cancel a = some (on_import_cancel p a)
  callback backup_cancel a = some (on_backup_cancel p a)
  callback (search_changed q) a = some (on_search_changed p q a)
  callback (delete_forever_tap uuid) a = some (on_delete_forever p uuid a)
  callback (save_new o u w l c) a = some (on_save_new p o u w l c a)
  callback (edit_save uuid l c u w) a = some (on_edit_save p uuid l c u w a)
  callback (archive_tap to uuid) a = some (set_archived_to p to uuid a)
  callback (change_color uuid c) a = some (on_change_color p uuid c a)
  callback (import_pick f) a = some (pick_and_parse p f a)
  callback (import_confirm policy) a = some (on_import_confirm p policy a)
  callback (backup_confirm policy) a = on_backup_restore_confirm p policy a
  callback (backup_export passphrase dir written) a =
      some (export_encrypted_backup p passphrase dir written a).1
  callback (backup_pick passphrase f) a = some (pick_restore_backup p passphrase f a)

  -- A session of the user
  abbrev pub callbacks : List UiEvent → App p → Option (App p)
  callbacks [] a = some a
  callbacks (e ∷ es) a = elim (callback e a) [ none ↦ none | some b ↦ callbacks es b ]

module _ (p : Platform) (laws : IsCrypto p.crypto) (json : IsJson p.json)
    (store : IsKeystoreStore p.store) (master : Text) (fresh : NeverRepeats p.env) where
  -- The last argument of the lemmas about the callbacks
  abbrev Synced : App p → Type 0
  Synced = InSync p laws json store master

  callback-InSync :
      (e : UiEvent) (a : App p) → Synced a → SyncedOption p laws json store master (callback p e a)
  unfolding callback on_import_cancel on_backup_cancel
  callback-InSync refresh_list a s = refresh-InSync p laws json store master a s
  callback-InSync import_cancel a s = s
  callback-InSync backup_cancel a s = s
  callback-InSync (search_changed q) a s = on_search_changed-InSync p laws json store master q a s
  callback-InSync (delete_forever_tap uuid) a s =
      on_delete_forever-InSync p laws json store master uuid a s
  callback-InSync (save_new o u w l c) a s =
      on_save_new-InSync p laws json store master o u w l c a s
  callback-InSync (edit_save uuid l c u w) a s =
      on_edit_save-InSync p laws json store master uuid l c u w a s
  callback-InSync (archive_tap to uuid) a s =
      set_archived_to-InSync p laws json store master to uuid a s
  callback-InSync (change_color uuid c) a s =
      on_change_color-InSync p laws json store master uuid c a s
  callback-InSync (import_pick f) a s = pick_and_parse-InSync p laws json store master f a s
  callback-InSync (import_confirm policy) a s =
      on_import_confirm-InSync p laws json store master policy a s
  callback-InSync (backup_confirm policy) a s =
      on_backup_restore_confirm-InSync p laws json store master fresh policy a s
  callback-InSync (backup_export passphrase dir written) a s =
      export-InSync p laws json store master passphrase dir written a s
  callback-InSync (backup_pick passphrase f) a s =
      pick_restore_backup-InSync p laws json store master passphrase f a s

  -- By the laws of the crates of cryptography, when JSON reads back what it wrote, when no UUID is
  -- drawn twice, and with a disk whose failed writes change nothing: where the disk holds the
  -- keystore that is in memory, so that loading it with the master secret would give exactly that
  -- keystore, any number of callbacks of the user interface come to an end, and the disk holds the
  -- keystore in memory again, whichever of their writes fail.
  pub callbacks-InSync :
      (es : List UiEvent) (a : App p)
      → load_keystore p.crypto p.json p.store a.disk master ≡ ok a.keystore
      → (b : App p) × (callbacks p es a ≡ some b)
        × (load_keystore p.crypto p.json p.store b.disk master ≡ ok b.keystore)
  callbacks-InSync [] a s = (a, refl, s)
  callbacks-InSync (e ∷ es) a s = elim (Option-cases (callback p e a)) [
    | inl f ↦ absurd (rw f at (callback-InSync e a s))
    | inr (c, f) ↦
        let t : Synced c = rw f at (callback-InSync e a s) in
        let (b, ends, synced) = callbacks-InSync es c t in (b, rw (f, callbacks) ends, synced)
  ]
