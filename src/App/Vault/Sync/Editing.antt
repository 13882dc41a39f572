-- ===== src/App/Vault/Sync/Editing.antt =====
-- The callbacks that change one record keep the keystore in memory and on the disk the same.
use passport_passwords.Base.{
  ℤ, ℕ, Text, text, Bool, ◌≡◌, Result-cases, Option-cases, Bool-cases, inl, inr, arith, is_empty,
  find, if◌then◌else◌,
}
use passport_passwords.Crypto.{IsCrypto}
use passport_passwords.Keystore.{
  Keystore, snapshot, edit, set_archived, set_color, delete_forever, has_id,
}
use passport_passwords.Keystore.Sealed.{IsJson}
use passport_passwords.App.Fields.{validate_edit_fields}
use passport_passwords.App.Disk.{IsKeystoreStore}
use passport_passwords.App.Vault.{
  Platform, App, on_search_changed, commit, save_edit, on_edit_save, set_archived_to,
  on_delete_forever, on_change_color, kept_password,
}
use passport_passwords.App.Vault.Sync.{
  InSync, refresh-InSync, set_editing_error-InSync, finish_editing-InSync, commit-InSync,
  modify-key, commit_shown-InSync,
}

module _ (p : Platform) (laws : IsCrypto p.crypto) (json : IsJson p.json)
    (store : IsKeystoreStore p.store) (master : Text) where
  -- `InSync` of this section.
  abbrev Synced : App p → Type 0
  Synced = InSync p laws json store master

  edit-key :
      (ks : Keystore) (id : ℕ) (l : Text) (color : ℤ) (u w : Text)
      → (edit ks id l color u w).1.key ≡ ks.key
  unfolding edit
  edit-key ks id l color u w = modify-key p laws json store master ks id _

  delete_forever-key : (ks : Keystore) (id : ℕ) → (delete_forever ks id).1.key ≡ ks.key
  unfolding delete_forever
  delete_forever-key ks id = elim (Option-cases (find (has_id id) ks.records)) [
    | inl e ↦ rw (e, delete_forever)
    | inr (r, e) ↦ ground arith
  ]

  save_edit-InSync :
      (id : ℕ) (l : Text) (color : ℤ) (u w : Text) (a : App p)
      → Synced a
      → Synced (save_edit p id l color u w a)
  unfolding save_edit
  save_edit-InSync id l color u w a s =
      let new = if is_empty w then kept_password p a.keystore id else w in
      let (result, ks) = edit a.keystore id l color u new in
      let (done, b) = commit p (snapshot a.keystore) ks a in
      let kept =
        commit-InSync p laws json store master ks a (edit-key a.keystore id l color u new) s in
      elim (Result-cases result) [
        | inl (f, e) ↦ rw (e, save_edit) s
        | inr (_, e) ↦ elim (Bool-cases done) [
          | inl d ↦ rw (e, d, save_edit) (finish_editing-InSync p laws json store master b kept)
          | inr d ↦
              rw (e, d, save_edit)
                (set_editing_error-InSync p laws json store master (text "form")
                  (text "Could not save changes. Try again.") b kept)
        ]
      ]

  pub on_edit_save-InSync :
      (uuid l : Text) (color : ℤ) (u w : Text) (a : App p)
      → Synced a
      → Synced (on_edit_save p uuid l color u w a)
  unfolding on_edit_save
  on_edit_save-InSync uuid l color u w a s = elim (Option-cases (p.parse_uuid uuid)) [
    | inl e ↦ rw (e, on_edit_save) s
    | inr (id, e) ↦ elim (Result-cases (validate_edit_fields l u w)) [
      | inl (f, g) ↦
          rw (e, g, on_edit_save)
            (set_editing_error-InSync p laws json store master f.field f.message a s)
      | inr (_, g) ↦ rw (e, g, on_edit_save) (save_edit-InSync id l color u w a s)
    ]
  ]

  pub set_archived_to-InSync :
      (to : Bool) (uuid : Text) (a : App p) → Synced a → Synced (set_archived_to p to uuid a)
  unfolding set_archived_to set_archived
  set_archived_to-InSync to uuid a s = elim (Option-cases (p.parse_uuid uuid)) [
    | inl e ↦ rw (e, set_archived_to) s
    | inr (id, e) ↦
        rw (e, set_archived_to)
          (commit_shown-InSync p laws json store master (set_archived a.keystore id to).1 a
            (modify-key p laws json store master a.keystore id _) s)
  ]

  pub on_delete_forever-InSync :
      (uuid : Text) (a : App p) → Synced a → Synced (on_delete_forever p uuid a)
  unfolding on_delete_forever
  on_delete_forever-InSync uuid a s = elim (Option-cases (p.parse_uuid uuid)) [
    | inl e ↦ rw (e, on_delete_forever) s
    | inr (id, e) ↦
        let (result, ks) = delete_forever a.keystore id in
        elim (Result-cases result) [
          | inl (f, g) ↦ rw (e, g, on_delete_forever) s
          | inr (_, g) ↦
              rw (e, g, on_delete_forever)
                (commit_shown-InSync p laws json store master ks a
                  (delete_forever-key a.keystore id) s)
        ]
  ]

  pub on_change_color-InSync :
      (uuid : Text) (color : ℤ) (a : App p) → Synced a → Synced (on_change_color p uuid color a)
  unfolding on_change_color set_color
  on_change_color-InSync uuid color a s = elim (Option-cases (p.parse_uuid uuid)) [
    | inl e ↦ rw (e, on_change_color) s
    | inr (id, e) ↦
        let (result, ks) = set_color a.keystore id color in
        elim (Result-cases result) [
          | inl (f, g) ↦ rw (e, g, on_change_color) s
          | inr (_, g) ↦
              rw (e, g, on_change_color)
                (commit_shown-InSync p laws json store master ks a
                  (modify-key p laws json store master a.keystore id _) s)
        ]
  ]

  pub on_search_changed-InSync :
      (q : Text) (a : App p) → Synced a → Synced (on_search_changed p q a)
  unfolding on_search_changed
  on_search_changed-InSync q a s =
      refresh-InSync p laws json store master (record a { search = p.display.to_lowercase q }) s
