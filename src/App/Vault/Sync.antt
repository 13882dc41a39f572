-- ===== src/App/Vault/Sync.antt =====
-- The keystore in memory is the keystore on the disk, after every callback.
pub mod Editing
pub mod Bulk
pub mod Restoring
pub mod Events
use passport_passwords.Base.{
  ℤ, ℕ, Text, text, List, Bool, true, false, Option, none, some, ◌≡◌, refl, sym, ◌∙◌, ap, Result,
  ok, err, Result-cases, Option-cases, Bool-cases, inl, inr, arith, find, ◌+◌, if◌then◌else◌,
}
use passport_passwords.Crypto.{Crypto, IsCrypto}
use passport_passwords.Record
use passport_passwords.Record.{CredentialRecord}
use passport_passwords.Origin.{parse}
use passport_passwords.Keystore.{
  Keystore, derive_key, snapshot, restore_snapshot, add, edit, set_archived, set_color,
  delete_forever, modify, has_id,
}
use passport_passwords.Keystore.Sealed.{IsJson}
use passport_passwords.App.Fields.{origin_message, validate_new_fields, validate_edit_fields}
use passport_passwords.App.Disk.{IsKeystoreStore, load_keystore, persist_keystore}
use passport_passwords.App.Disk.Atomic.{load_keystore-key, load-persist, persist-failed}
use passport_passwords.App.Vault.{
  Platform, Screen, App, on_screen, refresh_credentials, on_search_changed, set_editing_error,
  finish_editing, commit, save_canonical, on_save_new, save_edit, on_edit_save, commit_shown,
  set_archived_to, on_delete_forever, on_change_color,
}

module _ (p : Platform) (laws : IsCrypto p.crypto) (json : IsJson p.json)
    (store : IsKeystoreStore p.store) (master : Text) where
  -- What is on the disk loads to the keystore in memory.
  abbrev pub InSync : App p → Type 0
  InSync a = load_keystore p.crypto p.json p.store a.disk master ≡ ok a.keystore

  -- Two states of the application with the same keystore and disk.
  pub record SameVault (a b : App p) : Type 0 where
    pub keystore : a.keystore ≡ b.keystore
    pub disk : a.disk ≡ b.disk

  on_screen-Same : (f : Screen → Screen) (a : App p) → SameVault (on_screen p f a) a
  on_screen-Same f a = ground arith

  pub same_sync : (a b : App p) → SameVault a b → InSync b → InSync a
  same_sync a b h s = rw (h.keystore, h.disk) s

  load-stored :
      (d e : p.store.Disk)
      → p.store.stored e ≡ p.store.stored d
      → load_keystore p.crypto p.json p.store e master
        ≡ load_keystore p.crypto p.json p.store d master
  unfolding load_keystore
  load-stored d e h = rw (h, load_keystore)

  -- A change that is persisted or taken back keeps memory and disk the same.
  pub persist-InSync :
      (before ks : Keystore) (d : p.store.Disk) (rng : ℕ)
      → ks.key ≡ before.key
      → load_keystore p.crypto p.json p.store d master ≡ ok before
      → let (done, e, rng') = persist_keystore p.crypto p.json p.store ks d rng in
        load_keystore p.crypto p.json p.store e master
        ≡ ok (if done then ks else restore_snapshot ks (snapshot before))
  persist-InSync before ks d rng key s =
      let (done, e, rng') = persist_keystore p.crypto p.json p.store ks d rng in
      let from = load_keystore-key p.crypto laws p.json json p.store store d master s in
      elim (Bool-cases done) [
        | inl h ↦ rw h (
            load-persist p.crypto laws p.json json p.store store master ks d rng {e = e}
              {rng' = rng'} (key ∙ from) (ap (λ (b : Bool). (b, e, rng')) h))
        | inr h ↦
            let kept =
              persist-failed p.crypto laws p.json json p.store store ks d rng {e = e} {rng' = rng'}
                (ap (λ (b : Bool). (b, e, rng')) h) in
            rw h (
              load-stored d e kept
              ∙ s
              ∙ ap (λ (k : Text). ok (record { records = before.records; key = k })) (sym key))
      ]

  pub commit-InSync :
      (ks : Keystore) (a : App p)
      → ks.key ≡ a.keystore.key
      → InSync a
      → InSync (commit p (snapshot a.keystore) ks a).1
  unfolding commit
  commit-InSync ks a key s = persist-InSync a.keystore ks a.disk a.rng key s

  pub on_screen-InSync : (f : Screen → Screen) (a : App p) → InSync a → InSync (on_screen p f a)
  on_screen-InSync f a s = same_sync (on_screen p f a) a (on_screen-Same f a) s

  pub refresh-InSync : (a : App p) → InSync a → InSync (refresh_credentials p a)
  unfolding refresh_credentials
  refresh-InSync a s = same_sync (refresh_credentials p a) a (ground arith) s

  pub set_editing_error-InSync :
      (field message : Text) (a : App p) → InSync a → InSync (set_editing_error p field message a)
  unfolding set_editing_error
  set_editing_error-InSync field message a s =
      same_sync (set_editing_error p field message a) a (ground arith) s

  pub finish_editing-InSync : (a : App p) → InSync a → InSync (finish_editing p a)
  unfolding finish_editing
  finish_editing-InSync a s =
      same_sync (finish_editing p a) (refresh_credentials p a) (ground arith) (refresh-InSync a s)

  save_canonical-InSync :
      (o u w l : Text) (color : ℤ) (a : App p)
      → InSync a
      → InSync (save_canonical p o u w l color a)
  unfolding save_canonical add
  save_canonical-InSync o u w l color a s =
      let made = Record.new p.env a.at o u w in
      let ks = add a.keystore (record made { label = l; color = color }) in
      let start : App p = record a { at = a.at + 1 } in
      let (done, b) = commit p (snapshot a.keystore) ks start in
      let kept = commit-InSync ks start refl s in
      elim (Bool-cases done) [
        | inl e ↦ rw e (finish_editing-InSync b kept)
        | inr e ↦ rw e (
            set_editing_error-InSync (text "form") (text "Could not save password. Try again.") b
              kept)
      ]

  pub on_save_new-InSync :
      (o u w l : Text) (color : ℤ) (a : App p) → InSync a → InSync (on_save_new p o u w l color a)
  unfolding on_save_new
  on_save_new-InSync o u w l color a s =
      elim (Result-cases (validate_new_fields p.url_parse o u w l)) [
        | inl (f, e) ↦ rw (e, on_save_new) (set_editing_error-InSync f.field f.message a s)
        | inr (_, e) ↦ elim (Result-cases (parse p.url_parse o)) [
          | inl (f, g) ↦
              rw (e, g, on_save_new)
                (set_editing_error-InSync (text "website") (origin_message f) a s)
          | inr (c, g) ↦ rw (e, g, on_save_new) (save_canonical-InSync c u w l color a s)
        ]
      ]

  -- A change of a record leaves the key alone.
  pub modify-key :
      (ks : Keystore) (id : ℕ) (f : CredentialRecord → CredentialRecord)
      → (modify ks id f).1.key ≡ ks.key
  unfolding modify
  modify-key ks id f = elim (Option-cases (find (has_id id) ks.records)) [
    | inl e ↦ rw (e, modify)
    | inr (r, e) ↦ rw (e, modify)
  ]

  pub commit_shown-InSync :
      (ks : Keystore) (a : App p)
      → ks.key ≡ a.keystore.key
      → InSync a
      → InSync (commit_shown p ks a)
  unfolding commit_shown
  commit_shown-InSync ks a key s =
      let (done, b) = commit p (snapshot a.keystore) ks a in
      let kept = commit-InSync ks a key s in
      elim (Bool-cases done) [ inl e ↦ rw e (refresh-InSync b kept) | inr e ↦ rw e kept ]
