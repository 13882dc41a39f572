-- ===== src/App/Vault.antt =====
-- src/src/main.rs: the callbacks of the user interface that work on the keystore.
pub mod Importing
pub mod Backup
pub mod Sync
pub mod Capped
pub mod Saved
use passport_passwords.Base.{
  ℤ, ℕ, ◌+◌, Text, text, List, [], ◌∷◌, ◌++◌, Bool, true, false, Option, none, some, Result, ok,
  err, is_empty, map, if◌then◌else◌,
}
use passport_passwords.Crypto.{Crypto}
use passport_passwords.Record
use passport_passwords.Record.{CredentialRecord, Ambient}
use passport_passwords.Origin.{UrlParser, parse}
use passport_passwords.Keystore.{
  Keystore, KeystoreError, snapshot, restore_snapshot, add, get, edit, set_archived, set_color,
  delete_forever, live_count, archived_count, next_automatic_color,
}
use passport_passwords.Keystore.Sealed.{Json}
use passport_passwords.Keystore.Bulk.{ImportItem, ImportSummary}
use passport_passwords.App.Approver.{Navigation, backward}
use passport_passwords.App.Rows.{StoredCredential, Display, rows_of}
use passport_passwords.App.Fields.{
  FieldError, validate_new_fields, validate_edit_fields, origin_message,
}
use passport_passwords.App.Disk.{KeystoreStore, persist_keystore}

-- What the application is built on.
pub record Platform : Type 1 where
  pub crypto : Crypto
  pub json : Json
  pub env : Ambient
  pub url_parse : UrlParser
  pub store : KeystoreStore
  pub display : Display
  pub parse_uuid : Text → Option ℕ

-- What the callbacks set in the window, while it is there. A count is an `i32` there, and stays
-- far below 2^31.
pub record Screen : Type 0 where
  pub alive : Bool
  pub archive_mode : Bool
  pub credentials : List StoredCredential
  pub live : ℕ
  pub archived : ℕ
  pub next_default_color : ℤ
  pub editing_error_field : Text
  pub editing_error : Text
  pub turns : List Navigation
  pub import_source : Text
  pub import_error : Text
  pub import_count : ℕ
  pub import_summary : ImportSummary
  pub backup_error : Text
  pub backup_success : Text
  pub backup_restore_count : ℕ

-- The keystore with the disk under it, the places on the tapes, the window, the search (in lower
-- case) and what waits for a confirmation.
pub record App (p : Platform) : Type 0 where
  pub keystore : Keystore
  pub disk : p.store.Disk
  pub rng : ℕ
  pub at : ℕ
  pub screen : Screen
  pub search : Text
  pub pending_import : Option (List ImportItem)
  pub pending_restore : Option (List CredentialRecord)

module _ (p : Platform) where
  -- `if let Some(ui) = weak.upgrade() { .. }`
  abbrev pub on_screen : (Screen → Screen) → App p → App p
  on_screen f a = if a.screen.alive then record a { screen = f a.screen } else a

  -- `AppState::refresh_credentials`, with one reading of the clock
  unfoldable pub refresh_credentials : App p → App p
  refresh_credentials a =
      on_screen
        (λ s. record s {
          credentials = rows_of p.display a.keystore s.archive_mode a.search (p.env.now_secs a.at);
          live = live_count a.keystore;
          archived = archived_count a.keystore;
          next_default_color = next_automatic_color a.keystore.records;
        })
        a

  -- `AppState::set_search` and the refresh behind it
  unfoldable pub on_search_changed : Text → App p → App p
  on_search_changed q a = refresh_credentials (record a { search = p.display.to_lowercase q })

  unfoldable pub set_editing_error : Text → Text → App p → App p
  set_editing_error field message =
      on_screen λ s. record s { editing_error_field = field; editing_error = message }

  -- A saved form: the list is made again, the error is cleared, and the page turned back.
  unfoldable pub finish_editing : App p → App p
  finish_editing a =
      on_screen
        (λ s. record s {
          editing_error_field = [];
          editing_error = [];
          turns = s.turns ++ backward ∷ [];
        })
        (refresh_credentials a)

  -- `persist_keystore`, and `restore_snapshot` where it fails; whether it did not.
  unfoldable pub commit : List CredentialRecord → Keystore → App p → Bool × App p
  commit before ks a =
      let (done, disk, rng) = persist_keystore p.crypto p.json p.store ks a.disk a.rng in
      (
        done,
        record a {
          keystore = if done then ks else restore_snapshot ks before;
          disk = disk;
          rng = rng;
        },
      )

  -- The callback `on_save_new`, behind the tests of its fields
  unfoldable pub save_canonical : Text → Text → Text → Text → ℤ → App p → App p
  save_canonical canonical username password label color a =
      let made = Record.new p.env a.at canonical username password in
      let rec = record made { label = label; color = color } in
      let (done, b) =
        commit (snapshot a.keystore) (add a.keystore rec) (record a { at = a.at + 1 }) in
      if done
      then finish_editing b
      else set_editing_error (text "form") (text "Could not save password. Try again.") b

  unfoldable pub on_save_new : Text → Text → Text → Text → ℤ → App p → App p
  on_save_new origin username password label color a =
      elim (validate_new_fields p.url_parse origin username password label) [
        | err e ↦ set_editing_error e.field e.message a
        | ok _ ↦ elim (parse p.url_parse origin) [
          | err e ↦ set_editing_error (text "website") (origin_message e) a
          | ok canonical ↦ save_canonical canonical username password label color a
        ]
      ]

  -- The password that an edit without one keeps
  abbrev pub kept_password : Keystore → ℕ → Text
  kept_password ks id = elim (get ks id) [ none ↦ [] | some r ↦ r.password ]

  -- The callback `on_edit_save`, behind the tests of its fields
  unfoldable pub save_edit : ℕ → Text → ℤ → Text → Text → App p → App p
  save_edit id label color username password a =
      let new_password = if is_empty password then kept_password a.keystore id else password in
      let (result, ks) = edit a.keystore id label color username new_password in
      elim result [
        | err _ ↦ a
        | ok _ ↦
            let (done, b) = commit (snapshot a.keystore) ks a in
            if done
            then finish_editing b
            else set_editing_error (text "form") (text "Could not save changes. Try again.") b
      ]

  unfoldable pub on_edit_save : Text → Text → ℤ → Text → Text → App p → App p
  on_edit_save uuid label color username password a = elim (p.parse_uuid uuid) [
    | none ↦ a
    | some id ↦ elim (validate_edit_fields label username password) [
      | err e ↦ set_editing_error e.field e.message a
      | ok _ ↦ save_edit id label color username password a
    ]
  ]

  -- A change of the keystore, persisted and shown; one that cannot be persisted is taken back.
  unfoldable pub commit_shown : Keystore → App p → App p
  commit_shown ks a =
      let (done, b) = commit (snapshot a.keystore) ks a in if done then refresh_credentials b else b

  -- The callbacks `on_archive` and `on_restore`: a missing record is no error.
  unfoldable pub set_archived_to : Bool → Text → App p → App p
  set_archived_to archived uuid a = elim (p.parse_uuid uuid) [
    | none ↦ a
    | some id ↦ commit_shown (set_archived a.keystore id archived).1 a
  ]

  abbrev pub on_archive : Text → App p → App p
  on_archive = set_archived_to true

  abbrev pub on_restore : Text → App p → App p
  on_restore = set_archived_to false

  unfoldable pub on_delete_forever : Text → App p → App p
  on_delete_forever uuid a = elim (p.parse_uuid uuid) [
    | none ↦ a
    | some id ↦
        let (result, ks) = delete_forever a.keystore id in
        elim result [ err _ ↦ a | ok _ ↦ commit_shown ks a ]
  ]

  unfoldable pub on_change_color : Text → ℤ → App p → App p
  on_change_color uuid color a = elim (p.parse_uuid uuid) [
    | none ↦ a
    | some id ↦
        let (result, ks) = set_color a.keystore id color in
        elim result [ err _ ↦ a | ok _ ↦ commit_shown ks a ]
  ]

  unfoldable pub on_reveal_password : Text → App p → Text
  on_reveal_password uuid a = elim (p.parse_uuid uuid) [
    | none ↦ []
    | some id ↦ kept_password a.keystore id
  ]
