-- ===== src/App/Vault/Importing.antt =====
-- src/src/import_flow.rs with its callbacks in main.rs: a file that the user picks, and what a
-- confirmation does with its items.
use passport_passwords.Base.{
  ℕ, ◌+◌, ◌-◌, ◌*◌, Text, text, List, [], ◌∷◌, Bool, ◌||◌, Option, none, some, ok, err, ltb, ◌==◌,
  is_empty, length, if◌then◌else◌,
}
use passport_passwords.Base.Trim.{trim}
use passport_passwords.Engine.{
  max_origin_bytes, max_username_bytes, max_label_bytes, max_password_bytes,
}
use passport_passwords.Origin.{parse}
use passport_passwords.Import.{ImportedRecord, Imported, unrecognised_header, parse_export}
use passport_passwords.Import.Header.{
  Source, google, proton, one_password, bitwarden, apple_keychain, lastpass, generic, source_label,
}
use passport_passwords.Keystore.{snapshot, Keystore}
use passport_passwords.Keystore.Bulk.{
  ImportItem, ImportPolicy, skip, replace, keep_both, ImportSummary, import_many,
}
use passport_passwords.App.Vault.{Platform, App, on_screen, refresh_credentials, commit}

abbrev pub max_notes_bytes : ℕ
max_notes_bytes = 2048

-- 4 MiB, for an export and for a backup
abbrev pub max_file_bytes : ℕ
max_file_bytes = 4 * 1024 * 1024

-- What the file picker and the file give: nothing was chosen, the picker failed, the file could
-- not be read, or its bytes.
pub data Picked : Type 0 where
  cancelled picker_failed unreadable : Picked
  picked : Text → Picked

unfoldable pub policy_from_int : ℕ → ImportPolicy
policy_from_int n = if n == 1 then replace else if n == 2 then keep_both else skip

module _ (p : Platform) where
  -- `import_flow::set_error`
  unfoldable pub set_import_error : Text → App p → App p
  set_import_error message = on_screen p λ s. record s { import_error = message }

  abbrev pub exceeds_caps : Text → Text → ImportedRecord → Bool
  exceeds_caps origin username r =
      is_empty username
      || is_empty r.password
      || ltb max_origin_bytes (length origin)
      || ltb max_username_bytes (length username)
      || ltb max_label_bytes (length r.label)
      || ltb max_password_bytes (length r.password)
      || ltb max_notes_bytes (length r.notes)

  -- The closure of `filter_map`: the item, if the row is usable
  unfoldable pub usable_item : ImportedRecord → Option ImportItem
  usable_item r = elim (parse p.url_parse r.origin) [
    | err _ ↦ none
    | ok origin ↦
        let username = trim r.username in
        if exceeds_caps origin username r
        then none
        else some (record {
          origin = origin;
          username = username;
          password = r.password;
          label = r.label;
          notes = r.notes;
        })
  ]

  -- The items, and how many rows were skipped
  unfoldable pub usable_items : List ImportedRecord → List ImportItem × ℕ
  usable_items [] = ([], 0)
  usable_items (r ∷ rs) =
      let (items, skipped) = usable_items rs in
      elim (usable_item r) [ none ↦ (items, skipped + 1) | some item ↦ (item ∷ items, skipped) ]

  abbrev pub shown_source : Source → Text
  shown_source generic = []
  shown_source google = text (source_label google)
  shown_source proton = text (source_label proton)
  shown_source one_password = text (source_label one_password)
  shown_source bitwarden = text (source_label bitwarden)
  shown_source apple_keychain = text (source_label apple_keychain)
  shown_source lastpass = text (source_label lastpass)

  -- The items of a file, put up for confirmation with their number
  unfoldable pub offer_items : Source → ℕ → List ImportItem → App p → App p
  offer_items source count [] a =
      set_import_error (text "No usable passwords found in the selected file.") a
  offer_items source count (item ∷ items) a =
      on_screen p
        (λ s. record s {
          import_source = shown_source source;
          import_count = count;
          import_error = [];
        })
        (record a { pending_import = some (item ∷ items) })

  unfoldable pub offer_import : Imported → App p → App p
  offer_import parsed a =
      let (items, skipped) = usable_items parsed.records in
      offer_items parsed.source (length parsed.records - skipped) items a

  -- `pick_and_parse` of the device
  unfoldable pub pick_and_parse : Picked → App p → App p
  pick_and_parse cancelled a = a
  pick_and_parse picker_failed a = set_import_error (text "File picker failed. Try again.") a
  pick_and_parse unreadable a = set_import_error (text "Could not read the selected file.") a
  pick_and_parse (picked bytes) a =
      if ltb max_file_bytes (length bytes)
      then set_import_error (text "File is too large (4 MB max).") a
      else elim (parse_export p.url_parse bytes) [
        | ok parsed ↦ offer_import parsed a
        | err unrecognised_header ↦
            set_import_error
              (text
                "Header row not recognised. Export from Google, Proton, 1Password, Bitwarden, Apple, or LastPass.")
              a
        | err _ ↦ set_import_error (text "Could not parse the file.") a
      ]

  -- The end of a confirmed import: the list is made again, and the counters are shown.
  unfoldable pub finish_import : ImportSummary → App p → App p
  finish_import summary a =
      on_screen p (λ s. record s { import_summary = summary; import_count = 0 })
        (refresh_credentials p a)

  -- The callback `on_import_confirm`, on the items that waited
  unfoldable pub import_items : ImportPolicy → List ImportItem → App p → App p
  import_items policy items a =
      let (records, summary, at) = import_many p.env a.keystore.records items policy a.at in
      let ks : Keystore = record a.keystore { records = records } in
      let (done, b) = commit p (snapshot a.keystore) ks (record a { at = at }) in
      if ltb 0 summary.imported || ltb 0 summary.replaced
      then (if done
          then finish_import summary b
          else set_import_error (text "Import could not be saved. Try again.") b)
      else finish_import summary (record a { keystore = ks; at = at })

  unfoldable pub on_import_confirm : ℕ → App p → App p
  on_import_confirm policy a = elim a.pending_import [
    | none ↦ a
    | some items ↦ import_items (policy_from_int policy) items (record a { pending_import = none })
  ]

  unfoldable pub on_import_cancel : App p → App p
  on_import_cancel a = record a { pending_import = none }
