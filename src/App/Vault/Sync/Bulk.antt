-- ===== src/App/Vault/Sync/Bulk.antt =====
-- The callbacks of imports keep the keystore in memory and on the disk the same.
use passport_passwords.Base.{
  ℕ, Text, text, List, [], ◌∷◌, ◌||◌, none, ◌≡◌, refl, sym, ap, ◌∙◌, ok, Result-cases, Option-cases,
  Bool-cases, inl, inr, arith, ltb, length,
}
use passport_passwords.Crypto.{IsCrypto}
use passport_passwords.Record.{CredentialRecord}
use passport_passwords.Import.{
  Imported, empty_file, not_utf8, unrecognised_header, no_rows, parse_export,
}
use passport_passwords.Import.Header.{Source}
use passport_passwords.Keystore.{Keystore, snapshot}
use passport_passwords.Keystore.Bulk.{ImportItem, ImportPolicy, ImportSummary, import_many}
use passport_passwords.Keystore.Bulk.Unchanged.{import_many-unchanged}
use passport_passwords.Keystore.Sealed.{IsJson}
use passport_passwords.App.Disk.{IsKeystoreStore}
use passport_passwords.App.Vault.{Platform, App, refresh_credentials, commit}
use passport_passwords.App.Vault.Importing.{
  Picked, cancelled, picker_failed, unreadable, picked, max_file_bytes, policy_from_int,
  set_import_error, usable_items, offer_items, offer_import, pick_and_parse, finish_import,
  import_items, on_import_confirm,
}
use passport_passwords.App.Vault.Sync.{InSync, same_sync, refresh-InSync, commit-InSync}

module _ (p : Platform) (laws : IsCrypto p.crypto) (json : IsJson p.json)
    (store : IsKeystoreStore p.store) (master : Text) where
  -- `InSync` of this section.
  abbrev pub Synced : App p → Type 0
  Synced = InSync p laws json store master

  finish_import-InSync : (t : ImportSummary) (a : App p) → Synced a → Synced (finish_import p t a)
  unfolding finish_import
  finish_import-InSync t a s =
      same_sync p laws json store master (finish_import p t a) (refresh_credentials p a)
        (ground arith) (refresh-InSync p laws json store master a s)

  set_import_error-InSync : (m : Text) (a : App p) → Synced a → Synced (set_import_error p m a)
  unfolding set_import_error
  set_import_error-InSync m a s =
      same_sync p laws json store master (set_import_error p m a) a (ground arith) s

  import_items-InSync :
      (policy : ImportPolicy) (items : List ImportItem) (a : App p)
      → Synced a
      → Synced (import_items p policy items a)
  unfolding import_items
  import_items-InSync policy items a s =
      let (records, t, at) = import_many p.env a.keystore.records items policy a.at in
      let ks : Keystore = record a.keystore { records = records } in
      let b : App p = record a { at = at } in
      let (done, c) = commit p (snapshot a.keystore) ks b in
      let kept = commit-InSync p laws json store master ks b refl s in
      elim (Bool-cases (ltb 0 t.imported || ltb 0 t.replaced)) [
        | inl changed ↦ rw changed (elim (Bool-cases done) [
          | inl d ↦ rw d (finish_import-InSync t c kept)
          | inr d ↦
              rw d (set_import_error-InSync (text "Import could not be saved. Try again.") c kept)
        ])
        | inr none_changed ↦
            let same : records ≡ a.keystore.records =
              import_many-unchanged p.env a.keystore.records items policy a.at (ground arith)
                (ground arith) in
            rw none_changed (
              finish_import-InSync t (record a { keystore = ks; at = at })
                (s
                  ∙ ap (λ (rs : List CredentialRecord). ok (record a.keystore { records = rs }))
                      (sym same)))
      ]

  pub on_import_confirm-InSync :
      (policy : ℕ) (a : App p) → Synced a → Synced (on_import_confirm p policy a)
  unfolding on_import_confirm
  on_import_confirm-InSync policy a s = elim (Option-cases a.pending_import) [
    | inl e ↦ rw (e, on_import_confirm) s
    | inr (items, e) ↦
        rw (e, on_import_confirm)
          (import_items-InSync (policy_from_int policy) items (record a { pending_import = none })
            s)
  ]

  offer_items-InSync :
      (source : Source) (n : ℕ) (items : List ImportItem) (a : App p)
      → Synced a
      → Synced (offer_items p source n items a)
  unfolding offer_items
  offer_items-InSync source n [] a s = set_import_error-InSync _ a s
  offer_items-InSync source n (item ∷ items) a s =
      same_sync p laws json store master (offer_items p source n (item ∷ items) a) a (ground arith)
        s

  offer_import-InSync : (i : Imported) (a : App p) → Synced a → Synced (offer_import p i a)
  unfolding offer_import
  offer_import-InSync i a s = offer_items-InSync i.source _ (usable_items p i.records).0 a s

  pub pick_and_parse-InSync : (f : Picked) (a : App p) → Synced a → Synced (pick_and_parse p f a)
  unfolding pick_and_parse
  pick_and_parse-InSync cancelled a s = s
  pick_and_parse-InSync picker_failed a s = set_import_error-InSync _ a s
  pick_and_parse-InSync unreadable a s = set_import_error-InSync _ a s
  pick_and_parse-InSync (picked bytes) a s = elim (Bool-cases (ltb max_file_bytes (length bytes))) [
    | inl large ↦ rw large (set_import_error-InSync _ a s)
    | inr small ↦ elim (Result-cases (parse_export p.url_parse bytes)) [
      | inr (i, e) ↦ rw (small, e) (offer_import-InSync i a s)
      | inl (empty_file, e) ↦ rw (small, e) (set_import_error-InSync _ a s)
      | inl (not_utf8, e) ↦ rw (small, e) (set_import_error-InSync _ a s)
      | inl (unrecognised_header, e) ↦ rw (small, e) (set_import_error-InSync _ a s)
      | inl (no_rows, e) ↦ rw (small, e) (set_import_error-InSync _ a s)
    ]
  ]
