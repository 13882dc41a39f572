-- ===== src/App/Vault/Capped.antt =====
-- The sizes of what an import may put into the keystore.
use passport_passwords.Base.{
  ℕ, ◌+◌, ◌<◌, ◌≤◌, Text, List, [], ◌∷◌, false, Option, none, some, ◌≡◌, ◌⊎◌, inl, inr, refl,
  Result-cases, Option-cases, Bool-cases, arith, is_empty, ltb, length,
}
use passport_passwords.Base.Trim.{trim}
use passport_passwords.Engine.{
  max_origin_bytes, max_username_bytes, max_label_bytes, max_password_bytes,
}
use passport_passwords.Origin.{parse}
use passport_passwords.Import.{
  ImportedRecord, Imported, empty_file, not_utf8, unrecognised_header, no_rows, parse_export,
}
use passport_passwords.Import.Header.{Source}
use passport_passwords.Keystore.Bulk.{ImportItem}
use passport_passwords.App.Vault.{Platform, App}
use passport_passwords.App.Vault.Importing.{
  max_notes_bytes, exceeds_caps, usable_item, usable_items, offer_items, offer_import,
  set_import_error, Picked, cancelled, picker_failed, unreadable, picked, max_file_bytes,
  pick_and_parse,
}

abbrev pub All {ℓ κ} : {A : Type ℓ} → (A → Type κ) → List A → Type κ
All P [] = Unit
All P (x ∷ xs) = P x × All P xs

-- An item of an import within the caps.
pub record ItemIsCapped (i : ImportItem) : Type 0 where
  pub origin_cap : length i.origin ≤ max_origin_bytes
  pub username_cap : length i.username ≤ max_username_bytes
  pub password_cap : length i.password ≤ max_password_bytes
  pub label_cap : length i.label ≤ max_label_bytes
  pub notes_cap : length i.notes ≤ max_notes_bytes
  pub username_given : is_empty i.username ≡ false
  pub password_given : is_empty i.password ≡ false

module _ (p : Platform) where
  within_caps :
      (origin username : Text) (r : ImportedRecord)
      → exceeds_caps p origin username r ≡ false
      → ItemIsCapped (record {
        origin = origin;
        username = username;
        password = r.password;
        label = r.label;
        notes = r.notes;
      })
  within_caps origin username r h = record {
    origin_cap = ground arith;
    username_cap = ground arith;
    password_cap = ground arith;
    label_cap = ground arith;
    notes_cap = ground arith;
    username_given = ground arith;
    password_given = ground arith;
  }

  -- What the row's item is, if it has one
  abbrev ItemOf : Option ImportItem → Type 0
  ItemOf none = Unit
  ItemOf (some i) = ItemIsCapped i

  usable_item-ItemOf : (r : ImportedRecord) → ItemOf (usable_item p r)
  unfolding usable_item
  usable_item-ItemOf r = elim (Result-cases (parse p.url_parse r.origin)) [
    | inl (f, e) ↦ rw (e, usable_item) tt
    | inr (o, e) ↦ elim (Bool-cases (exceeds_caps p o (trim r.username) r)) [
      | inl x ↦ rw (e, x, usable_item) tt
      | inr x ↦ rw (e, x, usable_item) (within_caps o (trim r.username) r x)
    ]
  ]

  usable_items_lem :
      (rs : List ImportedRecord)
      → let (items, skipped) = usable_items p rs in
        All ItemIsCapped items × (length items + skipped ≡ length rs)
  unfolding usable_items
  usable_items_lem [] = (tt, omega arith)
  usable_items_lem (r ∷ rs) =
      let (all, whole) = usable_items_lem rs in
      let one = usable_item-ItemOf r in
      elim (Option-cases (usable_item p r)) [
        | inl e ↦ rw (e, usable_items) (all, omega (arith, whole))
        | inr (i, e) ↦ rw (e, usable_items) ((rw e at one, all), omega (arith, whole))
      ]

  -- Nothing new waits for confirmation, or capped items do, and the window shows how many.
  abbrev pub Offered : App p → App p → Type 0
  Offered a b =
      (b.pending_import ≡ a.pending_import)
      ⊎ ((items : List ImportItem) × (b.pending_import ≡ some items)
          × All ItemIsCapped items
          × (0 < length items)
          × ((a.screen.alive ≡ false) ⊎ (b.screen.import_count ≡ length items)))

  set_import_error-Offered : (m : Text) (a : App p) → Offered a (set_import_error p m a)
  unfolding set_import_error
  set_import_error-Offered m a = inl (ground arith)

  offer_items-Offered :
      (source : Source) (n : ℕ) (items : List ImportItem) (a : App p)
      → All ItemIsCapped items
      → n ≡ length items
      → Offered a (offer_items p source n items a)
  unfolding offer_items
  offer_items-Offered source n [] a all h = set_import_error-Offered _ a
  offer_items-Offered source n (item ∷ items) a all h = elim (Bool-cases a.screen.alive) [
    | inl e ↦ inr (item ∷ items, ground arith, all, omega arith, inr (ground arith))
    | inr e ↦ inr (item ∷ items, ground arith, all, omega arith, inl e)
  ]

  offer_import-Offered : (i : Imported) (a : App p) → Offered a (offer_import p i a)
  unfolding offer_import
  offer_import-Offered i a =
      let (all, whole) = usable_items_lem i.records in
      offer_items-Offered i.source _ (usable_items p i.records).0 a all (omega (arith, whole))

  -- What the user picks for an import either puts nothing new up for confirmation, or items, at
  -- least one, that all keep the caps on their sizes and have a user name and a password. The
  -- window, while it is there, then shows how many they are.
  pub pick_and_parse-Offered : (f : Picked) (a : App p) → Offered a (pick_and_parse p f a)
  unfolding pick_and_parse
  pick_and_parse-Offered cancelled a = inl refl
  pick_and_parse-Offered picker_failed a = set_import_error-Offered _ a
  pick_and_parse-Offered unreadable a = set_import_error-Offered _ a
  pick_and_parse-Offered (picked bytes) a = elim (Bool-cases (ltb max_file_bytes (length bytes))) [
    | inl large ↦ rw large (set_import_error-Offered _ a)
    | inr small ↦ elim (Result-cases (parse_export p.url_parse bytes)) [
      | inr (i, e) ↦ rw (small, e) (offer_import-Offered i a)
      | inl (empty_file, e) ↦ rw (small, e) (set_import_error-Offered _ a)
      | inl (not_utf8, e) ↦ rw (small, e) (set_import_error-Offered _ a)
      | inl (unrecognised_header, e) ↦ rw (small, e) (set_import_error-Offered _ a)
      | inl (no_rows, e) ↦ rw (small, e) (set_import_error-Offered _ a)
    ]
  ]
