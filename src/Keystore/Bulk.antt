-- ===== src/Keystore/Bulk.antt =====
-- `restore_many` and `import_many` of logic/vaults-bridge-keystore/src/lib.rs.
pub mod Ids
pub mod Counted
pub mod Ended
pub mod Restored
pub mod Imported
pub mod Unchanged
use passport_passwords.Base.{
  ℕ, zero, suc, ◌+◌, Text, text, List, [], ◌∷◌, ◌++◌, false, not, Option, none, some, if◌then◌else◌,
  is_empty, length, update_first, any,
}
use passport_passwords.Record
use passport_passwords.Record.{CredentialRecord, Ambient}
use passport_passwords.Keystore.{has_login, id_taken, next_automatic_color}

pub record ImportItem : Type 0 where
  pub origin : Text
  pub username : Text
  pub password : Text
  pub label : Text
  pub notes : Text

pub data ImportPolicy : Type 0 where
  skip replace keep_both : ImportPolicy

pub record ImportSummary : Type 0 where
  pub imported : ℕ
  pub skipped : ℕ
  pub replaced : ℕ

abbrev pub zero_summary : ImportSummary
zero_summary = record { imported = 0; skipped = 0; replaced = 0 }

-- Which counter of the summary one record adds to.
pub data Bucket : Type 0 where
  into_imported into_skipped into_replaced : Bucket

unfoldable pub count : Bucket → ImportSummary → ImportSummary
count into_imported s = record s { imported = s.imported + 1 }
count into_skipped s = record s { skipped = s.skipped + 1 }
count into_replaced s = record s { replaced = s.replaced + 1 }

unfoldable pub restored_label : Text → Text
restored_label label = if is_empty label then text "(restored)" else label ++ text " (restored)"

-- The label of an import beside an existing record.
unfoldable pub imported_label : Text → Text
imported_label label = if is_empty label then text "(imported)" else label ++ text " (imported)"

-- `if !notes.is_empty() { rec.notes = Some(notes) }`
unfoldable pub set_notes : Text → CredentialRecord → CredentialRecord
set_notes notes r = if not (is_empty notes) then record r { notes = some notes } else r

module _ (env : Ambient) where
  -- The loop of `unique_record_id` draws UUIDs until one is free; `none` is a loop that outran its
  -- fuel. The place on the tape comes back with the id.
  unfoldable pub draw_id : ℕ → List CredentialRecord → ℕ → Option (ℕ × ℕ)
  draw_id zero records at = none
  draw_id (suc fuel) records at =
      let rest = draw_id fuel records (at + 1) in
      if not (id_taken records (env.uuid_v4 at)) then some (env.uuid_v4 at, at + 1) else rest

  -- `Keystore::unique_record_id`: one draw more than there are records is enough fuel when the
  -- tape does not repeat itself.
  unfoldable pub unique_record_id : List CredentialRecord → ℕ → ℕ → Option (ℕ × ℕ)
  unfolding draw_id
  unique_record_id records preferred at =
      let drawn = draw_id (suc (length records)) records at in
      if not (id_taken records preferred) then some (preferred, at) else drawn

  -- One record of `restore_many`: the records, the counter and the place on the tape afterwards.
  unfoldable pub push_restored :
      List CredentialRecord → CredentialRecord → ℕ → Option (List CredentialRecord × Bucket × ℕ)
  unfolding unique_record_id
  push_restored records incoming at = elim (unique_record_id records incoming.id at) [
    | none ↦ none
    | some (id, at') ↦ some (records ++ record incoming { id = id } ∷ [], into_imported, at')
  ]

  unfoldable pub restore_found :
      ImportPolicy
      → List CredentialRecord
      → CredentialRecord
      → ℕ
      → Option (List CredentialRecord × Bucket × ℕ)
  unfolding push_restored restored_label
  restore_found skip records incoming at = some (records, into_skipped, at)
  restore_found replace records incoming at = some (
    update_first (has_login incoming.origin incoming.username)
        (λ old. record incoming { id = old.id }) records,
    into_replaced,
    at,
  )
  restore_found keep_both records incoming at =
      push_restored records (record incoming { label = restored_label incoming.label }) at

  unfoldable pub restore_one :
      ImportPolicy
      → List CredentialRecord
      → CredentialRecord
      → ℕ
      → Option (List CredentialRecord × Bucket × ℕ)
  unfolding restore_found
  restore_one policy records incoming at =
      if any (has_login incoming.origin incoming.username) records
      then restore_found policy records incoming at
      else push_restored records incoming at

  unfoldable pub restore_loop :
      ImportPolicy
      → List CredentialRecord
      → ImportSummary
      → ℕ
      → List CredentialRecord
      → Option (List CredentialRecord × ImportSummary × ℕ)
  unfolding restore_one count
  restore_loop policy records summary at [] = some (records, summary, at)
  restore_loop policy records summary at (incoming ∷ rest) =
      elim (restore_one policy records incoming at) [
        | none ↦ none
        | some (records', bucket, at') ↦
            restore_loop policy records' (count bucket summary) at' rest
      ]

  -- `Keystore::restore_many`, on the records of the keystore
  unfoldable pub restore_many :
      List CredentialRecord
      → List CredentialRecord
      → ImportPolicy
      → ℕ
      → Option (List CredentialRecord × ImportSummary × ℕ)
  unfolding restore_loop
  restore_many records incoming policy at = restore_loop policy records zero_summary at incoming

  -- A record made by an import: with the next colour, a label and notes.
  unfoldable pub push_imported :
      List CredentialRecord → ImportItem → Text → ℕ → List CredentialRecord × Bucket × ℕ
  unfolding Record.new set_notes next_automatic_color
  push_imported records item label at =
      let made = Record.new env at item.origin item.username item.password in
      let shown = record made { color = next_automatic_color records; label = label } in
      (records ++ set_notes item.notes shown ∷ [], into_imported, at + 1)

  -- The record that an import replaces: a label and notes only where the import has any.
  unfoldable pub replace_with : ImportItem → CredentialRecord → CredentialRecord
  unfolding set_notes
  replace_with item r =
      record (set_notes item.notes (record r {
        password = item.password;
        label = if not (is_empty item.label) then item.label else r.label;
      })) { archived = false }

  unfoldable pub import_found :
      ImportPolicy → List CredentialRecord → ImportItem → ℕ → List CredentialRecord × Bucket × ℕ
  unfolding replace_with push_imported imported_label
  import_found skip records item at = (records, into_skipped, at)
  import_found replace records item at = (
    update_first (has_login item.origin item.username) (replace_with item) records,
    into_replaced,
    at,
  )
  import_found keep_both records item at = push_imported records item (imported_label item.label) at

  unfoldable pub import_one :
      ImportPolicy → List CredentialRecord → ImportItem → ℕ → List CredentialRecord × Bucket × ℕ
  unfolding import_found
  import_one policy records item at =
      if any (has_login item.origin item.username) records
      then import_found policy records item at
      else push_imported records item item.label at

  unfoldable pub import_loop :
      ImportPolicy
      → List CredentialRecord
      → ImportSummary
      → ℕ
      → List ImportItem
      → List CredentialRecord × ImportSummary × ℕ
  unfolding import_one count
  import_loop policy records summary at [] = (records, summary, at)
  import_loop policy records summary at (item ∷ rest) =
      let (records', bucket, at') = import_one policy records item at in
      import_loop policy records' (count bucket summary) at' rest

  -- `Keystore::import_many`, on the records of the keystore
  unfoldable pub import_many :
      List CredentialRecord
      → List ImportItem
      → ImportPolicy
      → ℕ
      → List CredentialRecord × ImportSummary × ℕ
  unfolding import_loop
  import_many records items policy at = import_loop policy records zero_summary at items
