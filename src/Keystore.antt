-- ===== src/Keystore.antt =====
-- logic/vaults-bridge-keystore/src/lib.rs: the open keystore, its records and the operations of
-- the user interface. The children hold the bulk operations, the sealed forms, the `CredentialStore`
-- that the engine uses, and the proofs.
pub mod Bulk
pub mod Deletion
pub mod Sealed
pub mod Trait
use passport_passwords.Base.{
  ℤ, pos, ℕ, ◌+◌, ◌%◌, Text, List, [], ◌∷◌, ◌++◌, Bool, not, ◌&&◌, Option, none, some, Result, ok,
  err, ◌==◌, text_eq, if◌then◌else◌, text, any, length, filter, find, update_first, remove_first,
}
use passport_passwords.Record.{CredentialRecord}
use passport_passwords.Crypto.{Crypto}

pub data KeystoreError : Type 0 where
  seal_failed open_failed not_found not_archived : KeystoreError
  backup_passphrase_required backup_unsupported backup_malformed serde : KeystoreError

pub record Keystore : Type 0 where
  pub records : List CredentialRecord
  pub key : Text

abbrev pub key_info : Text
key_info = text "vaults-bridge keystore v1"

abbrev pub first_automatic_color : ℕ
first_automatic_color = 5

abbrev pub card_color_count : ℕ
card_color_count = 9

abbrev pub has_id : ℕ → CredentialRecord → Bool
has_id id r = r.id == id

-- The test of every search by login.
abbrev pub has_login : Text → Text → CredentialRecord → Bool
has_login origin username r = text_eq r.origin origin && text_eq r.username username

-- `self.records.iter().any(|r| r.id == id)`
abbrev pub id_taken : List CredentialRecord → ℕ → Bool
id_taken records id = any (has_id id) records

unfoldable pub derive_key : Crypto → Text → Text
derive_key c master = c.hkdf master key_info

unfoldable pub new : Crypto → Text → Keystore
unfolding derive_key
new c master = record { records = []; key = derive_key c master }

abbrev pub replace_records : Keystore → List CredentialRecord → Keystore
replace_records ks records = record ks { records = records }

abbrev pub snapshot : Keystore → List CredentialRecord
snapshot ks = ks.records

abbrev pub restore_snapshot : Keystore → List CredentialRecord → Keystore
restore_snapshot ks records = record ks { records = records }

-- `Keystore::next_automatic_color`, on the records
unfoldable pub next_automatic_color : List CredentialRecord → ℤ
next_automatic_color records = pos ((first_automatic_color + length records) % card_color_count)

unfoldable pub add : Keystore → CredentialRecord → Keystore
add ks r = record ks { records = ks.records ++ r ∷ [] }

unfoldable pub get : Keystore → ℕ → Option CredentialRecord
get ks id = find (has_id id) ks.records

-- `iter_mut().find(..).ok_or(NotFound)?` and the assignments behind it
unfoldable pub modify :
    Keystore
    → ℕ
    → (CredentialRecord → CredentialRecord)
    → Result KeystoreError (Unit {0}) × Keystore
modify ks id change = elim (find (has_id id) ks.records) [
  | none ↦ (err not_found, ks)
  | some _ ↦ (ok tt, record ks { records = update_first (has_id id) change ks.records })
]

unfoldable pub edit :
    Keystore → ℕ → Text → ℤ → Text → Text → Result KeystoreError (Unit {0}) × Keystore
unfolding modify
edit ks id label color username password =
    modify ks id
      λ r. record r { label = label; color = color; username = username; password = password }

unfoldable pub set_archived : Keystore → ℕ → Bool → Result KeystoreError (Unit {0}) × Keystore
unfolding modify
set_archived ks id archived = modify ks id λ r. record r { archived = archived }

unfoldable pub set_color : Keystore → ℕ → ℤ → Result KeystoreError (Unit {0}) × Keystore
unfolding modify
set_color ks id color = modify ks id λ r. record r { color = color }

-- `Keystore::delete_forever`
unfoldable pub delete_forever : Keystore → ℕ → Result KeystoreError (Unit {0}) × Keystore
delete_forever ks id = elim (find (has_id id) ks.records) [
  | none ↦ (err not_found, ks)
  | some r ↦
      if not r.archived
      then (err not_archived, ks)
      else (ok tt, record ks { records = remove_first (has_id id) ks.records })
]

unfoldable pub live_count : Keystore → ℕ
live_count ks = length (filter (λ r. not r.archived) ks.records)

unfoldable pub archived_count : Keystore → ℕ
archived_count ks = length (filter (λ r. r.archived) ks.records)

unfoldable pub find_by_origin_records : Keystore → Text → List CredentialRecord
find_by_origin_records ks origin = filter (λ r. text_eq r.origin origin) ks.records
