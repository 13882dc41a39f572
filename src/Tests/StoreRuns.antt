-- ===== src/Tests/StoreRuns.antt =====
-- Runs of the keystore.
use passport_passwords.Base.{List, ◌≡◌, Text, text, [], ◌∷◌, not, ◌&&◌, text_eq, any}
use passport_passwords.Base.{◌+◌, ℕ, filter, none, ok, refl, some, length, arith}
use passport_passwords.Record.{CredentialRecord}
use passport_passwords.Keystore.Bulk.{
  ImportItem, ImportSummary, keep_both, restore_many, import_many,
}
use passport_passwords.Keystore.Bulk.Ids.{DistinctIds}
use passport_passwords.Keystore.Bulk.Counted.{total, Kept}
use passport_passwords.Keystore.Bulk.Restored.{restore_many_lem}
use passport_passwords.Keystore.Bulk.Imported.{import_many_lem}
use passport_passwords.Store.{IsCredentialStore}
use passport_passwords.Keystore.Trait.{keystore_store, KeystoreState, upsert, list_origins}
use passport_passwords.Keystore.Trait.Contract.{is_other, keystore_store_lem}
use passport_passwords.Keystore.Trait.Listing.{Ascending, has, list_origins_lem}
use passport_passwords.Tests.Fixtures.{toy_env, alice}

abbrev one_record : KeystoreState
one_record = record { keystore = record { records = alice ∷ []; key = [] }; at = 0 }

abbrev with_bob : KeystoreState
with_bob = (upsert toy_env one_record (text "https://b.io") (text "bob") (text "pw") none).1

bob_upserted :
    upsert toy_env one_record (text "https://b.io") (text "bob") (text "pw") none
    ≡ (ok tt, with_bob)
unfolding upsert
bob_upserted = refl

keystore_store_lem_example :
    IsCredentialStore (keystore_store toy_env)
    × (filter (is_other (text "https://b.io") (text "bob")) with_bob.keystore.records
        ≡ filter (is_other (text "https://b.io") (text "bob")) one_record.keystore.records)
keystore_store_lem_example =
    keystore_store_lem toy_env one_record with_bob (text "https://b.io") (text "bob") (text "pw")
      none bob_upserted

list_origins_lem_example :
    Ascending (list_origins (alice ∷ record alice { origin = text "https://b.io" } ∷ alice ∷ []))
    × ((o : Text)
        → has o (list_origins (alice ∷ record alice { origin = text "https://b.io" } ∷ alice ∷ []))
          ≡ any
              (λ r. not r.archived && text_eq o r.origin)
              (alice ∷ record alice { origin = text "https://b.io" } ∷ alice ∷ []))
list_origins_lem_example =
    list_origins_lem (alice ∷ record alice { origin = text "https://b.io" } ∷ alice ∷ [])

abbrev bob : CredentialRecord
bob = record alice { username = text "bob" }

-- One record with the login of an old one, and one with its id.
restore_many_lem_example :
    (after : List CredentialRecord) × (t : ImportSummary) × (at' : ℕ) × (restore_many toy_env
        (alice ∷ [])
        (alice ∷ bob ∷ [])
        keep_both
        0
      ≡ some (after, t, at'))
    × DistinctIds after
    × (total t ≡ 2)
    × (length after ≡ 1 + t.imported)
    × Kept keep_both (alice ∷ []) after
restore_many_lem_example =
    restore_many_lem toy_env (λ i j e. omega arith) (alice ∷ []) (alice ∷ bob ∷ []) keep_both 0
      (refl, tt)

abbrev imported_item : ImportItem
imported_item = record {
  origin = text "https://a.io";
  username = text "alice";
  password = text "other";
  label = [];
  notes = [];
}

import_many_lem_example :
    let (after, t, _) = import_many toy_env (alice ∷ []) (imported_item ∷ []) keep_both 0 in
    (total t ≡ 1) × (length after ≡ 1 + t.imported) × Kept keep_both (alice ∷ []) after
import_many_lem_example = import_many_lem toy_env (alice ∷ []) (imported_item ∷ []) keep_both 0
