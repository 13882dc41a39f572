-- ===== src/Tests/SealedRuns.antt =====
-- Runs of the sealed forms of the keystore.
use passport_passwords.Base.{ℕ, zero, suc, ◌≡◌, refl, Text, text, [], ◌∷◌, ◌++◌, ok}
use passport_passwords.Crypto.{fill_bytes}
use passport_passwords.Keystore.{Keystore, derive_key}
use passport_passwords.Keystore.Sealed.{
  hmac_sha256, kdf_rounds, derive_backup_key, seal, seal_keystore, open_keystore, export_backup,
  records_from_backup, backup_kdf_iterations, xor_into, backup_file,
}
use passport_passwords.Keystore.Sealed.RoundTrip.{
  open_keystore-seal_keystore, records_from_backup-export_backup,
}
use passport_passwords.Tests.Fixtures.{toy_crypto, toy_laws, alice, bytes_of}
use passport_passwords.Tests.JsonFixture.{toy_json, toy_json-IsJson, put_records, put_backup}

abbrev toy_keystore : Keystore
toy_keystore = record { records = alice ∷ []; key = derive_key toy_crypto (text "master") }

abbrev alice_text : Text
alice_text = 1 ∷ put_records (alice ∷ [])

abbrev toy_blob : Text
toy_blob = bytes_of 12 7 ++ (alice_text ++ bytes_of 16 0)

sealed_run : seal_keystore toy_crypto toy_json toy_keystore 0 ≡ (ok toy_blob, 12)
unfolding seal_keystore seal fill_bytes
sealed_run = refl

open_keystore-seal_keystore_example :
    open_keystore toy_crypto toy_json (text "master") toy_blob ≡ ok toy_keystore
open_keystore-seal_keystore_example =
    open_keystore-seal_keystore toy_crypto toy_laws toy_json toy_json-IsJson (text "master")
      (alice ∷ []) 0 sealed_run

rounds_run :
    (n : ℕ) (passphrase u out : Text)
    → (r : Text) × (kdf_rounds toy_crypto n passphrase u out ≡ ok r)
unfolding kdf_rounds hmac_sha256
rounds_run zero passphrase u out = (out, refl)
rounds_run (suc n) passphrase u out = rounds_run n passphrase u (xor_into out u)

derived_run :
    (passphrase salt : Text)
    → (r : Text) × (derive_backup_key toy_crypto passphrase salt backup_kdf_iterations ≡ ok r)
unfolding derive_backup_key hmac_sha256
derived_run passphrase salt = rounds_run 199_999 passphrase _ _

abbrev toy_file : Text
toy_file = put_backup (backup_file toy_crypto toy_json (bytes_of 16 7) toy_blob)

exported_with :
    (key : Text)
    → derive_backup_key toy_crypto (text "pass") (bytes_of 16 7) backup_kdf_iterations ≡ ok key
    → export_backup toy_crypto toy_json toy_keystore (text "pass") 0 ≡ (ok toy_file, 28)
unfolding export_backup seal fill_bytes
exported_with key e = rw (e, export_backup) refl

exported_run : export_backup toy_crypto toy_json toy_keystore (text "pass") 0 ≡ (ok toy_file, 28)
exported_run = let (key, e) = derived_run (text "pass") (bytes_of 16 7) in exported_with key e

records_from_backup-export_backup_example :
    records_from_backup toy_crypto toy_json (text "pass") toy_file ≡ ok (alice ∷ [])
records_from_backup-export_backup_example =
    records_from_backup-export_backup toy_crypto toy_laws toy_json toy_json-IsJson toy_keystore
      (text "pass") 0 exported_run
