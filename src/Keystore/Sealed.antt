-- ===== src/Keystore/Sealed.antt =====
-- The sealed forms of a keystore: at rest under the device key, and as a backup under a passphrase.
pub mod RoundTrip
use Prim.Native.Nat.{bit_xor}
use passport_passwords.Base.{
  ℕ, zero, suc, ◌+◌, ◌-◌, Text, text, List, [], ◌∷◌, ◌++◌, Bool, not, ◌||◌, Option, none, some,
  Result, ok, err, ◌≡◌, ◌>>=◌, ◌>>◌, true, false, ◌==◌, ltb, if◌then◌else◌, text_eq, is_empty,
  length, take, drop,
}
use passport_passwords.Crypto.{Crypto, fill_bytes}
use passport_passwords.Record.{CredentialRecord}
use passport_passwords.Keystore.{
  KeystoreError, seal_failed, open_failed, backup_passphrase_required, backup_unsupported,
  backup_malformed, serde, Keystore, derive_key,
}

pub record BackupFile : Type 0 where
  pub magic : Text
  pub version : ℕ
  pub kdf : Text
  pub iterations : ℕ
  pub salt_hex : Text
  pub nonce_hex : Text
  pub ciphertext_hex : Text

-- `serde_json` at the two types that are stored.
pub record Json : Type 0 where
  pub write_records : List CredentialRecord → Option Text
  pub read_records : Text → Option (List CredentialRecord)
  pub write_backup : BackupFile → Option Text
  pub read_backup : Text → Option BackupFile

-- What was written is read back.
pub record IsJson (j : Json) : Type 0 where
  pub read-write_records :
      (records : List CredentialRecord) (raw : Text)
      → j.write_records records ≡ some raw
      → j.read_records raw ≡ some records
  pub read-write_backup :
      (file : BackupFile) (raw : Text)
      → j.write_backup file ≡ some raw
      → j.read_backup raw ≡ some file

abbrev pub backup_magic : Text
backup_magic = text "vaults-bridge-backup"

abbrev pub backup_kdf : Text
backup_kdf = text "pbkdf2-hmac-sha256"

abbrev pub backup_version : ℕ
backup_version = 1

abbrev pub backup_kdf_iterations : ℕ
backup_kdf_iterations = 200_000

abbrev pub backup_salt_bytes : ℕ
backup_salt_bytes = 16

-- `result.map_err(|_| e)?` and `option.ok_or(e)?`
abbrev pub or_fail {ℓ} : {A : Type ℓ} → KeystoreError → Option A → Result KeystoreError A
or_fail e none = err e
or_fail e (some a) = ok a

-- An early `return Err(e)`.
abbrev pub refuse_if : Bool → KeystoreError → Result KeystoreError (Unit {0})
refuse_if true e = err e
refuse_if false e = ok tt

-- `for (dst, src) in out.iter_mut().zip(u) { *dst ^= *src }`
unfoldable pub xor_into : Text → Text → Text
xor_into [] us = []
xor_into (o ∷ os) [] = o ∷ os
xor_into (o ∷ os) (u ∷ us) = bit_xor o u ∷ xor_into os us

module _ (c : Crypto) where
  unfoldable pub hmac_sha256 : Text → Text → Result KeystoreError Text
  hmac_sha256 key bytes = or_fail backup_malformed (c.hmac key bytes)

  -- `for _ in 1..iterations`, on the rounds left
  unfoldable pub kdf_rounds : ℕ → Text → Text → Text → Result KeystoreError Text
  unfolding hmac_sha256 xor_into
  kdf_rounds zero passphrase u out = ok out
  kdf_rounds (suc rounds) passphrase u out = do
    u' ← hmac_sha256 passphrase u
    kdf_rounds rounds passphrase u' (xor_into out u')

  unfoldable pub derive_backup_key : Text → Text → ℕ → Result KeystoreError Text
  derive_backup_key passphrase salt iterations =
      if iterations == 0 then err backup_malformed else do
        u ← hmac_sha256 passphrase (salt ++ 0 ∷ 0 ∷ 0 ∷ 1 ∷ [])
        kdf_rounds (iterations - 1) passphrase u u

  -- `seal`: twelve random bytes as the nonce, then the ciphertext with its tag
  unfoldable pub seal : Text → Text → ℕ → Result KeystoreError Text × ℕ
  seal key plaintext rng =
      let (nonce, rng') = fill_bytes c 12 rng in
      (do ct ← or_fail seal_failed (c.encrypt key nonce plaintext); ok (nonce ++ ct), rng')

  unfoldable pub unseal : Text → Text → Result KeystoreError Text
  unseal key blob = do
    refuse_if (ltb (length blob) (12 + 16)) open_failed
    or_fail open_failed (c.decrypt key (take 12 blob) (drop 12 blob))

  module _ (j : Json) where
    -- `Keystore::open`
    unfoldable pub open_keystore : Text → Text → Result KeystoreError Keystore
    open_keystore master sealed = do
      raw ← unseal (derive_key c master) sealed
      records ← or_fail serde (j.read_records raw)
      ok (record { records = records; key = derive_key c master })

    -- `Keystore::seal`
    unfoldable pub seal_keystore : Keystore → ℕ → Result KeystoreError Text × ℕ
    seal_keystore ks rng = elim (j.write_records ks.records) [
      | none ↦ (err serde, rng)
      | some raw ↦ seal ks.key raw rng
    ]

    -- The file of `export_backup`, from the salt and the sealed records.
    abbrev pub backup_file : Text → Text → BackupFile
    backup_file salt sealed = record {
      magic = backup_magic;
      version = backup_version;
      kdf = backup_kdf;
      iterations = backup_kdf_iterations;
      salt_hex = c.hex_encode salt;
      nonce_hex = c.hex_encode (take 12 sealed);
      ciphertext_hex = c.hex_encode (drop 12 sealed);
    }

    -- `Keystore::export_backup`: the salt is drawn first, then the nonce.
    unfoldable pub export_backup : Keystore → Text → ℕ → Result KeystoreError Text × ℕ
    export_backup ks passphrase rng =
        if is_empty passphrase
        then (err backup_passphrase_required, rng)
        else elim (j.write_records ks.records) [
          | none ↦ (err serde, rng)
          | some raw ↦
              let (salt, rng') = fill_bytes c backup_salt_bytes rng in
              elim (derive_backup_key passphrase salt backup_kdf_iterations) [
                | err e ↦ (err e, rng')
                | ok key ↦
                    let (result, rng'') = seal key raw rng' in
                    (
                      do sealed ← result; or_fail serde (j.write_backup (backup_file salt sealed)),
                      rng'',
                    )
              ]
        ]

    -- The four tests of the format, any of which refuses the file.
    abbrev pub is_unsupported : BackupFile → Bool
    is_unsupported file =
        not (text_eq file.magic backup_magic)
        || not (file.version == backup_version)
        || not (text_eq file.kdf backup_kdf)
        || not (file.iterations == backup_kdf_iterations)

    -- `Keystore::records_from_backup`
    unfoldable pub records_from_backup : Text → Text → Result KeystoreError (List CredentialRecord)
    records_from_backup passphrase backup = do
      refuse_if (is_empty passphrase) backup_passphrase_required
      file ← or_fail serde (j.read_backup backup)
      refuse_if (is_unsupported file) backup_unsupported
      salt ← or_fail backup_malformed (c.hex_decode file.salt_hex)
      refuse_if (not (length salt == backup_salt_bytes)) backup_malformed
      nonce ← or_fail backup_malformed (c.hex_decode file.nonce_hex)
      refuse_if (not (length nonce == 12)) backup_malformed
      ciphertext ← or_fail backup_malformed (c.hex_decode file.ciphertext_hex)
      key ← derive_backup_key passphrase salt file.iterations
      raw ← unseal key (nonce ++ ciphertext)
      or_fail serde (j.read_records raw)

    -- `Keystore::open_backup`
    unfoldable pub open_backup : Text → Text → Text → Result KeystoreError Keystore
    open_backup master passphrase backup = do
      records ← records_from_backup passphrase backup
      ok (record { records = records; key = derive_key c master })
