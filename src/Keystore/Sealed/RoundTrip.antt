-- ===== src/Keystore/Sealed/RoundTrip.antt =====
-- The sealed forms open again: the keystore at rest, and a backup.
use passport_passwords.Base.{
  [], ◌∷◌, ◌<◌, Result-cases, ℕ, ◌+◌, ◌≡◌, refl, ◌∙◌, ap, Text, List, ◌++◌, false, some, ok,
  is_empty, arith, length, take, drop, length-append, take-append_left, drop-append_left,
  Option-cases, inl, inr, text_eq_refl,
}
use passport_passwords.Crypto.{Crypto, IsCrypto, fill_bytes, length-fill_bytes}
use passport_passwords.Record.{CredentialRecord}
use passport_passwords.Keystore.{Keystore, derive_key}
use passport_passwords.Keystore.Sealed.{
  Json, IsJson, seal, unseal, open_keystore, seal_keystore, backup_file, export_backup,
  records_from_backup, derive_backup_key, backup_kdf_iterations, backup_magic, backup_kdf,
  backup_salt_bytes,
}

nonempty : (s : Text) → 0 < length s → is_empty s ≡ false
nonempty [] h = absurd (omega arith)
nonempty (b ∷ s) h = refl

module _ (c : Crypto) (laws : IsCrypto c) where
  open laws use {decrypt-encrypt, length-encrypt, hex_decode-hex_encode}

  -- What a successful `seal` has made.
  seal-eq-ok :
      (key plain : Text) (rng : ℕ) {blob : Text} {rng' : ℕ}
      → seal c key plain rng ≡ (ok blob, rng')
      → (ct : Text) × (c.encrypt key (fill_bytes c 12 rng).0 plain ≡ some ct)
        × (blob ≡ (fill_bytes c 12 rng).0 ++ ct)
  unfolding seal
  seal-eq-ok key plain rng h = elim (Option-cases (c.encrypt key (fill_bytes c 12 rng).0 plain)) [
    | inl failed ↦ absurd (ground arith)
    | inr (ct, sealed) ↦ (ct, sealed, ground arith)
  ]

  -- A sealed text in its two parts.
  record Parts (key plain blob : Text) : Type 0 where
    nonce : Text
    cipher : Text
    whole : blob ≡ nonce ++ cipher
    nonce_length : length nonce ≡ 12
    first : take 12 blob ≡ nonce
    second : drop 12 blob ≡ cipher
    long : length cipher ≡ length plain + 16
    decrypts : c.decrypt key nonce cipher ≡ some plain

  seal-Parts :
      (key plain : Text) (rng : ℕ) {blob : Text} {rng' : ℕ}
      → seal c key plain rng ≡ (ok blob, rng')
      → Parts key plain blob
  seal-Parts key plain rng h =
      let (ct, encrypted, e) = seal-eq-ok key plain rng h in
      let nonce = (fill_bytes c 12 rng).0 in
      let short = length-fill_bytes c 12 rng in
      record {
        nonce = nonce;
        cipher = ct;
        whole = e;
        nonce_length = short;
        first = ap (take 12) e ∙ take-append_left 12 nonce ct short;
        second = ap (drop 12) e ∙ drop-append_left 12 nonce ct short;
        long = length-encrypt key nonce plain ct encrypted;
        decrypts = decrypt-encrypt key nonce plain ct encrypted;
      }

  unseal-Parts : (key plain blob : Text) → Parts key plain blob → unseal c key blob ≡ ok plain
  unfolding unseal
  unseal-Parts key plain blob p = ground (
    arith,
    p.first,
    p.second,
    p.decrypts,
    p.long,
    p.nonce_length,
    p.whole,
    length-append p.nonce p.cipher,
  )

  module _ (j : Json) (json : IsJson j) where
    -- By the laws of the crates of cryptography, and when JSON reads back what it wrote, a
    -- keystore that was sealed under the key of a master secret is opened with that secret, and
    -- is the same.
    pub open_keystore-seal_keystore :
        (master : Text) (records : List CredentialRecord) (rng : ℕ) {blob : Text} {rng' : ℕ}
        → let ks : Keystore = record { records = records; key = derive_key c master } in
          seal_keystore c j ks rng ≡ (ok blob, rng') → open_keystore c j master blob ≡ ok ks
    unfolding seal_keystore open_keystore
    open_keystore-seal_keystore master records rng {blob} {rng'} h =
        elim (Option-cases (j.write_records records)) [
          | inl failed ↦ absurd (ground arith)
          | inr (raw, written) ↦
              let sealed =
                seal-Parts (derive_key c master) raw rng {blob = blob} {rng' = rng'}
                  (ground arith) in
              ground (
                arith,
                unseal-Parts (derive_key c master) raw blob sealed,
                json.read-write_records records raw written,
              )
        ]

    -- A sealed keystore has a nonce at least.
    pub seal_keystore-nonempty :
        (ks : Keystore) (rng : ℕ) {blob : Text} {rng' : ℕ}
        → seal_keystore c j ks rng ≡ (ok blob, rng')
        → is_empty blob ≡ false
    unfolding seal_keystore
    seal_keystore-nonempty ks rng {blob} {rng'} h =
        elim (Option-cases (j.write_records ks.records)) [
          | inl failed ↦ absurd (ground arith)
          | inr (raw, written) ↦
              let sealed = seal-Parts ks.key raw rng {blob = blob} {rng' = rng'} (ground arith) in
              nonempty blob (
                omega (
                  arith,
                  sealed.nonce_length,
                  ap length sealed.whole,
                  length-append sealed.nonce sealed.cipher,
                ))
        ]

    -- What a successful export has made.
    record Exported (ks : Keystore) (passphrase file : Text) : Type 0 where
      raw : Text
      salt : Text
      key : Text
      sealed : Text
      nonempty : is_empty passphrase ≡ false
      written : j.write_records ks.records ≡ some raw
      salt_length : length salt ≡ backup_salt_bytes
      derived : derive_backup_key c passphrase salt backup_kdf_iterations ≡ ok key
      parts : Parts key raw sealed
      stored : j.write_backup (backup_file c j salt sealed) ≡ some file

    export_backup-Exported :
        (ks : Keystore) (passphrase : Text) (rng : ℕ) {file : Text} {rng' : ℕ}
        → export_backup c j ks passphrase rng ≡ (ok file, rng')
        → Exported ks passphrase file
    unfolding export_backup
    export_backup-Exported ks passphrase rng {file} h =
        let salt = (fill_bytes c backup_salt_bytes rng).0 in
        let rng1 = (fill_bytes c backup_salt_bytes rng).1 in
        elim (Option-cases (j.write_records ks.records)) [
          | inl failed ↦ absurd (ground arith)
          | inr (raw, written) ↦
              elim (Result-cases (derive_backup_key c passphrase salt backup_kdf_iterations)) [
                | inl (why, failed) ↦ absurd (ground arith)
                | inr (key, derived) ↦ elim (Result-cases (seal c key raw rng1).0) [
                  | inl (why, failed) ↦ absurd (ground arith)
                  | inr (sealed, made) ↦ record {
                    raw = raw;
                    salt = salt;
                    key = key;
                    sealed = sealed;
                    nonempty = ground arith;
                    written = written;
                    salt_length = length-fill_bytes c backup_salt_bytes rng;
                    derived = derived;
                    parts = seal-Parts key raw rng1 {rng' = (seal c key raw rng1).1} (ground arith);
                    stored = ground arith;
                  }
                ]
              ]
        ]

    -- By the laws of the crates of cryptography, and when JSON reads back what it wrote, a backup
    -- that was exported under a passphrase gives its records back under that passphrase.
    pub records_from_backup-export_backup :
        (ks : Keystore) (passphrase : Text) (rng : ℕ) {file : Text} {rng' : ℕ}
        → export_backup c j ks passphrase rng ≡ (ok file, rng')
        → records_from_backup c j passphrase file ≡ ok ks.records
    unfolding records_from_backup
    records_from_backup-export_backup ks passphrase rng {file} {rng'} h =
        let x = export_backup-Exported ks passphrase rng {file = file} {rng' = rng'} h in
        let p = x.parts in
        let supported = text_eq_refl backup_magic in
        let supported' = text_eq_refl backup_kdf in
        let read = json.read-write_backup (backup_file c j x.salt x.sealed) file x.stored in
        rw (x.nonempty, read, supported, supported')
          (rw (hex_decode-hex_encode x.salt, x.salt_length, p.first, p.second)
            (rw
              (
                hex_decode-hex_encode p.nonce,
                p.nonce_length,
                hex_decode-hex_encode p.cipher,
                x.derived,
                ← p.whole,
              )
              (rw
                (
                  unseal-Parts x.key x.raw x.sealed p,
                  json.read-write_records ks.records x.raw x.written,
                )
                refl)))
