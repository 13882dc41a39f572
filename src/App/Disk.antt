-- ===== src/App/Disk.antt =====
-- src/src/persist.rs: where the sealed keystore is kept.
pub mod Hosted
pub mod Atomic
use passport_passwords.Base.{
  ℕ, Text, List, [], ◌∷◌, Bool, true, false, Option, none, some, ◌≡◌, Result, ok, err, is_empty,
  if◌then◌else◌,
}
use passport_passwords.Crypto.{Crypto}
use passport_passwords.Keystore
use passport_passwords.App.Disk.Hosted.{Files, main_bytes, hosted_write}
use passport_passwords.Keystore.{Keystore, KeystoreError}
use passport_passwords.Keystore.Sealed.{Json, open_keystore, seal_keystore}

-- `KeystoreStore`: the bytes that it holds, if it holds any, and a write that succeeds or fails.
pub record KeystoreStore : Type 1 where
  pub Disk : Type 0
  pub stored : Disk → Option Text
  pub write : Text → Disk → Bool × Disk

-- A write that succeeds has stored the bytes, and one that fails has changed nothing.
pub record IsKeystoreStore (s : KeystoreStore) : Type 0 where
  pub write_done :
      (blob : Text) (d : s.Disk) {e : s.Disk}
      → is_empty blob ≡ false
      → s.write blob d ≡ (true, e)
      → s.stored e ≡ some blob
  pub write_failed :
      (blob : Text) (d : s.Disk) {e : s.Disk}
      → s.write blob d ≡ (false, e)
      → s.stored e ≡ s.stored d

-- The store of the device: `FileBacked` holds the bytes and writes when its guard is dropped; an
-- empty one holds no keystore.
abbrev pub device_store : KeystoreStore
device_store = record {
  Disk = Text;
  stored = λ bytes. if is_empty bytes then none else some bytes;
  write = λ blob bytes. (true, blob);
}

abbrev pub hosted_attempt :
    Text → Files × List (Option (ℕ × ℕ)) → Bool × (Files × List (Option (ℕ × ℕ)))
hosted_attempt blob (f, []) = let (done, g) = hosted_write none blob f in (done, (g, []))
hosted_attempt blob (f, cut ∷ cuts) = let (done, g) = hosted_write cut blob f in (done, (g, cuts))

-- The store of the simulator, with a list of what cuts the writes to come short.
abbrev pub hosted_store : KeystoreStore
hosted_store = record {
  Disk = Files × List (Option (ℕ × ℕ));
  stored = λ d. main_bytes d.0;
  write = λ blob d. hosted_attempt blob d;
}

module _ (c : Crypto) (j : Json) (s : KeystoreStore) where
  unfoldable pub load_keystore : s.Disk → Text → Result KeystoreError Keystore
  load_keystore d master = elim (s.stored d) [
    | none ↦ ok (Keystore.new c master)
    | some bytes ↦ open_keystore c j master bytes
  ]

  -- `persist_keystore` of main.rs, with the disk and the place on the random tape afterwards
  unfoldable pub persist_keystore : Keystore → s.Disk → ℕ → Bool × s.Disk × ℕ
  persist_keystore ks d rng =
      let (sealed, rng') = seal_keystore c j ks rng in
      elim sealed [
        | err _ ↦ (false, d, rng')
        | ok blob ↦ let w = s.write blob d in (w.0, w.1, rng')
      ]
