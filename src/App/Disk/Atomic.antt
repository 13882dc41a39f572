-- ===== src/App/Disk/Atomic.antt =====
-- What a write leaves on the disk, and what is loaded from there afterwards.
use passport_passwords.Base.{
  ℕ, zero, suc, Text, List, [], ◌∷◌, Bool, true, false, Option, none, some, ◌≡◌, ◌⊎◌, inl, inr,
  refl, sym, ◌∙◌, ap, ok, Result-cases, Option-cases, is_empty, arith,
}
use passport_passwords.Crypto.{Crypto, IsCrypto}
use passport_passwords.Record.{CredentialRecord}
use passport_passwords.Keystore
use passport_passwords.Keystore.{Keystore, derive_key}
use passport_passwords.Keystore.Sealed.{Json, IsJson, open_keystore, seal_keystore, unseal, or_fail}
use passport_passwords.Keystore.Sealed.RoundTrip.{
  open_keystore-seal_keystore, seal_keystore-nonempty,
}
use passport_passwords.App.Disk.{
  KeystoreStore, IsKeystoreStore, device_store, hosted_store, hosted_attempt, load_keystore,
  persist_keystore,
}
use passport_passwords.App.Disk.Hosted.{Files, after_power_loss, main_bytes, hosted_write}

-- What is on the disk is what was read from it, whole, whenever the power is lost.
abbrev pub IsDurable : Files → Type 0
IsDurable f = (renamed : Bool) (n : ℕ) → after_power_loss renamed n f ≡ main_bytes f

-- The write is finished: the new bytes are read, and after a loss of power either they or the old
-- ones, whole.
abbrev pub Finished : Text → Files → Files → Type 0
Finished bytes f g =
    (main_bytes g ≡ some bytes)
    × ((n : ℕ) → after_power_loss true n g ≡ some bytes)
    × ((n : ℕ) → after_power_loss false n g ≡ main_bytes f)

-- The write has changed nothing, and a loss of power does not either.
abbrev pub Untouched : Files → Files → Type 0
Untouched f g = (main_bytes g ≡ main_bytes f) × IsDurable g

-- The calls before the rename leave the keystore alone.
Untouched-of :
    (f g : Files)
    → g.main_file ≡ f.main_file
    → g.main_on_disk ≡ f.main_on_disk
    → IsDurable f
    → Untouched f g
Untouched-of f g e e' d = rw (e, e') (refl, d)

-- From a keystore that is on the disk: a write of the simulator's store that is cut short anywhere,
-- by an error or by a loss of power, says that it failed, and the old keystore is read from then
-- on, also when the power comes back, of an unsynced file as little as may be left of it. One that
-- is not cut says that it is done, and the new bytes are read; when the power comes back behind
-- it, it is the new bytes or the old ones that are read, as the rename had reached the disk or
-- not, and always whole.
pub hosted_write_atomic :
    (cut : Option (ℕ × ℕ)) (bytes : Text) (f : Files)
    → IsDurable f
    → let (done, g) = hosted_write cut bytes f in
      ((done ≡ true) × Finished bytes f g) ⊎ ((done ≡ false) × Untouched f g)
unfolding hosted_write
hosted_write_atomic none bytes f d = inl (refl, (refl, λ n. refl, λ n. d false n))
hosted_write_atomic (some (zero, n)) bytes f d =
    inr (refl, Untouched-of f (hosted_write (some (zero, n)) bytes f).1 refl refl d)
hosted_write_atomic (some (suc zero, n)) bytes f d =
    inr (refl, Untouched-of f (hosted_write (some (suc zero, n)) bytes f).1 refl refl d)
hosted_write_atomic (some (suc (suc zero), n)) bytes f d =
    inr (refl, Untouched-of f (hosted_write (some (suc (suc zero), n)) bytes f).1 refl refl d)
hosted_write_atomic (some (suc (suc (suc zero)), n)) bytes f d =
    inr (refl, Untouched-of f (hosted_write (some (suc (suc (suc zero)), n)) bytes f).1 refl refl d)
hosted_write_atomic (some (suc (suc (suc (suc zero))), n)) bytes f d = inr (
  refl,
  Untouched-of f (hosted_write (some (suc (suc (suc (suc zero))), n)) bytes f).1 refl refl d,
)
hosted_write_atomic (some (suc (suc (suc (suc (suc k)))), n)) bytes f d =
    inl (refl, (refl, λ m. refl, λ m. d false m))

-- What a run of the program sees of a write, whatever had reached the disk.
hosted_write-seen :
    (cut : Option (ℕ × ℕ)) (bytes : Text) (f : Files)
    → let (done, g) = hosted_write cut bytes f in
      ((done ≡ true) × (main_bytes g ≡ some bytes))
      ⊎ ((done ≡ false) × (main_bytes g ≡ main_bytes f))
unfolding hosted_write
hosted_write-seen none bytes f = inl (refl, refl)
hosted_write-seen (some (zero, n)) bytes f = inr (refl, refl)
hosted_write-seen (some (suc zero, n)) bytes f = inr (refl, refl)
hosted_write-seen (some (suc (suc zero), n)) bytes f = inr (refl, refl)
hosted_write-seen (some (suc (suc (suc zero)), n)) bytes f = inr (refl, refl)
hosted_write-seen (some (suc (suc (suc (suc zero))), n)) bytes f = inr (refl, refl)
hosted_write-seen (some (suc (suc (suc (suc (suc k)))), n)) bytes f = inl (refl, refl)

device_write_done :
    (blob d : Text) {e : Text}
    → is_empty blob ≡ false
    → device_store.write blob d ≡ (true, e)
    → device_store.stored e ≡ some blob
device_write_done blob d {e} h w = let same : blob ≡ e = ap (λ p. p.1) w in rw (← same) (rw h)

device_write_failed :
    (blob d : Text) {e : Text}
    → device_store.write blob d ≡ (false, e)
    → device_store.stored e ≡ device_store.stored d
device_write_failed blob d w = absurd (ground arith)

pub device_store-IsKeystoreStore : IsKeystoreStore device_store
device_store-IsKeystoreStore = record {
  write_done = λ blob d h w. device_write_done blob d h w;
  write_failed = λ blob d w. device_write_failed blob d w;
}

hosted_attempt-seen :
    (blob : Text) (d : Files × List (Option (ℕ × ℕ)))
    → (((hosted_attempt blob d).0 ≡ true) × (main_bytes (hosted_attempt blob d).1.0 ≡ some blob))
      ⊎ (((hosted_attempt blob d).0 ≡ false)
          × (main_bytes (hosted_attempt blob d).1.0 ≡ main_bytes d.0))
hosted_attempt-seen blob (f, []) = hosted_write-seen none blob f
hosted_attempt-seen blob (f, cut ∷ cuts) = hosted_write-seen cut blob f

pub hosted_store-IsKeystoreStore : IsKeystoreStore hosted_store
hosted_store-IsKeystoreStore = record {
  write_done = λ blob d h w. ground (arith, hosted_attempt-seen blob d);
  write_failed = λ blob d w. ground (arith, hosted_attempt-seen blob d);
}

module _ (c : Crypto) (laws : IsCrypto c) (j : Json) (json : IsJson j) (s : KeystoreStore)
    (store : IsKeystoreStore s) where
  pub load_keystore-key :
      (d : s.Disk) (master : Text) {ks : Keystore}
      → load_keystore c j s d master ≡ ok ks
      → ks.key ≡ derive_key c master
  unfolding load_keystore open_keystore Keystore.new or_fail
  load_keystore-key d master {ks} h = elim (Option-cases (s.stored d)) [
    | inl e ↦ ground arith
    | inr (bytes, e) ↦ elim (Result-cases (unseal c (derive_key c master) bytes)) [
      | inl (f, u) ↦ absurd (ground arith)
      | inr (raw, u) ↦ elim (Option-cases (j.read_records raw)) [
        | inl r ↦ absurd (ground arith)
        | inr (records, r) ↦ ground arith
      ]
    ]
  ]

  persist-records :
      (master : Text) (records : List CredentialRecord) (d : s.Disk) (rng : ℕ) {e : s.Disk}
      {rng' : ℕ}
      → let ks : Keystore = record { records = records; key = derive_key c master } in
        persist_keystore c j s ks d rng ≡ (true, e, rng') → load_keystore c j s e master ≡ ok ks
  unfolding persist_keystore load_keystore
  persist-records master records d rng {e} {rng'} h =
      let ks : Keystore = record { records = records; key = derive_key c master } in
      let (result, rng1) = seal_keystore c j ks rng in
      elim (Result-cases result) [
        | inl (f, failed) ↦ absurd (ground arith)
        | inr (blob, sealed) ↦
            let whole : seal_keystore c j ks rng ≡ (ok blob, rng1) = ground arith in
            let full =
              seal_keystore-nonempty c laws j json ks rng {blob = blob} {rng' = rng1} whole in
            let put = store.write_done blob d {e = e} full (ground arith) in
            rw (put, load_keystore)
              (open_keystore-seal_keystore c laws j json master records rng {blob = blob}
                {rng' = rng1} whole)
      ]

  -- What was persisted is loaded.
  pub load-persist :
      (master : Text) (ks : Keystore) (d : s.Disk) (rng : ℕ) {e : s.Disk} {rng' : ℕ}
      → ks.key ≡ derive_key c master
      → persist_keystore c j s ks d rng ≡ (true, e, rng')
      → load_keystore c j s e master ≡ ok ks
  load-persist master ks d rng {e} {rng'} key h =
      let same : ◌≡◌ {A = Keystore} ks
          (record { records = ks.records; key = derive_key c master }) =
        ap (λ (k : Text). record { records = ks.records; key = k }) key in
      persist-records master ks.records d rng {e = e} {rng' = rng'}
        (ap (λ (k : Keystore). persist_keystore c j s k d rng) (sym same) ∙ h)
      ∙ ap ok (sym same)

  pub persist-failed :
      (ks : Keystore) (d : s.Disk) (rng : ℕ) {e : s.Disk} {rng' : ℕ}
      → persist_keystore c j s ks d rng ≡ (false, e, rng')
      → s.stored e ≡ s.stored d
  unfolding persist_keystore
  persist-failed ks d rng {e} {rng'} h = elim (Result-cases (seal_keystore c j ks rng).0) [
    | inl (f, failed) ↦ ground arith
    | inr (blob, sealed) ↦ store.write_failed blob d {e = e} (ground arith)
  ]
