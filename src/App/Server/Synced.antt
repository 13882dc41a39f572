-- ===== src/App/Server/Synced.antt =====
-- The transport, the engine, the keystore and the disk together: what is in memory is on the disk.
use passport_passwords.Base.{
  Bool, ◌∙◌, if◌then◌else◌, ap, ℕ, ◌+◌, Text, List, [], ◌∷◌, Option, some, none, ◌≡◌, refl, ok,
  Bool-cases, inl, inr,
}
use passport_passwords.Crypto.{IsCrypto}
use passport_passwords.Approval.{ApprovalRequest}
use passport_passwords.Protocol.Message.{Response}
use passport_passwords.Store.{CredentialStore}
use passport_passwords.Keystore.{Keystore, snapshot, restore_snapshot}
use passport_passwords.Keystore.Sealed.{IsJson}
use passport_passwords.Keystore.Trait.{KeystoreState, keystore_store, upsert}
use passport_passwords.Engine.{Engine, World, commit_upsert}
use passport_passwords.Engine.Preserving.{Preserves, Preserved, handle-Preserves}
use passport_passwords.App.Disk.{IsKeystoreStore, load_keystore}
use passport_passwords.App.Vault.{Platform}
use passport_passwords.App.Vault.Sync.{persist-InSync}
use passport_passwords.App.Server.{
  Outside, ShellWorld, Others, persist_and_refresh, on_write, shell_engine,
}
use passport_passwords.Transport.{
  Wire, Served, dispatch_parsed, dispatch_payload, or_hold, serve_payloads, serve_blocking,
}
use passport_passwords.Transport.Reader.{Read, reader_loop}
use passport_passwords.Transport.Writer.{Endpoint}

-- What an engine preserves, the transport does.
module _ {C : CredentialStore} (E : Engine C) (P : C.Store → E.Outer → Type 0)
    (kept : Preserved E P) (wire : Wire) where
  dispatch_parsed-Preserves :
      (req : _) (payload : Text) (now : ℕ) (w : World C.Store E.Outer)
      → P w.store w.outer
      → let w' = (dispatch_parsed E wire req payload now w).1 in P w'.store w'.outer
  dispatch_parsed-Preserves (some req) payload now w h = handle-Preserves E P kept req now w h
  dispatch_parsed-Preserves none payload now w h = h

  dispatch_payload-Preserves :
      (payload : Text) (now : ℕ) (w : World C.Store E.Outer)
      → P w.store w.outer
      → let w' = (dispatch_payload E wire payload now w).1 in P w'.store w'.outer
  unfolding dispatch_payload
  dispatch_payload-Preserves payload now w h =
      dispatch_parsed-Preserves (wire.parse_request payload) payload now w h

  module _ (usb : Endpoint) where
    or_hold-Preserves :
        (answer : Option Response) (held rest : Served E wire usb)
        → P held.1.store held.1.outer
        → P rest.1.store rest.1.outer
        → let w' = (or_hold E wire usb answer held rest).1 in P w'.store w'.outer
    or_hold-Preserves none held rest h k = h
    or_hold-Preserves (some r) held rest h k = k

    pub serve_payloads-Preserves :
        (clock : ℕ → ℕ) (ps : List Text) (w : World C.Store E.Outer) (port : usb.Port)
        → P w.store w.outer
        → let w' = (serve_payloads E wire usb clock ps w port).1 in P w'.store w'.outer
    unfolding serve_payloads
    serve_payloads-Preserves clock [] w port h = h
    serve_payloads-Preserves clock (payload ∷ ps) w port h =
        let (answer, w') = dispatch_payload E wire payload (clock 0) w in
        let h' = dispatch_payload-Preserves payload (clock 0) w h in
        or_hold-Preserves answer _ _ h' (serve_payloads-Preserves (λ n. clock (n + 1)) ps w' _ h')

module _ (p : Platform) (laws : IsCrypto p.crypto) (json : IsJson p.json)
    (store : IsKeystoreStore p.store) (master : Text) (Rest : Type 0) (others : Others p Rest) where
  abbrev E : Engine (keystore_store p.env)
  E = shell_engine p Rest others

  -- What is on the disk loads to the keystore in memory.
  abbrev pub IsSynced : KeystoreState → Outside p Rest → Type 0
  IsSynced s o = load_keystore p.crypto p.json p.store o.disk master ≡ ok s.keystore

  abbrev pub SameVault : ShellWorld p Rest → ShellWorld p Rest → Type 0
  SameVault v w = (v.store.keystore ≡ w.store.keystore) × (v.outer.disk ≡ w.outer.disk)

  -- While the engine waits for the user the others may change both, as the callbacks of the window
  -- do, but not one without the other; around the lock of the hook they change neither.
  pub record OthersKeep : Type 0 where
    pub asking :
        (req : ApprovalRequest) (w : ShellWorld p Rest)
        → IsSynced w.store w.outer
        → IsSynced (others.request req w).1.store (others.request req w).1.outer
    pub cancelling :
        (w : ShellWorld p Rest)
        → IsSynced w.store w.outer
        → IsSynced (others.cancel_pending w).store (others.cancel_pending w).outer
    pub quiet_before : (w : ShellWorld p Rest) → SameVault (others.before_hook w) w
    pub quiet_after : (w : ShellWorld p Rest) → SameVault (others.after_hook w) w

  module _ (kept : OthersKeep) where
    -- What is on the disk where a write was persisted, or where it has to be taken back
    abbrev Outcome : Keystore → Bool × ShellWorld p Rest → Type 0
    Outcome before (done, w) =
        load_keystore p.crypto p.json p.store w.outer.disk master
        ≡ ok
            (if done then w.store.keystore else restore_snapshot w.store.keystore (snapshot before))

    persist_and_refresh-Outcome :
        (before : Keystore) (w : ShellWorld p Rest)
        → w.store.keystore.key ≡ before.key
        → load_keystore p.crypto p.json p.store w.outer.disk master ≡ ok before
        → Outcome before (persist_and_refresh p Rest w)
    unfolding persist_and_refresh
    persist_and_refresh-Outcome before w key h =
        persist-InSync p laws json store master before w.store.keystore w.outer.disk w.rng key h

    Outcome-after :
        (before : Keystore) (done : Bool) (w : ShellWorld p Rest)
        → Outcome before (done, w)
        → Outcome before (done, others.after_hook w)
    Outcome-after before done w h =
        let (same, same_disk) = kept.quiet_after w in rw (same, same_disk) h

    on_write-Outcome :
        (before : Keystore) (w : ShellWorld p Rest)
        → w.store.keystore.key ≡ before.key
        → load_keystore p.crypto p.json p.store w.outer.disk master ≡ ok before
        → Outcome before (on_write p Rest others w)
    unfolding on_write
    on_write-Outcome before w key h =
        let v = others.before_hook w in
        let (same, same_disk) = kept.quiet_before w in
        Outcome-after before (persist_and_refresh p Rest v).0 (persist_and_refresh p Rest v).1 (
          persist_and_refresh-Outcome before v (ap (λ (ks : Keystore). ks.key) same ∙ key)
            (rw same_disk h))

    commit_upsert-IsSynced :
        (o u password : Text) (l : Option Text)
        → Preserves E IsSynced (commit_upsert E o u password l)
    unfolding commit_upsert upsert
    commit_upsert-IsSynced o u password l w h =
        let w1 : ShellWorld p Rest = record w { store = (upsert p.env w.store o u password l).1 } in
        let r = on_write p Rest others w1 in
        let outcome = on_write-Outcome w.store.keystore w1 refl h in
        elim (Bool-cases r.0) [ inl e ↦ rw e (rw e at outcome) | inr e ↦ rw e (rw e at outcome) ]

    -- With crates and a disk that keep their contracts, on the engine and the hook that `app_main`
    -- builds: where the keystore that the disk loads to is the one in memory, it still is when the
    -- transport has served whatever the host sent, the writes that the disk refused included. The
    -- condition on the user and the other threads is that they part the two neither while the
    -- engine asks nor when it cancels, and that they change neither of them from the release of
    -- the store that was written to the lock of the hook, and from there to the next lock.
    pub serve_blocking-IsSynced :
        (wire : Wire) (usb : Endpoint) (clock : ℕ → ℕ) (reads : List Read) (w : ShellWorld p Rest)
        (port : usb.Port)
        → IsSynced w.store w.outer
        → let w' = (serve_blocking E wire usb clock reads w port).1 in IsSynced w'.store w'.outer
    serve_blocking-IsSynced wire usb clock reads w port h =
        let preserved : Preserved E IsSynced = record {
          asking = kept.asking;
          cancelling = kept.cancelling;
          committing = commit_upsert-IsSynced;
        } in
        serve_payloads-Preserves E IsSynced preserved wire usb clock (reader_loop [] reads).0 w port
          h
