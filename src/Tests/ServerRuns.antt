-- ===== src/Tests/ServerRuns.antt =====
-- Runs of the transport on the engine that the application builds.
use passport_passwords.Base.{
  ℕ, text, List, [], ◌∷◌, ◌≡◌, refl, none, some, ok, text_eq, map, if◌then◌else◌,
}
use passport_passwords.Base.{Result, err, Text}
use passport_passwords.Base.Utf8.{valid_utf8}
use passport_passwords.Crypto.{fill_bytes}
use passport_passwords.Origin.{parse, origin_of, to_lower}
use passport_passwords.Protocol.Frame.{frame}
use passport_passwords.Protocol.Message.{Request, store_credential}
use passport_passwords.Approval.{approve}
use passport_passwords.Session.{accept_nonce, check_idle, open_sealed}
use passport_passwords.Keystore.Trait.{fresh_record, probe, upsert}
use passport_passwords.Keystore.Sealed.{seal_keystore, open_keystore, unseal}
use passport_passwords.Keystore.{Keystore, KeystoreError, add, next_automatic_color}
use passport_passwords.Keystore.Sealed
use passport_passwords.Engine.{
  check_str_len, open_password, ask, gate_session, check_optional_len, canonicalize_origin, ◌>>=◌,
  commit_upsert,
}
use passport_passwords.Engine.Handlers.{store_actions, handle_store}
use passport_passwords.Engine.Dispatch.{dispatch, handle}
use passport_passwords.App.Disk.{hosted_store, load_keystore, persist_keystore}
use passport_passwords.App.Disk.Hosted.{hosted_write}
use passport_passwords.App.Disk.Atomic.{hosted_store-IsKeystoreStore}
use passport_passwords.App.Server.{ShellWorld, Others, persist_and_refresh, on_write, shell_engine}
use passport_passwords.App.Server.Synced.{OthersKeep, serve_blocking-IsSynced}
use passport_passwords.Transport.{Wire, dispatch_payload, serve_payloads, serve_blocking}
use passport_passwords.Transport.Reader.{Read, got, take_line, read_byte, read_bytes, reader_loop}
use passport_passwords.Transport.Writer.{write_chunks, chunks, packets}
use passport_passwords.Tests.Fixtures.{toy_crypto, toy_laws, toy_session, alice}
use passport_passwords.Tests.JsonFixture.{
  put_records, get_records, get_record, get_notes, get_text, toy_json, toy_json-IsJson,
}
use passport_passwords.Tests.EngineRuns.{sealed_secret}
use passport_passwords.Tests.TransportRuns.{toy_endpoint, toy_json_of}
use passport_passwords.Tests.VaultRuns.{toy_platform, fresh, master, fresh_loads}

abbrev save_bob : ℕ → Request
save_bob nonce = record {
  id = text "9";
  method = store_credential (record {
    origin = text "a.io";
    username = text "bob";
    label = none;
    password_sealed = sealed_secret;
    request_nonce = nonce;
  });
}

-- The text `first` is a request to save, and every other text asks for it again.
abbrev saving_wire : Wire
saving_wire = record {
  parse_request = λ s. some (save_bob (if text_eq s (text "first") then 4 else 5));
  parse_id = λ s. none;
  to_vec = toy_json_of;
}

-- The user approves, and the other threads do nothing.
abbrev approving : Others toy_platform (Unit {0})
approving = record {
  request = λ req w. (approve, w);
  cancel_pending = λ w. w;
  before_hook = λ w. w;
  after_hook = λ w. w;
}

-- The keystore is empty and the first write to the disk is cut short.
abbrev fresh_world : ShellWorld toy_platform (Unit {0})
fresh_world = record {
  store = record { keystore = fresh.keystore; at = 0 };
  session = toy_session;
  rng = 0;
  outer = record { disk = fresh.disk; refreshes = 0; rest = tt };
}

abbrev saving_reads : List Read
saving_reads = got (text "first\nagain\n") ∷ []

abbrev saving_clock : ℕ → ℕ
saving_clock n = 2000

-- The first request fails and leaves nothing, the second one stays.
saving_run :
    let (transfers, w, port) =
      serve_blocking
        (shell_engine toy_platform (Unit {0}) approving)
        saving_wire
        toy_endpoint
        saving_clock
        saving_reads
        fresh_world
        0 in
    (packets transfers ≡ text "err 9\nok 9\n")
    × (map (λ r. r.password) w.store.keystore.records ≡ text "secret" ∷ [])
    × (w.outer.refreshes ≡ 1)
unfolding serve_payloads dispatch_payload handle dispatch text_eq take_line read_byte read_bytes
    reader_loop chunks write_chunks frame handle_store ◌>>=◌ canonicalize_origin parse origin_of
    to_lower check_str_len check_optional_len gate_session check_idle accept_nonce open_password
    open_sealed valid_utf8 ask commit_upsert upsert store_actions probe on_write persist_and_refresh
    persist_keystore seal_keystore Sealed.seal fill_bytes hosted_write
saving_run = (refl, refl, refl)

approving_keeps :
    OthersKeep toy_platform toy_laws toy_json-IsJson hosted_store-IsKeystoreStore master
      (Unit {0})
      approving
approving_keeps = record {
  asking = λ req w h. h;
  cancelling = λ w h. h;
  quiet_before = λ w. (refl, refl);
  quiet_after = λ w. (refl, refl);
}

serve_blocking-IsSynced_example :
    let (transfers, w, port) =
      serve_blocking
        (shell_engine toy_platform (Unit {0}) approving)
        saving_wire
        toy_endpoint
        saving_clock
        saving_reads
        fresh_world
        0 in
    load_keystore toy_crypto toy_json hosted_store w.outer.disk master ≡ ok w.store.keystore
serve_blocking-IsSynced_example =
    serve_blocking-IsSynced toy_platform toy_laws toy_json-IsJson hosted_store-IsKeystoreStore
      master (Unit {0}) approving approving_keeps saving_wire toy_endpoint saving_clock saving_reads
      fresh_world 0 fresh_loads

-- A callback of the window that saves a password of its own, between the write of the engine and
-- the hook.
abbrev saving_before : Others toy_platform (Unit {0})
saving_before = record approving {
  before_hook = λ w.
      (persist_and_refresh toy_platform (Unit {0})
        (record w { store = record w.store { keystore = add w.store.keystore alice } })).1;
}

-- The write of the callback reaches the disk and that of the hook does not.
abbrev second_write_cut : ShellWorld toy_platform (Unit {0})
second_write_cut = record fresh_world {
  outer = record fresh_world.outer { disk = (fresh.disk.0, none ∷ (some (2, 5) ∷ [])) };
}

abbrev parted_world : ShellWorld toy_platform (Unit {0})
parted_world =
    (commit_upsert (shell_engine toy_platform (Unit {0}) saving_before) (text "https://a.io")
      (text "bob") (text "secret") none second_write_cut).1

abbrev loaded_usernames : Result KeystoreError Keystore → List Text
loaded_usernames (ok ks) = map (λ r. r.username) ks.records
loaded_usernames (err e) = []

-- The rollback of the engine takes the password of the callback out of memory, while the disk
-- holds it, and the one that the host was told is not saved.
parted_run :
    (map (λ r. r.username) parted_world.store.keystore.records ≡ [])
    × (loaded_usernames
          (load_keystore toy_crypto toy_json hosted_store parted_world.outer.disk master)
        ≡ text "bob" ∷ (text "alice" ∷ []))
unfolding commit_upsert upsert on_write persist_and_refresh persist_keystore seal_keystore
    Sealed.seal fill_bytes hosted_write add load_keystore open_keystore unseal put_records
    get_records get_record get_notes get_text next_automatic_color fresh_record
parted_run = (refl, refl)
