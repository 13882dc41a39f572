-- ===== src/Tests/RoundTripRuns.antt =====
-- A store, and then a release of what was stored.
use passport_passwords.Base.{ℕ, ◌≡◌, refl, text, true, some, ok, text_eq}
use passport_passwords.Base.Utf8.{valid_utf8}
use passport_passwords.Crypto.{fill_bytes}
use passport_passwords.Origin.{parse}
use passport_passwords.Protocol.Message.{ReleaseCredentialResult, saved}
use passport_passwords.Approval.{approve}
use passport_passwords.Session.{seal, accept_nonce, check_idle, open_sealed}
use passport_passwords.Keystore.Trait.{KeystoreState, probe, find_by_origin, upsert}
use passport_passwords.Keystore.Trait.Contract.{keystore_store-IsCredentialStore}
use passport_passwords.Engine.{
  World, ◌>>=◌, canonicalize_origin, check_str_len, check_optional_len, gate_session, ask,
  seal_password, open_password, commit_upsert,
}
use passport_passwords.Engine.Handlers.{
  check_store_request, store_actions, choose, handle_release, handle_store,
}
use passport_passwords.Engine.Release.{Released, peer}
use passport_passwords.Engine.Storing.{Stored}
use passport_passwords.Engine.RoundTrip.{handle_release-handle_store}
use passport_passwords.Tests.Fixtures.{toy_crypto, toy_laws, toy_env, toy_engine, toy_world}
use passport_passwords.Tests.EngineRuns.{bob_params, stored_world, stored_run, sealed_secret}

abbrev bob_result : ReleaseCredentialResult
bob_result = record { username = text "bob"; password_sealed = sealed_secret }

abbrev bob_world : World KeystoreState (Unit {0})
bob_world =
    (handle_release (toy_engine approve true) (text "a.io") (some (text "bob")) 5 3000
      stored_world).1

bob_run :
    handle_release (toy_engine approve true) (text "a.io") (some (text "bob")) 5 3000 stored_world
    ≡ (ok bob_result, bob_world)
unfolding handle_release handle_store check_store_request ◌>>=◌ canonicalize_origin parse text_eq
    check_str_len check_optional_len gate_session check_idle accept_nonce choose store_actions probe
    find_by_origin ask commit_upsert upsert open_password open_sealed valid_utf8 seal_password seal
    fill_bytes
bob_run = refl

handle_release-handle_store_example :
    (d : Stored
      (toy_engine approve true)
      bob_params
      2000
      toy_world
      (record { action = saved })
      stored_world)
    × (x : Released
        (toy_engine approve true)
        (text "a.io")
        (some (text "bob"))
        5
        3000
        stored_world
        bob_result
        bob_world)
    × (bob_result.username ≡ text "bob")
    × ((n seen at : ℕ)
        → (open_sealed toy_crypto (peer x.approved.session n seen) sealed_secret at).0 ≡ ok d.plain)
handle_release-handle_store_example =
    handle_release-handle_store (toy_engine approve true) toy_laws
      (keystore_store-IsCredentialStore toy_env) (λ w. refl) bob_params 2000 5 3000 toy_world
      stored_run bob_run
