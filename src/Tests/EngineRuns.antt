-- ===== src/Tests/EngineRuns.antt =====
-- Runs of the engine.
use passport_passwords.Crypto.{fill_bytes}
use passport_passwords.Origin.{parse}
use passport_passwords.Base.Utf8.{valid_utf8}
use passport_passwords.Base.{
  [], ◌∷◌, text_eq, ℕ, ◌≡◌, ◌≢◌, refl, Text, text, ◌++◌, true, false, none, ok, err, arith, inl,
}
use passport_passwords.Protocol.Message.{Method, release_credential, StoreCredentialParams, saved}
use passport_passwords.Approval.{approve, reject}
use passport_passwords.Protocol.Message.{store_credential, internal}
use passport_passwords.Engine.{refused}
use passport_passwords.Store.{SameView}
use passport_passwords.Session.{seal, accept_nonce, check_idle, open_sealed}
use passport_passwords.Keystore.Trait.{probe, find_by_origin, KeystoreState, upsert}
use passport_passwords.Keystore.Trait.Contract.{keystore_store-IsCredentialStore}
use passport_passwords.Engine.{
  check_str_len, open_password, seal_password, ask, gate_session, check_optional_len,
  canonicalize_origin, ◌>>=◌, World, commit_upsert,
}
use passport_passwords.Engine.Handlers.{choose, store_actions, handle_release, handle_store}
use passport_passwords.Protocol.Message.{
  ListCredentialsParams, ListCredentialsResult, list_credentials, credentials_listed,
}
use passport_passwords.Base.Sort.{sort_by, insert}
use passport_passwords.Session.{is_active}
use passport_passwords.Keystore.Trait.{list_credentials_for_origin}
use passport_passwords.Engine.{gate_active_session}
use passport_passwords.Engine.Dispatch.Listing.{Listed, list_credentials_lem}
use passport_passwords.Engine.Dispatch.{dispatch}
use passport_passwords.Engine.Release.{Released, IsChoice, peer, release_sound}
use passport_passwords.Engine.Commit.{Written}
use passport_passwords.Engine.Failing.{RefusalKeepsView, dispatch_failed}
use passport_passwords.Engine.Storing.{Stored, store_sound}
use passport_passwords.Engine.Gates.{Refuses, dispatch-Refuses}
use passport_passwords.Engine.Consent.{Answer, no_consent_no_effect}
use passport_passwords.Tests.Fixtures.{
  toy_crypto, toy_laws, toy_env, toy_store, toy_engine, toy_world, bytes_of,
}

abbrev pub sealed_secret : Text
sealed_secret = bytes_of 12 7 ++ (text "secret" ++ bytes_of 16 0)

abbrev released_world : World KeystoreState (Unit {0})
released_world = record toy_world {
  session = record toy_world.session { last_nonce = 4; last_activity_ms = 2000 };
  rng = 12;
}

released_run :
    handle_release (toy_engine approve true) (text "A.io") none 4 2000 toy_world
    ≡ (ok (record { username = text "alice"; password_sealed = sealed_secret }), released_world)
unfolding handle_release ◌>>=◌ canonicalize_origin parse text_eq check_optional_len gate_session
    check_idle accept_nonce choose find_by_origin ask seal_password seal fill_bytes
released_run = refl

release_sound_example :
    (d : Released
      (toy_engine approve true)
      (text "A.io")
      none
      4
      2000
      toy_world
      (record { username = text "alice"; password_sealed = sealed_secret })
      released_world)
    × IsChoice (toy_store.find_by_origin d.gated.store d.canonical) none d.cred
    × ((n seen now' : ℕ)
        → (open_sealed toy_crypto (peer d.approved.session n seen) sealed_secret now').0
          ≡ ok d.cred.password)
release_sound_example =
    release_sound (toy_engine approve true) toy_laws (text "A.io") none 4 2000 toy_world
      released_run

abbrev pub bob_params : StoreCredentialParams
bob_params = record {
  origin = text "a.io";
  username = text "bob";
  label = none;
  password_sealed = sealed_secret;
  request_nonce = 4;
}

abbrev pub stored_world : World KeystoreState (Unit {0})
stored_world = (handle_store (toy_engine approve true) bob_params 2000 toy_world).1

pub stored_run :
    handle_store (toy_engine approve true) bob_params 2000 toy_world
    ≡ (ok (record { action = saved }), stored_world)
unfolding handle_store ◌>>=◌ canonicalize_origin parse text_eq check_str_len check_optional_len
    gate_session check_idle accept_nonce open_password open_sealed valid_utf8 ask commit_upsert
    upsert store_actions probe
stored_run = refl

store_sound_example :
    (d : Stored
      (toy_engine approve true)
      bob_params
      2000
      toy_world
      (record { action = saved })
      stored_world)
    × Written
        (toy_engine approve true)
        d.canonical
        (text "bob")
        d.plain
        d.approved.store
        stored_world.store
store_sound_example =
    store_sound (toy_engine approve true) (keystore_store-IsCredentialStore toy_env) (λ w. refl)
      bob_params 2000 toy_world stored_run

-- The store of the keystore never refuses a write.
toy_store-RefusalKeepsView : RefusalKeepsView (toy_engine approve false)
unfolding upsert
toy_store-RefusalKeepsView s t o u p l e h = absurd (ground arith)

-- The write of a login whose hook fails.
unsaved_run :
    (dispatch (toy_engine approve false) (store_credential bob_params) 2000 toy_world).0
    ≡ err (refused internal "persist failed")
unfolding dispatch handle_store ◌>>=◌ canonicalize_origin parse text_eq check_str_len
    check_optional_len gate_session check_idle accept_nonce open_password open_sealed valid_utf8 ask
    commit_upsert upsert store_actions probe
unsaved_run = refl

dispatch_failed_example :
    SameView toy_store
      (dispatch (toy_engine approve false) (store_credential bob_params) 2000 toy_world).1.store
      toy_world.store
dispatch_failed_example =
    dispatch_failed (toy_engine approve false)
      (record { request_keeps = λ req w. refl; cancel_keeps = λ w. refl })
      (keystore_store-IsCredentialStore toy_env) toy_store-RefusalKeepsView
      (store_credential bob_params) 2000 toy_world (λ p. cc) unsaved_run

abbrev replayed : Method
replayed =
    release_credential (record { origin = text "a.io"; username_hint = none; request_nonce = 3 })

dispatch-Refuses_example :
    Refuses (toy_engine approve true) (dispatch (toy_engine approve true) replayed 2000) toy_world
dispatch-Refuses_example =
    dispatch-Refuses (toy_engine approve true) replayed 2000 toy_world (inl (omega arith))

reject_ne_approve : reject ≢ approve
reject_ne_approve e = cc

no_consent_no_effect_example :
    ((dispatch
        (toy_engine reject true)
        (release_credential
          (record { origin = text "a.io"; username_hint = none; request_nonce = 4 }))
        2000
        toy_world).1.store
      ≡ toy_world.store)
    × Answer
        (toy_engine reject true)
        (release_credential
          (record { origin = text "a.io"; username_hint = none; request_nonce = 4 }))
        (dispatch
          (toy_engine reject true)
          (release_credential
            (record { origin = text "a.io"; username_hint = none; request_nonce = 4 }))
          2000
          toy_world).0
no_consent_no_effect_example =
    no_consent_no_effect (toy_engine reject true)
      (record {
        refuses = λ req w. reject_ne_approve;
        request_keeps = λ req w. refl;
        cancel_keeps = λ w. refl;
      })
      (release_credential
        (record { origin = text "a.io"; username_hint = none; request_nonce = 4 }))
      2000 toy_world

abbrev listed_params : ListCredentialsParams
listed_params = record { origin = text "a.io" }

abbrev listed_result : ListCredentialsResult
listed_result = record {
  credentials = record { username = text "alice"; label = text "A"; last_used_at = 10 } ∷ [];
}

listed_run :
    dispatch (toy_engine approve true) (list_credentials listed_params) 2000 toy_world
    ≡ (ok (credentials_listed listed_result), toy_world)
unfolding dispatch ◌>>=◌ gate_active_session check_idle is_active canonicalize_origin parse text_eq
    list_credentials_for_origin sort_by insert
listed_run = refl

list_credentials_lem_example :
    Listed
      (toy_engine approve true)
      (text "a.io")
      2000
      toy_world
      listed_result.credentials
      toy_world
list_credentials_lem_example =
    list_credentials_lem (toy_engine approve true) listed_params 2000 toy_world listed_run
