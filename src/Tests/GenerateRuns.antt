-- ===== src/Tests/GenerateRuns.antt =====
-- A run of `generate_password`.
use passport_passwords.Base.{ℕ, ◌≡◌, refl, text, [], true, none, some, Result, ok, err, text_eq}
use passport_passwords.Crypto.{fill_bytes}
use passport_passwords.Origin.{parse}
use passport_passwords.Protocol.Message.{GeneratePasswordParams, GeneratePasswordResult, saved}
use passport_passwords.Approval.{approve}
use passport_passwords.Session.{seal, accept_nonce, check_idle, open_sealed}
use passport_passwords.Keystore.Trait.{KeystoreState, probe, upsert}
use passport_passwords.Keystore.Trait.Contract.{keystore_store-IsCredentialStore}
use passport_passwords.Engine.{
  Failure, World, ◌>>=◌, canonicalize_origin, check_str_len, check_optional_len, gate_session, ask,
  seal_password, commit_upsert,
}
use passport_passwords.Engine.Handlers.{
  check_store_request, generate_actions, generated_length, draw_password, handle_generate,
}
use passport_passwords.Engine.Password.{
  classes_of, generate_password, alphabet_of, pick_byte, pick_loop, pick_each, pick_more, shuffle,
  shuffle_loop, random_index, index_loop, word_at, swap, byte_at,
}
use passport_passwords.Engine.Password.Strength.{Strong}
use passport_passwords.Engine.Commit.{Written}
use passport_passwords.Engine.Release.{peer}
use passport_passwords.Engine.Generating.{Generated, charset_of, clamped, generate_sound}
use passport_passwords.Tests.Fixtures.{toy_crypto, toy_laws, toy_env, toy_engine, toy_world}

abbrev carol_params : GeneratePasswordParams
carol_params = record {
  origin = text "a.io";
  username = text "carol";
  label = none;
  length = some 16;
  charset = none;
  request_nonce = 4;
}

abbrev result_of : Result Failure GeneratePasswordResult → GeneratePasswordResult
result_of (ok r) = r
result_of (err why) = record { password_sealed = []; action = saved }

abbrev carol_result : GeneratePasswordResult
carol_result = result_of (handle_generate (toy_engine approve true) carol_params 2000 toy_world).0

abbrev carol_world : World KeystoreState (Unit {0})
carol_world = (handle_generate (toy_engine approve true) carol_params 2000 toy_world).1

generated_run :
    handle_generate (toy_engine approve true) carol_params 2000 toy_world
    ≡ (ok carol_result, carol_world)
unfolding handle_generate check_store_request ◌>>=◌ canonicalize_origin parse text_eq check_str_len
    check_optional_len gate_session check_idle accept_nonce probe generate_actions ask draw_password
    generated_length generate_password classes_of alphabet_of pick_byte pick_loop pick_each
    pick_more shuffle shuffle_loop random_index index_loop word_at swap byte_at commit_upsert upsert
    seal_password seal fill_bytes
generated_run = refl

generate_sound_example :
    (d : Generated (toy_engine approve true) carol_params 2000 toy_world carol_result carol_world)
    × Strong (charset_of carol_params) (clamped (some 16)) d.password
    × Written
        (toy_engine approve true)
        d.canonical
        (text "carol")
        d.password
        d.approved.store
        d.committed.store
    × ((n seen now' : ℕ)
        → (open_sealed toy_crypto
            (peer d.committed.session n seen)
            carol_result.password_sealed
            now').0
          ≡ ok d.password)
generate_sound_example =
    generate_sound (toy_engine approve true) toy_laws (keystore_store-IsCredentialStore toy_env)
      (λ w. refl) carol_params 2000 toy_world generated_run
