-- ===== src/Engine/Handlers.antt =====
-- The three handlers of logic/vaults-bridge-core/src/engine.rs that ask the user.
use passport_passwords.Base.{
  ℕ, Text, String, List, [], ◌∷◌, Bool, true, false, not, ◌||◌, Option, none, some, Result, ok, err,
  ltb, if◌then◌else◌, length, is_empty, text_eq, find,
}
use passport_passwords.Protocol.Message.{
  ErrorCode, invalid_request, unknown_origin, bad_policy, multiple_matches, ReleaseCredentialResult,
  StoreCredentialParams, StoreCredentialResult, StoreAction, saved, updated, restored_and_updated,
  GeneratePasswordParams, GeneratePasswordResult, CharsetHint, default_charset,
}
use passport_passwords.Approval.{
  ApprovalAction, release, save, update, restore_and_update, generate, generate_and_update,
  generate_and_restore,
}
use passport_passwords.Store.{
  CredentialStore, CredentialMatch, ExistingCredential, absent, live, archived,
}
use passport_passwords.Base.Utf8.{valid_utf8}
use passport_passwords.Engine.{
  Failure, refused, no_return, Engine, Handler, ◌>>=◌ as bind, pure, lift, gets, max_username_bytes,
  max_label_bytes, max_password_bytes, canonicalize_origin, check_str_len, check_optional_len,
  gate_session, ask, seal_password, open_password, commit_upsert,
}
use passport_passwords.Engine.Password.{
  min_generated_length, max_generated_length, default_generated_length, generate_password,
}

-- `if test { return Err((code, message)) }`
abbrev pub refuse_if : Bool → ErrorCode → String → Result Failure (Unit {0})
refuse_if true code message = err (refused code message)
refuse_if false code message = ok tt

-- The one record to release, of those for the origin.
unfoldable pub choose : List CredentialMatch → Option Text → Result Failure CredentialMatch
choose [] hint = err (refused unknown_origin "no records for origin")
choose (m ∷ ms) (some h) = elim (find (λ r. text_eq r.username h) (m ∷ ms)) [
  | none ↦ err (refused unknown_origin "no matching username for origin")
  | some r ↦ ok r
]
choose (m ∷ []) none = ok m
choose (m ∷ _ ∷ _) none = err (refused multiple_matches "multiple credentials match this origin")

-- What the user is asked, and what the host is told, for each state of the record to store.
unfoldable pub store_actions : ExistingCredential → ApprovalAction × StoreAction
store_actions absent = (save, saved)
store_actions live = (update, updated)
store_actions archived = (restore_and_update, restored_and_updated)

unfoldable pub generate_actions : ExistingCredential → ApprovalAction × StoreAction
generate_actions absent = (generate, saved)
generate_actions live = (generate_and_update, updated)
generate_actions archived = (generate_and_restore, restored_and_updated)

abbrev pub or_default {ℓ} : {A : Type ℓ} → Option A → A → A
or_default none d = d
or_default (some a) d = a

-- `length.unwrap_or(DEFAULT).clamp(MIN, MAX)`
unfoldable pub generated_length : Option ℕ → ℕ
generated_length length =
    let n = or_default length default_generated_length in
    if ltb n min_generated_length
    then min_generated_length
    else if ltb max_generated_length n
    then max_generated_length
    else n

module _ {C : CredentialStore} (E : Engine C) where
  -- The binds of a handler of this engine.
  infixl 5 ◌>>=◌ ◌>>◌
  abbrev ◌>>=◌ {ℓ κ} : {A : Type ℓ} {B : Type κ} → Handler E A → (A → Handler E B) → Handler E B
  m >>= f = bind E m f

  abbrev ◌>>◌ {ℓ} : {B : Type ℓ} → Handler E (Unit {0}) → Handler E B → Handler E B
  m >> k = bind E m (λ _. k)

  -- `Engine::handle_release`
  unfoldable pub handle_release : Text → Option Text → ℕ → ℕ → Handler E ReleaseCredentialResult
  handle_release origin username_hint request_nonce now_ms = do
    canonical ← lift E (canonicalize_origin E.url_parse origin)
    lift E (check_optional_len "username_hint" username_hint max_username_bytes)
    gate_session E request_nonce now_ms
    candidates ← gets E (λ store. C.find_by_origin store canonical)
    chosen ← lift E (choose candidates username_hint)
    ask E (record {
      action = release;
      origin = canonical;
      username = chosen.username;
      request_nonce = request_nonce;
    })
    password_sealed ← seal_password E chosen.password now_ms
    pure E (record { username = chosen.username; password_sealed = password_sealed })

  -- The checks that a store and a generation begin with.
  unfoldable pub check_store_request : Text → Text → Option Text → ℕ → ℕ → Handler E Text
  check_store_request origin username label request_nonce now_ms = do
    canonical ← lift E (canonicalize_origin E.url_parse origin)
    lift E (refuse_if (is_empty username) invalid_request "username is required")
    lift E (check_str_len "username" username max_username_bytes)
    lift E (check_optional_len "label" label max_label_bytes)
    gate_session E request_nonce now_ms
    pure E canonical

  -- `Engine::handle_store`
  unfoldable pub handle_store : StoreCredentialParams → ℕ → Handler E StoreCredentialResult
  unfolding check_store_request
  handle_store p now_ms = do
    canonical ← check_store_request p.origin p.username p.label p.request_nonce now_ms
    password_plain ← open_password E p.password_sealed now_ms
    lift E (refuse_if (not (valid_utf8 password_plain)) invalid_request "password is not utf-8")
    lift E (
        refuse_if (ltb max_password_bytes (length password_plain)) invalid_request
          "password too long")
    existing ← gets E (λ store. C.probe store canonical p.username)
    let actions = store_actions existing
    ask E (record {
      action = actions.0;
      origin = canonical;
      username = p.username;
      request_nonce = p.request_nonce;
    })
    commit_upsert E canonical p.username password_plain p.label
    pure E (record { action = actions.1 })

  -- `generate_password` draws from the tape of the world.
  unfoldable pub draw_password : ℕ → CharsetHint → Handler E Text
  draw_password len hint w = elim (generate_password E.crypto len hint w.rng) [
    | none ↦ (err no_return, w)
    | some (password, rng) ↦ (ok password, record w { rng = rng })
  ]

  -- `Engine::handle_generate`
  unfoldable pub handle_generate : GeneratePasswordParams → ℕ → Handler E GeneratePasswordResult
  unfolding check_store_request
  handle_generate p now_ms = do
    canonical ← check_store_request p.origin p.username p.label p.request_nonce now_ms
    let charset = or_default p.charset default_charset
    lift E (
        refuse_if (not (charset.letters || charset.digits || charset.symbols)) bad_policy
          "at least one charset class must be enabled")
    existing ← gets E (λ store. C.probe store canonical p.username)
    let actions = generate_actions existing
    ask E (record {
      action = actions.0;
      origin = canonical;
      username = p.username;
      request_nonce = p.request_nonce;
    })
    password ← draw_password (generated_length p.length) charset
    commit_upsert E canonical p.username password p.label
    password_sealed ← seal_password E password now_ms
    pure E (record { password_sealed = password_sealed; action = actions.1 })
