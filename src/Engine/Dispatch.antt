-- ===== src/Engine/Dispatch.antt =====
-- `Engine::dispatch` and `Engine::handle` of logic/vaults-bridge-core/src/engine.rs.
pub mod Listing
use passport_passwords.Base.{
  ℕ, Text, map, Bool, true, false, not, Option, none, some, Result, ok, err, map_err, ltb, ◌==◌,
  if◌then◌else◌, text_lt,
}
use passport_passwords.Base.Sort.{sort_by}
use passport_passwords.Protocol.Message.{
  Request, Method, ping, establish_session, list_origins, list_credentials, release_credential,
  store_credential, generate_password, cancel, Response, success, failure, ResponseBody, pong,
  session_established, origins_listed, credentials_listed, credential_released, credential_stored,
  password_generated, empty, WireCredentialSummary, code_number,
}
use passport_passwords.Session
use passport_passwords.Store.{CredentialStore, CredentialSummary}
use passport_passwords.Engine.{
  Failure, refused, no_return, World, Engine, Handler, ◌>>=◌ as bind, pure, lift, gets,
  session_info, canonicalize_origin, gate_active_session, map_session_err,
}
use passport_passwords.Engine.Handlers.{handle_release, handle_store, handle_generate}
use passport_passwords.Keystore.Trait.{sort_texts}

-- The comparison of `list_credentials`: the latest first, then by username; true is `a <= b`.
abbrev pub shown_before : WireCredentialSummary → WireCredentialSummary → Bool
shown_before a b =
    if ltb b.last_used_at a.last_used_at
    then true
    else if b.last_used_at == a.last_used_at
    then not (text_lt b.username a.username)
    else false

abbrev pub to_wire : CredentialSummary → WireCredentialSummary
to_wire s = record { username = s.username; label = s.label; last_used_at = s.last_used_at }

module _ {C : CredentialStore} (E : Engine C) where
  infixl 5 ◌>>=◌ ◌>>◌
  abbrev ◌>>=◌ {ℓ κ} : {A : Type ℓ} {B : Type κ} → Handler E A → (A → Handler E B) → Handler E B
  m >>= f = bind E m f

  abbrev ◌>>◌ {ℓ} : {B : Type ℓ} → Handler E (Unit {0}) → Handler E B → Handler E B
  m >> k = bind E m (λ _. k)

  -- `session.accept(&host_pubkey, SESSION_INFO, now_ms)` on the session of the world
  unfoldable pub accept_session : Text → ℕ → Handler E Text
  accept_session host_pubkey now_ms w =
      let (result, s, rng) =
        Session.accept E.crypto w.session host_pubkey session_info now_ms w.rng in
      (map_err map_session_err result, record w { session = s; rng = rng })

  -- `self.approver.cancel_pending()`; its answer is not read.
  abbrev pub cancel_approval : Handler E (Unit {0})
  cancel_approval w = (ok tt, E.cancel_pending w)

  -- `Engine::dispatch`
  unfoldable pub dispatch : Method → ℕ → Handler E ResponseBody
  dispatch ping now_ms = pure E (pong true)
  dispatch (establish_session p) now_ms = do
    device_pubkey ← accept_session p.host_pubkey now_ms
    pure E (session_established (record { device_pubkey = device_pubkey }))
  dispatch list_origins now_ms = do
    gate_active_session E now_ms
    origins ← gets E C.list_origins
    pure E (origins_listed (record { origins = sort_texts origins }))
  dispatch (list_credentials p) now_ms = do
    gate_active_session E now_ms
    canonical ← lift E (canonicalize_origin E.url_parse p.origin)
    credentials ← gets E (λ store. C.list_credentials_for_origin store canonical)
    pure E (
        credentials_listed
          (record { credentials = sort_by shown_before (map to_wire credentials) }))
  dispatch (release_credential p) now_ms = do
    result ← handle_release E p.origin p.username_hint p.request_nonce now_ms
    pure E (credential_released result)
  dispatch (store_credential p) now_ms = do
    result ← handle_store E p now_ms
    pure E (credential_stored result)
  dispatch (generate_password p) now_ms = do
    result ← handle_generate E p now_ms
    pure E (password_generated result)
  dispatch cancel now_ms = do cancel_approval; pure E empty

  -- The response to a request: `none` is a handler that does not return.
  abbrev pub respond : Text → Result Failure ResponseBody → Option Response
  respond id (ok body) = some (success id body)
  respond id (err (refused code message)) =
      some (failure id (record { code = code_number code; message = message }))
  respond id (err no_return) = none

  -- `Engine::handle`
  unfoldable pub handle :
      Request → ℕ → World C.Store E.Outer → Option Response × World C.Store E.Outer
  unfolding dispatch
  handle req now_ms w =
      let (result, w') = dispatch req.method now_ms w in (respond req.id result, w')
