-- ===== src/Engine.antt =====
-- logic/vaults-bridge-core/src/engine.rs: the state that the engine works on, its gates and its
-- helpers. The children hold the handlers, the generator of passwords and the proofs.
pub mod Password
pub mod Handlers
pub mod Dispatch
pub mod Rules
pub mod Release
pub mod Gates
pub mod Consent
pub mod Preserving
pub mod Commit
pub mod Storing
pub mod Generating
pub mod Failing
pub mod RoundTrip
use passport_passwords.Base.{
  ℕ, ◌*◌, Text, text, String, List, Bool, true, false, not, Option, none, some, Result, ok, err,
  map_err, ltb, leb, if◌then◌else◌, length,
}
use Prim.Native.String.{◌++◌ as ◌+text+◌}
use passport_passwords.Protocol.Message.{
  ErrorCode, invalid_request, user_rejected, session_expired, nonce_reused, internal,
}
use passport_passwords.Crypto.{Crypto}
use passport_passwords.Origin
use passport_passwords.Origin.{UrlParser}
use passport_passwords.Session
use passport_passwords.Session.{
  Session, SessionError, not_active, invalid_pubkey, seal_failed, open_failed, bad_hex, is_active,
  check_idle, accept_nonce, seal, open_sealed,
}
use passport_passwords.Approval.{ApprovalRequest, ApprovalDecision, approve, reject}
use passport_passwords.Store.{CredentialStore}

abbrev pub session_info : Text
session_info = text "vaults-bridge v1 session"

abbrev pub default_idle_ms : ℕ
default_idle_ms = 15 * 60 * 1000

abbrev pub max_origin_bytes : ℕ
max_origin_bytes = 512

abbrev pub max_username_bytes : ℕ
max_username_bytes = 256

abbrev pub max_label_bytes : ℕ
max_label_bytes = 128

abbrev pub max_password_bytes : ℕ
max_password_bytes = 512

-- A handler ends with the code and the message of an error, or never, if a loop of rejections
-- outruns its fuel.
pub data Failure : Type 0 where
  refused : ErrorCode → String → Failure
  no_return : Failure

-- What the handlers share: the store, the session, the place on the tape of random bytes, and
-- whatever else the hook, the user and the other threads work on.
pub record World (Store Outer : Type 0) : Type 0 where
  pub store : Store
  pub session : Session
  pub rng : ℕ
  pub outer : Outer

-- `Engine<S>` with what it is built from. The approver and the hook act on the whole world: the
-- engine holds no lock while it waits for the user, so other threads may move in between.
pub record Engine (C : CredentialStore) : Type 1 where
  pub crypto : Crypto
  pub url_parse : UrlParser
  pub idle_ms : ℕ
  pub Outer : Type 0
  pub request : ApprovalRequest → World C.Store Outer → ApprovalDecision × World C.Store Outer
  pub cancel_pending : World C.Store Outer → World C.Store Outer
  -- `on_write`; `false` is `PersistError`
  pub on_write : World C.Store Outer → Bool × World C.Store Outer

-- `Origin::parse` behind the cap on the length
unfoldable pub canonicalize_origin : UrlParser → Text → Result Failure Text
canonicalize_origin url_parse input =
    if ltb max_origin_bytes (length input)
    then err (refused invalid_request "origin too long")
    else map_err (λ _. refused invalid_request "invalid origin") (Origin.parse url_parse input)

unfoldable pub check_str_len : String → Text → ℕ → Result Failure (Unit {0})
check_str_len name s max =
    if ltb max (length s) then err (refused invalid_request (◌+text+◌ name " too long")) else ok tt

-- `if let Some(s) = .. { check_str_len(..)? }`
unfoldable pub check_optional_len : String → Option Text → ℕ → Result Failure (Unit {0})
unfolding check_str_len
check_optional_len name none max = ok tt
check_optional_len name (some s) max = check_str_len name s max

unfoldable pub map_session_err : SessionError → Failure
map_session_err (Session.nonce_reused got last) = refused nonce_reused "nonce reused"
map_session_err Session.SessionError.expired = refused session_expired "session expired"
map_session_err not_active = refused session_expired "session not active"
map_session_err invalid_pubkey = refused invalid_request "invalid public key"
map_session_err bad_hex = refused invalid_request "invalid hex"
map_session_err seal_failed = refused internal "seal failed"
map_session_err open_failed = refused internal "open failed"

-- `if decision == Reject .. if decision == Timeout ..`
unfoldable pub check_decision : ApprovalDecision → Result Failure (Unit {0})
check_decision approve = ok tt
check_decision reject = err (refused user_rejected "user rejected")
check_decision ApprovalDecision.timeout = err (refused ErrorCode.timeout "approval timed out")

module _ {C : CredentialStore} (E : Engine C) where
  -- A handler: it works on the world, and what it has done stays done when it fails.
  abbrev pub Handler {ℓ} : Type ℓ → Type ℓ
  Handler A = World C.Store E.Outer → Result Failure A × World C.Store E.Outer

  abbrev pub continue {ℓ κ} :
      {A : Type ℓ} {B : Type κ}
      → Result Failure A
      → World C.Store E.Outer
      → (A → Handler B)
      → Result Failure B × World C.Store E.Outer
  continue (ok a) w f = f a w
  continue (err e) w f = (err e, w)

  infixl 5 ◌>>=◌ ◌>>◌
  unfoldable pub ◌>>=◌ {ℓ κ} : {A : Type ℓ} {B : Type κ} → Handler A → (A → Handler B) → Handler B
  ◌>>=◌ m f w = let (r, w') = m w in continue r w' f

  abbrev pub ◌>>◌ {ℓ} : {B : Type ℓ} → Handler (Unit {0}) → Handler B → Handler B
  m >> k = m >>= λ _. k

  abbrev pub pure {ℓ} : {A : Type ℓ} → A → Handler A
  pure a w = (ok a, w)

  abbrev pub lift {ℓ} : {A : Type ℓ} → Result Failure A → Handler A
  lift r w = (r, w)

  abbrev pub gets {ℓ} : {A : Type ℓ} → (C.Store → A) → Handler A
  gets f w = (ok (f w.store), w)

  -- `Engine::gate_session`
  unfoldable pub gate_session : ℕ → ℕ → Handler (Unit {0})
  gate_session request_nonce now_ms w =
      let (quiet, s) = check_idle w.session now_ms E.idle_ms in
      let (result, s') = accept_nonce s request_nonce now_ms in
      if quiet
      then (err (refused session_expired "session idle timeout"), record w { session = s })
      else (map_err map_session_err result, record w { session = s' })

  -- `Engine::gate_active_session`
  unfoldable pub gate_active_session : ℕ → Handler (Unit {0})
  gate_active_session now_ms w =
      let (quiet, s) = check_idle w.session now_ms E.idle_ms in
      if not (is_active w.session)
      then (err (refused session_expired "session not active"), w)
      else if quiet
      then (err (refused session_expired "session idle timeout"), record w { session = s })
      else (ok tt, record w { session = s })

  -- `self.approver.request(..).await`, and the two refusals behind it
  unfoldable pub ask : ApprovalRequest → Handler (Unit {0})
  unfolding check_decision
  ask req w = let (decision, w') = E.request req w in (check_decision decision, w')

  -- `session.seal(..)` and `session.open(..)` on the session of the world
  unfoldable pub seal_password : Text → ℕ → Handler Text
  seal_password plain now_ms w =
      let (result, s, rng) = seal E.crypto w.session plain now_ms w.rng in
      (map_err map_session_err result, record w { session = s; rng = rng })

  unfoldable pub open_password : Text → ℕ → Handler Text
  open_password sealed now_ms w =
      let (result, s) = open_sealed E.crypto w.session sealed now_ms in
      (map_err map_session_err result, record w { session = s })

  -- `Engine::commit_store_mutation`, for the mutation that the engine makes: an upsert. The
  -- hook must succeed before anything is reported; otherwise the snapshot comes back.
  unfoldable pub commit_upsert : Text → Text → Text → Option Text → Handler (Unit {0})
  commit_upsert origin username password label w =
      let snapshot = C.snapshot w.store in
      let (result, store) = C.upsert w.store origin username password label in
      let (persisted, w') = E.on_write (record w { store = store }) in
      elim result [
        | err _ ↦ (err (refused internal "store backend"), record w { store = store })
        | ok _ ↦
            if not persisted
            then (
              err (refused internal "persist failed"),
              record w' { store = C.restore_snapshot w'.store snapshot },
            )
            else (ok tt, w')
      ]
