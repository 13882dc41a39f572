-- ===== src/Session.antt =====
-- logic/vaults-bridge-core/src/session.rs: the session of the device with the host. A method takes
-- the session, and the place on the tape of random bytes where it draws any, and returns its result
-- with both afterwards.
pub mod Invariant
pub mod Nonces
pub mod Channel
use passport_passwords.Base.{
  ℕ, ◌+◌, ◌-◌, Text, ◌++◌, Bool, true, false, Option, none, some, Result, ok, err, ◌==◌, leb, ltb,
  if◌then◌else◌, length, take, drop, all,
}
use passport_passwords.Crypto.{Crypto, fill_bytes}

pub data SessionError : Type 0 where
  not_active invalid_pubkey seal_failed open_failed bad_hex : SessionError
  nonce_reused : ℕ → ℕ → SessionError
  expired : SessionError

pub data SessionState : Type 0 where
  idle handshaking active expired : SessionState

pub record Session : Type 0 where
  pub state : SessionState
  pub key : Option Text
  pub last_nonce : ℕ
  pub last_activity_ms : ℕ

abbrev pub new : Session
new = record { state = idle; key = none; last_nonce = 0; last_activity_ms = 0 }

unfoldable pub is_active : Session → Bool
is_active s = elim s.state [ active ↦ true | _ ↦ false ]

-- `Session::replace_key`: the old key is wiped, the new one is in its place.
abbrev pub replace_key : Session → Text → Session
replace_key s key = record s { key = some key }

unfoldable pub expire : Session → Session
expire s = record s { key = none; state = SessionState.expired }

-- `Session::accept_nonce`
unfoldable pub accept_nonce : Session → ℕ → ℕ → Result SessionError (Unit {0}) × Session
unfolding is_active
accept_nonce s nonce now_ms =
    if is_active s
    then (if leb nonce s.last_nonce
        then (err (nonce_reused nonce s.last_nonce), s)
        else (ok tt, record s { last_nonce = nonce; last_activity_ms = now_ms }))
    else (err not_active, s)

-- `Session::check_idle`; `-` stops at 0, as `saturating_sub` does
unfoldable pub check_idle : Session → ℕ → ℕ → Bool × Session
unfolding is_active expire
check_idle s now_ms idle_threshold_ms =
    if is_active s
    then (if leb idle_threshold_ms (now_ms - s.last_activity_ms)
        then (true, expire s)
        else (false, s))
    else (false, s)

-- The key that `seal` and `open` use: both tests of their first lines.
abbrev pub active_key : Session → Option Text
active_key s = if is_active s then s.key else none

module _ (c : Crypto) where
  abbrev pub derive_key : Text → Text → Text
  derive_key shared info = c.hkdf shared info

  unfoldable pub parse_pubkey : Text → Result SessionError Text
  parse_pubkey hex_str = elim (c.hex_decode hex_str) [
    | none ↦ err bad_hex
    | some bytes ↦ if length bytes == 32 then ok bytes else err invalid_pubkey
  ]

  -- The end of `accept` and of `complete_host`, on the shared secret. An all-zero secret is refused.
  unfoldable pub establish {ℓ} :
      {A : Type ℓ} → Session → Text → Text → ℕ → A → Result SessionError A × Session
  establish s shared info now_ms answer =
      if all (λ b. b == 0) shared then (err invalid_pubkey, record s { state = idle }) else (
        ok answer,
        record (replace_key s (derive_key shared info)) {
          last_nonce = 0;
          last_activity_ms = now_ms;
          state = active;
        },
      )

  -- `Session::accept`: the device's side of the handshake
  unfoldable pub accept : Session → Text → Text → ℕ → ℕ → Result SessionError Text × Session × ℕ
  unfolding parse_pubkey establish
  accept s host_pubkey_hex info now_ms rng =
      let started = record s { state = handshaking } in
      elim (parse_pubkey host_pubkey_hex) [
        | err e ↦ (err e, started, rng)
        | ok host_pk ↦
            let (secret, rng') = c.random_secret rng in
            let (result, s') =
              establish started (c.diffie_hellman secret host_pk) info now_ms
                (c.hex_encode (c.public_key secret)) in
            (result, s', rng')
      ]

  -- `Session::begin_host`: the session, the host's public key and its secret
  unfoldable pub begin_host : Session → ℕ → (Text × Text) × Session × ℕ
  begin_host s rng =
      let (secret, rng') = c.random_secret rng in
      ((c.public_key secret, secret), record s { state = handshaking }, rng')

  -- `Session::complete_host`
  unfoldable pub complete_host :
      Session → Text → Text → Text → ℕ → Result SessionError (Unit {0}) × Session
  unfolding parse_pubkey establish
  complete_host s secret device_pubkey_hex info now_ms = elim (parse_pubkey device_pubkey_hex) [
    | err e ↦ (err e, s)
    | ok device_pk ↦ establish s (c.diffie_hellman secret device_pk) info now_ms tt
  ]

  -- `Session::seal`: the nonce, the ciphertext and its tag, in hex
  unfoldable pub seal : Session → Text → ℕ → ℕ → Result SessionError Text × Session × ℕ
  unfolding is_active
  seal s plaintext now_ms rng = elim (active_key s) [
    | none ↦ (err not_active, s, rng)
    | some key ↦
        let (nonce_bytes, rng') = fill_bytes c 12 rng in
        elim (c.encrypt key nonce_bytes plaintext) [
          | none ↦ (err seal_failed, s, rng')
          | some ct ↦
              (ok (c.hex_encode (nonce_bytes ++ ct)), record s { last_activity_ms = now_ms }, rng')
        ]
  ]

  -- `Session::open`
  unfoldable pub open_sealed : Session → Text → ℕ → Result SessionError Text × Session
  unfolding is_active
  open_sealed s sealed_hex now_ms = elim (active_key s) [
    | none ↦ (err not_active, s)
    | some key ↦ elim (c.hex_decode sealed_hex) [
      | none ↦ (err bad_hex, s)
      | some raw ↦
          if ltb (length raw) (12 + 16)
          then (err open_failed, s)
          else elim (c.decrypt key (take 12 raw) (drop 12 raw)) [
            | none ↦ (err open_failed, s)
            | some pt ↦ (ok pt, record s { last_activity_ms = now_ms })
          ]
    ]
  ]
