-- ===== src/Session/Channel.antt =====
-- The secure channel: both sides of a handshake agree on a key, and what one side seals the other
-- opens.
use passport_passwords.Base.{
  ℕ, ◌≡◌, Text, ◌++◌, false, some, ok, arith, length-append, take-append_left, drop-append_left,
  Option-cases, inl, inr, all, ◌==◌,
}
use passport_passwords.Crypto.{Crypto, IsCrypto, fill_bytes, length-fill_bytes}
use passport_passwords.Session.{
  active, Session, derive_key, establish, accept, begin_host, complete_host, active_key, seal,
  open_sealed,
}

module _ (c : Crypto) (laws : IsCrypto c) where
  open laws use {
    decrypt-encrypt, length-encrypt, hex_decode-hex_encode, length-public_key, diffie_hellman_comm,
  }

  -- By the laws of the crates of cryptography, in a run of the handshake the host begins, the
  -- device accepts its public key, and the host completes with the public key that the device
  -- answered. Unless the shared secret is all zeros, both sessions are then active with the same
  -- key and have accepted no nonce yet.
  pub handshake_agrees :
      (host device : Session) (info : Text) (now now' rng rng' : ℕ)
      → let (keys, host', _) = begin_host c host rng in
        let (answer, device', _) = accept c device (c.hex_encode keys.0) info now rng' in
        let host_shared = c.diffie_hellman keys.1 (c.public_key (c.random_secret rng').0) in
        all (λ b. b == 0) host_shared ≡ false
        → (public : Text) × (answer ≡ ok public)
          × (let (result, host'') = complete_host c host' keys.1 public info now' in
              (result ≡ ok tt)
              × (device'.state ≡ active)
              × (host''.state ≡ active)
              × (device'.key ≡ some (derive_key c host_shared info))
              × (host''.key ≡ device'.key)
              × (device'.last_nonce ≡ 0)
              × (host''.last_nonce ≡ 0))
  unfolding begin_host accept complete_host establish
  handshake_agrees host device info now now' rng rng' nonzero =
      let sent = c.public_key (c.random_secret rng).0 in
      let answered = c.public_key (c.random_secret rng').0 in
      (
        c.hex_encode answered,
        ground (
          arith,
          hex_decode-hex_encode sent,
          length-public_key (c.random_secret rng).0,
          diffie_hellman_comm (c.random_secret rng).0 (c.random_secret rng').0,
        ),
        ground (
          arith,
          hex_decode-hex_encode sent,
          hex_decode-hex_encode answered,
          length-public_key (c.random_secret rng).0,
          length-public_key (c.random_secret rng').0,
          diffie_hellman_comm (c.random_secret rng).0 (c.random_secret rng').0,
        ),
      )

  -- What a successful `seal` has done.
  pub seal-eq-ok :
      (s : Session) (plain : Text) (now rng : ℕ) {hex : Text} {s' : Session} {rng' : ℕ}
      → seal c s plain now rng ≡ (ok hex, s', rng')
      → (key ct : Text) × (s.state ≡ active)
        × (s.key ≡ some key)
        × (c.encrypt key (fill_bytes c 12 rng).0 plain ≡ some ct)
        × (hex ≡ c.hex_encode ((fill_bytes c 12 rng).0 ++ ct))
        × (s' ≡ record s { last_activity_ms = now })
  unfolding seal
  seal-eq-ok s plain now rng h = elim (Option-cases (active_key s)) [
    | inl off ↦ absurd (ground arith)
    | inr (key, on) ↦ elim (Option-cases (c.encrypt key (fill_bytes c 12 rng).0 plain)) [
      | inl failed ↦ absurd (ground arith)
      | inr (ct, sealed) ↦ (key, ct, ground arith, ground arith, sealed, ground arith, ground arith)
    ]
  ]

  -- By the laws of the crates of cryptography, what a session seals, any active session with the
  -- same key opens to the same text, at any time.
  pub open-seal :
      (s t : Session) (plain : Text) (now now' rng : ℕ) {hex : Text} {s' : Session} {rng' : ℕ}
      → t.state ≡ active
      → t.key ≡ s.key
      → seal c s plain now rng ≡ (ok hex, s', rng')
      → open_sealed c t hex now' ≡ (ok plain, record t { last_activity_ms = now' })
  unfolding open_sealed
  open-seal s t plain now now' rng on same h =
      let (key, ct, _, keyed, encrypted, e, _) = seal-eq-ok s plain now rng h in
      let nonce = (fill_bytes c 12 rng).0 in
      let long = length-fill_bytes c 12 rng in
      ground (
        arith,
        keyed,
        e,
        encrypted,
        hex_decode-hex_encode (nonce ++ ct),
        decrypt-encrypt key nonce plain ct encrypted,
        length-encrypt key nonce plain ct encrypted,
        length-append nonce ct,
        long,
        take-append_left 12 nonce ct long,
        drop-append_left 12 nonce ct long,
      )
