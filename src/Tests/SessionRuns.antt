-- ===== src/Tests/SessionRuns.antt =====
-- Runs of the session and of the framing of lines.
use passport_passwords.Crypto.{fill_bytes}
use passport_passwords.Base.{
  ℕ, ◌≡◌, ◌↔◌, refl, Text, text, [], ◌∷◌, ◌++◌, true, false, none, some, ok, err, arith, inr,
}
use passport_passwords.Protocol.Frame.{new, push}
use passport_passwords.Protocol.Frame.Lines.{push_iff, push-append, after, frames, All, Fits}
use passport_passwords.Session
use passport_passwords.Session.{
  Session, active, accept, begin_host, complete_host, derive_key, accept_nonce, check_idle, seal,
  open_sealed, not_active,
}
use passport_passwords.Session.Invariant.{
  IsValid, start, later, accepted, idle_checked, Reach-IsValid,
}
use passport_passwords.Session.Nonces.{
  accepted_nonces, Increasing, accepted_nonces-Increasing, check_idle_closes, check_idle_keeps,
}
use passport_passwords.Session.Channel.{handshake_agrees, open-seal}
use passport_passwords.Tests.Fixtures.{toy_crypto, toy_laws, toy_session, bytes_of}

Reach-IsValid_example :
    IsValid
      (check_idle (accept toy_crypto Session.new (bytes_of 32 9) (text "info") 1000 0).1 2000 500).1
Reach-IsValid_example =
    Reach-IsValid toy_crypto
      (later (later start (accepted (bytes_of 32 9) (text "info") 1000 0)) (idle_checked 2000 500))

accepted_nonces-Increasing_example :
    Increasing 3 (accepted_nonces toy_session ((4, 1) ∷ (4, 2) ∷ (9, 3) ∷ (5, 4) ∷ []))
accepted_nonces-Increasing_example =
    accepted_nonces-Increasing toy_session ((4, 1) ∷ (4, 2) ∷ (9, 3) ∷ (5, 4) ∷ [])

check_idle_closes_example :
    let t = (check_idle toy_session 2000 500).1 in
    ((check_idle toy_session 2000 500).0 ≡ true)
    × (t.key ≡ none)
    × ((plain : Text) (rng : ℕ) → (seal toy_crypto t plain 2000 rng).0 ≡ err not_active)
    × ((hex : Text) → (open_sealed toy_crypto t hex 2000).0 ≡ err not_active)
    × ((nonce : ℕ) → (accept_nonce t nonce 2000).0 ≡ err not_active)
check_idle_closes_example = check_idle_closes toy_crypto toy_session 2000 500 refl (omega arith)

check_idle_keeps_example : check_idle toy_session 1400 500 ≡ (false, toy_session)
check_idle_keeps_example = check_idle_keeps toy_session 1400 500 (inr (omega arith))

handshake_agrees_example :
    let (keys, host', _) = begin_host toy_crypto Session.new 0 in
    let (answer, device', _) =
      accept toy_crypto toy_session (toy_crypto.hex_encode keys.0) (text "info") 5 0 in
    let host_shared =
      toy_crypto.diffie_hellman keys.1 (toy_crypto.public_key (toy_crypto.random_secret 0).0) in
    (public : Text) × (answer ≡ ok public)
    × (let (result, host'') = complete_host toy_crypto host' keys.1 public (text "info") 6 in
        (result ≡ ok tt)
        × (device'.state ≡ active)
        × (host''.state ≡ active)
        × (device'.key ≡ some (derive_key toy_crypto host_shared (text "info")))
        × (host''.key ≡ device'.key)
        × (device'.last_nonce ≡ 0)
        × (host''.last_nonce ≡ 0))
handshake_agrees_example =
    handshake_agrees toy_crypto toy_laws Session.new toy_session (text "info") 5 6 0 0 refl

sealed_run : seal toy_crypto toy_session (text "secret") 2000 0 ≡ (
  ok (bytes_of 12 7 ++ (text "secret" ++ bytes_of 16 0)),
  record toy_session { last_activity_ms = 2000 },
  12,
)
unfolding seal fill_bytes
sealed_run = refl

open-seal_example :
    open_sealed toy_crypto toy_session (bytes_of 12 7 ++ (text "secret" ++ bytes_of 16 0)) 3000
    ≡ (ok (text "secret"), record toy_session { last_activity_ms = 3000 })
open-seal_example =
    open-seal toy_crypto toy_laws toy_session toy_session (text "secret") 2000 3000 0
      {s' = record toy_session { last_activity_ms = 2000 }} {rng' = 12} refl refl sealed_run

push_iff_example :
    (push new (text "ab" ++ (b'\n' ∷ text "c")) ≡ (ok (text "ab" ∷ []), record { buf = text "c" }))
    ↔ ((frames (text "ab" ∷ []) ++ text "c" ≡ [] ++ (text "ab" ++ (b'\n' ∷ text "c")))
        × All Fits (text "ab" ∷ [])
        × Fits (text "c"))
push_iff_example =
    push_iff new (text "ab" ++ (b'\n' ∷ text "c")) (text "ab" ∷ []) (record { buf = text "c" })
      (tt, omega arith)

pushed : push new (text "a") ≡ (ok [], record { buf = text "a" })
unfolding push
pushed = refl

push-append_example :
    push new (text "a" ++ (b'\n' ∷ [])) ≡ after [] (push (record { buf = text "a" }) (b'\n' ∷ []))
push-append_example =
    push-append new (text "a") (b'\n' ∷ []) {ls = []} {t = record { buf = text "a" }} pushed
