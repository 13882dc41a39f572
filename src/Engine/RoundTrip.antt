-- ===== src/Engine/RoundTrip.antt =====
-- What a host stores, a host is given back.
use passport_passwords.Base.{ℕ, ◌≡◌, refl, sym, ◌∙◌, ap, some, Result, ok, arith, find}
use passport_passwords.Crypto.{IsCrypto}
use passport_passwords.Protocol.Message.{
  StoreCredentialParams, StoreCredentialResult, ReleaseCredentialResult,
}
use passport_passwords.Session.{open_sealed}
use passport_passwords.Store.{CredentialStore, CredentialMatch, IsCredentialStore}
use passport_passwords.Engine.{Failure, World, Engine}
use passport_passwords.Engine.Handlers.{handle_release, handle_store}
use passport_passwords.Engine.Release.{
  Released, release-Released, peer, open-seal_password, found_of, named,
}
use passport_passwords.Engine.Commit.{HookKeepsStore}
use passport_passwords.Engine.Consent.{gate_session-Keeps}
use passport_passwords.Engine.Storing.{Stored, store_sound}

-- By the laws of the crates of cryptography, with a store that keeps the contract and a hook that
-- leaves it as it is: when a host has stored a password, and next a release for the same origin
-- and username succeeds, the release is of that username, and every active session that holds the
-- key of the session at that time opens what the host is given to the password that was stored.
pub handle_release-handle_store :
    {C : CredentialStore} (E : Engine C) (crypto : IsCrypto E.crypto) (laws : IsCredentialStore C)
    (keeps : HookKeepsStore E) (p : StoreCredentialParams) (now nonce now2 : ℕ)
    (w : World C.Store E.Outer) {r : StoreCredentialResult} {w1 : World C.Store E.Outer}
    {r2 : ReleaseCredentialResult} {w2 : World C.Store E.Outer}
    → handle_store E p now w ≡ (ok r, w1)
    → handle_release E p.origin (some p.username) nonce now2 w1 ≡ (ok r2, w2)
    → (d : Stored E p now w r w1) × (x : Released E p.origin (some p.username) nonce now2 w1 r2 w2)
      × (r2.username ≡ p.username)
      × ((n seen at : ℕ)
          → (open_sealed E.crypto (peer x.approved.session n seen) r2.password_sealed at).0
            ≡ ok d.plain)
handle_release-handle_store {C} E crypto laws keeps p now nonce now2 w {r} {w1} {r2} {w2} h k =
    let (d, written) = store_sound E laws keeps p now w h in
    let x = release-Released E p.origin (some p.username) nonce now2 w1 k in
    let same_origin : x.canonical ≡ d.canonical =
      ground (arith, x.origin_ok, d.checked.origin_ok) in
    let same_store : x.gated.store ≡ w1.store =
      ap (λ (q : Result Failure (Unit {0}) × World C.Store E.Outer). q.1.store) (sym x.gate_ok)
      ∙ gate_session-Keeps E nonce now2 w1 in
    let stored : CredentialMatch = record { username = p.username; password = d.plain } in
    let same_list : C.find_by_origin x.gated.store x.canonical
        ≡ C.find_by_origin w1.store d.canonical =
      rw (same_origin, same_store) refl in
    let found : find (named p.username) (C.find_by_origin w1.store d.canonical) ≡ some x.cred =
      ap (find (named p.username)) (sym same_list) ∙ found_of _ p.username x.chosen in
    let same : x.cred ≡ stored = ground (arith, sym found ∙ written.is_chosen) in
    (
      d,
      x,
      x.username ∙ ap (λ (m : CredentialMatch). m.username) same,
      λ n seen at.
          open-seal_password E crypto x.cred.password now2 x.approved x.sealed n seen at
          ∙ ap (λ (m : CredentialMatch). ok m.password) same,
    )
