-- ===== src/Session/Nonces.antt =====
-- Replay: `accept_nonce` lets each nonce of a session through once, in increasing order.
use passport_passwords.Base.{
  ℕ, ◌≤◌, ◌<◌, ◌≡◌, ◌≢◌, ◌↔◌, ◌⊎◌, inl, inr, Text, List, [], ◌∷◌, true, false, ok, err, arith, leb,
  Bool-cases, ◌-◌, none,
}
use passport_passwords.Crypto.{Crypto}
use passport_passwords.Session.{
  seal, open_sealed, SessionError, not_active, nonce_reused, active, Session, is_active,
  accept_nonce, check_idle,
}

-- A nonce is accepted exactly by an active session that has accepted none as high, and then it is
-- the last one accepted.
accept_nonce_iff :
    (s : Session) (nonce now : ℕ) (t : Session)
    → (accept_nonce s nonce now ≡ (ok tt, t)) ↔ (
        (s.state ≡ active)
        × (s.last_nonce < nonce)
        × (t ≡ record s { last_nonce = nonce; last_activity_ms = now }))
unfolding accept_nonce
accept_nonce_iff s nonce now t = ground arith

-- The nonces that a run of calls accepts, first to last; a refused nonce changes nothing.
unfoldable pub accepted_nonces : Session → List (ℕ × ℕ) → List ℕ
accepted_nonces s [] = []
accepted_nonces s ((nonce, now) ∷ calls) =
    let (result, t) = accept_nonce s nonce now in
    let rest = accepted_nonces t calls in elim result [ ok _ ↦ nonce ∷ rest | err _ ↦ rest ]

-- Each number lies above the one before it, and the first above the bound.
abbrev pub Increasing : ℕ → List ℕ → Type 0
Increasing low [] = Unit
Increasing low (n ∷ ns) = (low < n) × Increasing n ns

-- A call accepts its nonce, or changes nothing.
accept_nonce-cases :
    (s : Session) (nonce now : ℕ)
    → ((s.last_nonce < nonce)
        × (accept_nonce s nonce now
            ≡ (ok tt, record s { last_nonce = nonce; last_activity_ms = now })))
      ⊎ ((e : SessionError) × (accept_nonce s nonce now ≡ (err e, s)))
unfolding accept_nonce
accept_nonce-cases s nonce now = elim (Bool-cases (is_active s)) [
  | inl on ↦ elim (Bool-cases (leb nonce s.last_nonce)) [
    | inl old ↦ inr (nonce_reused nonce s.last_nonce, rw (on, old))
    | inr fresh ↦ inl (ground arith, rw (on, fresh))
  ]
  | inr off ↦ inr (not_active, rw off)
]

accepted_nonces_accept :
    (s : Session) (nonce now : ℕ) {t : Session} (calls : List (ℕ × ℕ))
    → accept_nonce s nonce now ≡ (ok tt, t)
    → accepted_nonces s ((nonce, now) ∷ calls) ≡ nonce ∷ accepted_nonces t calls
unfolding accepted_nonces
accepted_nonces_accept s nonce now calls e = rw (e, accepted_nonces) (rw e)

accepted_nonces_refuse :
    (s : Session) (nonce now : ℕ) {why : SessionError} (calls : List (ℕ × ℕ))
    → accept_nonce s nonce now ≡ (err why, s)
    → accepted_nonces s ((nonce, now) ∷ calls) ≡ accepted_nonces s calls
unfolding accepted_nonces
accepted_nonces_refuse s nonce now calls e = rw (e, accepted_nonces) (rw e)

-- Over any run of calls of `accept_nonce` on one session, whatever nonces the host sends, the
-- accepted ones strictly increase from the last one accepted before: no nonce is accepted twice.
pub accepted_nonces-Increasing :
    (s : Session) (calls : List (ℕ × ℕ)) → Increasing s.last_nonce (accepted_nonces s calls)
unfolding accepted_nonces
accepted_nonces-Increasing s [] = tt
accepted_nonces-Increasing s ((nonce, now) ∷ calls) = elim (accept_nonce-cases s nonce now) [
  | inl (above, e) ↦ rw (accepted_nonces_accept s nonce now calls e) (
    above,
    accepted_nonces-Increasing (record s { last_nonce = nonce; last_activity_ms = now }) calls,
  )
  | inr (_, e) ↦
      rw (accepted_nonces_refuse s nonce now calls e) (accepted_nonces-Increasing s calls)
]

-- A session in use before the threshold is left as it is, and one that is not active always.
pub check_idle_keeps :
    (s : Session) (now limit : ℕ)
    → (s.state ≢ active) ⊎ (now - s.last_activity_ms < limit)
    → check_idle s now limit ≡ (false, s)
unfolding check_idle
check_idle_keeps s now limit h = ground arith

module _ (c : Crypto) where
  -- An active session that has been quiet for the threshold, or longer, is closed by the next
  -- check: the check says so, the key is gone, and the session then seals nothing, opens nothing
  -- and accepts no nonce.
  pub check_idle_closes :
      (s : Session) (now limit : ℕ)
      → s.state ≡ active
      → limit ≤ now - s.last_activity_ms
      → let t = (check_idle s now limit).1 in
        ((check_idle s now limit).0 ≡ true)
        × (t.key ≡ none)
        × ((plain : Text) (rng : ℕ) → (seal c t plain now rng).0 ≡ err not_active)
        × ((hex : Text) → (open_sealed c t hex now).0 ≡ err not_active)
        × ((nonce : ℕ) → (accept_nonce t nonce now).0 ≡ err not_active)
  unfolding check_idle seal open_sealed accept_nonce
  check_idle_closes s now limit on quiet = (
    ground arith,
    ground arith,
    (λ plain rng. ground arith),
    (λ hex. ground arith),
    (λ nonce. ground arith),
  )
