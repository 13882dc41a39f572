-- ===== src/Session/Invariant.antt =====
-- The state machine of a session: every step that a method makes, and what holds in every
-- reachable state.
use passport_passwords.Base.{ℕ, Text, ◌≡◌, ◌≢◌, none, arith}
use passport_passwords.Crypto.{Crypto}
use passport_passwords.Session.{
  SessionState, active, Session, new, expire, accept_nonce, check_idle, establish, accept,
  begin_host, complete_host, seal, open_sealed,
}

-- An active session has a key; an expired one has none.
pub record IsValid (s : Session) : Type 0 where
  pub keyed : s.state ≡ active → s.key ≢ none
  pub wiped : s.state ≡ SessionState.expired → s.key ≡ none

module _ (c : Crypto) where
  -- One call of a method, with whatever arguments, time and random bytes.
  pub data Step (s : Session) : Session → Type 0 where
    accepted : (hex info : Text) (now rng : ℕ) → Step s (accept c s hex info now rng).1
    begun : (rng : ℕ) → Step s (begin_host c s rng).1
    completed :
        (secret hex info : Text) (now : ℕ) → Step s (complete_host c s secret hex info now).1
    nonce_checked : (nonce now : ℕ) → Step s (accept_nonce s nonce now).1
    idle_checked : (now limit : ℕ) → Step s (check_idle s now limit).1
    sealed : (plain : Text) (now rng : ℕ) → Step s (seal c s plain now rng).1
    opened : (hex : Text) (now : ℕ) → Step s (open_sealed c s hex now).1
    ended : Step s (expire s)

  pub data Reach : Session → Type 0 where
    start : Reach new
    later : {s t : Session} → Reach s → Step s t → Reach t

  establish-IsValid {ℓ} :
      {A : Type ℓ} (s : Session) (shared info : Text) (now : ℕ) (a : A)
      → IsValid s
      → IsValid (establish c s shared info now a).1
  unfolding establish
  establish-IsValid s shared info now a v = ground arith

  Step-IsValid : {s t : Session} → Step s t → IsValid s → IsValid t
  unfolding accept begin_host complete_host accept_nonce check_idle seal open_sealed expire
  Step-IsValid (accepted hex info now rng) v = ground arith
  Step-IsValid (begun rng) v = ground arith
  Step-IsValid (completed secret hex info now) v = ground arith
  Step-IsValid (nonce_checked nonce now) v = ground arith
  Step-IsValid (idle_checked now limit) v = ground arith
  Step-IsValid (sealed plain now rng) v = ground arith
  Step-IsValid (opened hex now) v = ground arith
  Step-IsValid ended v = ground arith

-- Whatever methods were called, in whatever order and with whatever results, an active session
-- has a key and an expired one has none.
pub Reach-IsValid : (c : Crypto) {s : Session} → Reach c s → IsValid s
Reach-IsValid c start = ground arith
Reach-IsValid c (later r st) = Step-IsValid c st (Reach-IsValid c r)
