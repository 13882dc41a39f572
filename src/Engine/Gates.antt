-- ===== src/Engine/Gates.antt =====
-- What the gates of the engine turn away: a replayed nonce, a session that is not active, and one
-- that has been quiet for too long.
use passport_passwords.Base.{
  ℕ, ◌-◌, ◌≤◌, ◌≡◌, ◌≢◌, ◌⊎◌, refl, ap, ◌∙◌, Text, Result, ok, err, arith,
}
use passport_passwords.Protocol.Message.{
  Method, ping, establish_session, list_origins, list_credentials, release_credential,
  store_credential, generate_password, cancel,
}
use passport_passwords.Session.{active, accept_nonce, check_idle}
use passport_passwords.Store.{CredentialStore}
use passport_passwords.Engine.{
  Failure, World, Engine, Handler, ◌>>=◌, lift, gate_session, gate_active_session, continue,
}
use passport_passwords.Engine.Handlers.{
  check_store_request, handle_release, handle_store, handle_generate,
}
use passport_passwords.Engine.Dispatch.{dispatch}

module _ {C : CredentialStore} (E : Engine C) where
  abbrev W : Type 0
  W = World C.Store E.Outer

  abbrev pub IsRefused {ℓ} : {A : Type ℓ} → Result Failure A → Type 0
  IsRefused (ok a) = ⊥
  IsRefused (err why) = Unit

  -- The handler fails, and it has moved nothing but the session: it asked nobody, drew no byte
  -- and wrote nothing.
  pub record Refuses {ℓ} {A : Type ℓ} (m : Handler E A) (w : W) : Type ℓ where
    pub is_refused : IsRefused (m w).0
    pub same_store : (m w).1.store ≡ w.store
    pub same_rng : (m w).1.rng ≡ w.rng
    pub same_outer : (m w).1.outer ≡ w.outer

  continue-Refuses {ℓ κ} :
      {A : Type ℓ} {B : Type κ} (r : Result Failure A) (w : W) (f : A → Handler E B)
      → IsRefused r
      → IsRefused (continue E r w f).0 × ((continue E r w f).1 ≡ w)
  continue-Refuses (ok a) w f h = absurd h
  continue-Refuses (err why) w f h = (tt, refl)

  Refuses-bind {ℓ κ} :
      {A : Type ℓ} {B : Type κ} (m : Handler E A) (f : A → Handler E B) {w : W}
      → Refuses m w
      → Refuses (◌>>=◌ E m f) w
  unfolding ◌>>=◌
  Refuses-bind m f {w} r =
      let (fails, same) = continue-Refuses (m w).0 (m w).1 f r.is_refused in
      record {
        is_refused = fails;
        same_store = ap (λ (x : W). x.store) same ∙ r.same_store;
        same_rng = ap (λ (x : W). x.rng) same ∙ r.same_rng;
        same_outer = ap (λ (x : W). x.outer) same ∙ r.same_outer;
      }

  Refuses-lift {ℓ κ} :
      {A : Type ℓ} {B : Type κ} (r : Result Failure A) (f : A → Handler E B) {w : W}
      → ((a : A) → Refuses (f a) w)
      → Refuses (◌>>=◌ E (lift E r) f) w
  unfolding ◌>>=◌
  Refuses-lift (ok a) f h = h a
  Refuses-lift (err e) f h = record {
    is_refused = tt;
    same_store = refl;
    same_rng = refl;
    same_outer = refl;
  }

  -- The session that a gate lets nothing through.
  abbrev pub Shut : W → ℕ → Type 0
  Shut w now = (w.session.state ≢ active) ⊎ (E.idle_ms ≤ now - w.session.last_activity_ms)

  -- A request that its gate has to refuse.
  abbrev pub Barred : Method → W → ℕ → Type 0
  Barred ping w now = ⊥
  Barred (establish_session p) w now = ⊥
  Barred list_origins w now = Shut w now
  Barred (list_credentials p) w now = Shut w now
  Barred (release_credential p) w now = (p.request_nonce ≤ w.session.last_nonce) ⊎ Shut w now
  Barred (store_credential p) w now = (p.request_nonce ≤ w.session.last_nonce) ⊎ Shut w now
  Barred (generate_password p) w now = (p.request_nonce ≤ w.session.last_nonce) ⊎ Shut w now
  Barred cancel w now = ⊥

  gate_session-Refuses :
      (nonce now : ℕ) (w : W)
      → (nonce ≤ w.session.last_nonce) ⊎ Shut w now
      → Refuses (gate_session E nonce now) w
  unfolding gate_session check_idle accept_nonce
  gate_session-Refuses nonce now w h = ground arith

  gate_active_session-Refuses :
      (now : ℕ) (w : W) → Shut w now → Refuses (gate_active_session E now) w
  unfolding gate_active_session check_idle
  gate_active_session-Refuses now w h = ground arith

  check_store_request-Refuses :
      (origin username : Text) (label : _) (nonce now : ℕ) (w : W)
      → Refuses (gate_session E nonce now) w
      → Refuses (check_store_request E origin username label nonce now) w
  unfolding check_store_request
  check_store_request-Refuses origin username label nonce now w g = Refuses-lift _ _ λ canonical.
      Refuses-lift _ _ λ _. Refuses-lift _ _ λ _. Refuses-lift _ _ λ _. Refuses-bind _ _ g

  -- A request with a nonce that is not above the last one accepted, and a request other than
  -- `ping`, `establish_session` and `cancel` on a session that is not active or was quiet for the
  -- limit, fails. The store, the tape of random bytes, the user and the hook are not
  -- touched.
  pub dispatch-Refuses :
      (m : Method) (now : ℕ) (w : W) → Barred m w now → Refuses (dispatch E m now) w
  unfolding dispatch handle_release handle_store handle_generate
  dispatch-Refuses ping now w h = absurd h
  dispatch-Refuses (establish_session p) now w h = absurd h
  dispatch-Refuses list_origins now w h = Refuses-bind _ _ (gate_active_session-Refuses now w h)
  dispatch-Refuses (list_credentials p) now w h =
      Refuses-bind _ _ (gate_active_session-Refuses now w h)
  dispatch-Refuses (release_credential p) now w h = Refuses-bind _ _ (
      Refuses-lift _ _ λ canonical.
        Refuses-lift _ _ λ _. Refuses-bind _ _ (gate_session-Refuses p.request_nonce now w h))
  dispatch-Refuses (store_credential p) now w h = Refuses-bind _ _ (
      Refuses-bind _ _ (
        check_store_request-Refuses p.origin p.username p.label p.request_nonce now w
          (gate_session-Refuses p.request_nonce now w h)))
  dispatch-Refuses (generate_password p) now w h = Refuses-bind _ _ (
      Refuses-bind _ _ (
        check_store_request-Refuses p.origin p.username p.label p.request_nonce now w
          (gate_session-Refuses p.request_nonce now w h)))
  dispatch-Refuses cancel now w h = absurd h
