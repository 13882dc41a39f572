-- ===== src/Engine/Preserving.antt =====
-- What holds of the store and of what is outside of the engine, behind every handler.
use passport_passwords.Base.{ℕ, ◌≡◌, Text, Option, Result, ok, err, arith, Option-cases, inl, inr}
use passport_passwords.Protocol.Message.{
  Request, Method, ping, establish_session, list_origins, list_credentials, release_credential,
  store_credential, generate_password, cancel, CharsetHint,
}
use passport_passwords.Approval.{ApprovalRequest}
use passport_passwords.Store.{CredentialStore}
use passport_passwords.Engine.{
  Failure, World, Engine, Handler, ◌>>=◌, continue, gate_session, gate_active_session, ask,
  open_password, seal_password, commit_upsert,
}
use passport_passwords.Engine.Password.{generate_password as generate}
use passport_passwords.Engine.Handlers.{
  check_store_request, draw_password, handle_release, handle_store, handle_generate,
}
use passport_passwords.Engine.Dispatch.{dispatch, handle, accept_session}

module _ {C : CredentialStore} (E : Engine C) (P : C.Store → E.Outer → Type 0) where
  abbrev W : Type 0
  W = World C.Store E.Outer

  -- The handler keeps what holds.
  abbrev pub Preserves {ℓ} : {A : Type ℓ} → Handler E A → Type 0
  Preserves m = (w : W) → P w.store w.outer → P (m w).1.store (m w).1.outer

  continue-Preserves {ℓ κ} :
      {A : Type ℓ} {B : Type κ} (r : Result Failure A) (w : W) (f : A → Handler E B)
      → ((a : A) → Preserves (f a))
      → P w.store w.outer
      → P (continue E r w f).1.store (continue E r w f).1.outer
  continue-Preserves (ok a) w f h p = h a w p
  continue-Preserves (err e) w f h p = p

  Preserves-bind {ℓ κ} :
      {A : Type ℓ} {B : Type κ} (m : Handler E A) (f : A → Handler E B)
      → Preserves m
      → ((a : A) → Preserves (f a))
      → Preserves (◌>>=◌ E m f)
  unfolding ◌>>=◌
  Preserves-bind m f k h w p = continue-Preserves (m w).0 (m w).1 f h (k w p)

  -- What does not touch the store, nor what is outside, keeps what holds.
  untouched :
      (v w : W) → v.store ≡ w.store → v.outer ≡ w.outer → P w.store w.outer → P v.store v.outer
  untouched v w s o p = rw (s, o) p

  gate_session-Preserves : (nonce now : ℕ) → Preserves (gate_session E nonce now)
  unfolding gate_session
  gate_session-Preserves nonce now w =
      untouched (gate_session E nonce now w).1 w (ground arith) (ground arith)

  gate_active_session-Preserves : (now : ℕ) → Preserves (gate_active_session E now)
  unfolding gate_active_session
  gate_active_session-Preserves now w =
      untouched (gate_active_session E now w).1 w (ground arith) (ground arith)

  open_password-Preserves : (sealed : Text) (now : ℕ) → Preserves (open_password E sealed now)
  unfolding open_password
  open_password-Preserves sealed now w p = p

  seal_password-Preserves : (plain : Text) (now : ℕ) → Preserves (seal_password E plain now)
  unfolding seal_password
  seal_password-Preserves plain now w p = p

  accept_session-Preserves : (pubkey : Text) (now : ℕ) → Preserves (accept_session E pubkey now)
  unfolding accept_session
  accept_session-Preserves pubkey now w p = p

  draw_password-Preserves : (len : ℕ) (hint : CharsetHint) → Preserves (draw_password E len hint)
  unfolding draw_password
  draw_password-Preserves len hint w p = elim (Option-cases (generate E.crypto len hint w.rng)) [
    | inl e ↦ rw (e, draw_password) p
    | inr (r, e) ↦ rw (e, draw_password) p
  ]

  check_store_request-Preserves :
      (origin username : Text) (label : Option Text) (nonce now : ℕ)
      → Preserves (check_store_request E origin username label nonce now)
  unfolding check_store_request
  check_store_request-Preserves origin username label nonce now =
      Preserves-bind _ _ (λ _ p. p)
        λ canonical.
          Preserves-bind _ _ (λ _ p. p)
            λ _.
              Preserves-bind _ _ (λ _ p. p)
                λ _.
                  Preserves-bind _ _ (λ _ p. p)
                    λ _. Preserves-bind _ _ (gate_session-Preserves nonce now) λ _. λ _ p. p

  -- What the user's side and the writes have to keep.
  pub record Preserved : Type 0 where
    pub asking :
        (req : ApprovalRequest) (w : W)
        → P w.store w.outer
        → P (E.request req w).1.store (E.request req w).1.outer
    pub cancelling :
        (w : W) → P w.store w.outer → P (E.cancel_pending w).store (E.cancel_pending w).outer
    pub committing : (o u p : Text) (l : Option Text) → Preserves (commit_upsert E o u p l)

  module _ (kept : Preserved) where
    ask-Preserves : (req : ApprovalRequest) → Preserves (ask E req)
    unfolding ask
    ask-Preserves req w p = kept.asking req w p

    release-Preserves :
        (origin : Text) (hint : Option Text) (nonce now : ℕ)
        → Preserves (handle_release E origin hint nonce now)
    unfolding handle_release
    release-Preserves origin hint nonce now =
        Preserves-bind _ _ (λ _ p. p)
          λ canonical.
            Preserves-bind _ _ (λ _ p. p)
              λ _. Preserves-bind _ _ (gate_session-Preserves nonce now) λ _.
                Preserves-bind _ _ (λ _ p. p)
                  λ _.
                    Preserves-bind _ _ (λ _ p. p)
                      λ _.
                        Preserves-bind _ _ (ask-Preserves _)
                          λ _. Preserves-bind _ _ (seal_password-Preserves _ now) λ _. λ _ p. p

    store-Preserves : (q : _) (now : ℕ) → Preserves (handle_store E q now)
    unfolding handle_store
    store-Preserves q now =
        Preserves-bind _ _
          (check_store_request-Preserves q.origin q.username q.label q.request_nonce now)
          λ _. Preserves-bind _ _ (open_password-Preserves q.password_sealed now) λ _.
            Preserves-bind _ _ (λ _ p. p)
              λ _.
                Preserves-bind _ _ (λ _ p. p)
                  λ _.
                    Preserves-bind _ _ (λ _ p. p)
                      λ _.
                        Preserves-bind _ _ (ask-Preserves _)
                          λ _. Preserves-bind _ _ (kept.committing _ _ _ _) λ _. λ _ p. p

    generate-Preserves : (q : _) (now : ℕ) → Preserves (handle_generate E q now)
    unfolding handle_generate
    generate-Preserves q now =
        Preserves-bind _ _
          (check_store_request-Preserves q.origin q.username q.label q.request_nonce now)
          λ _.
            Preserves-bind _ _ (λ _ p. p)
              λ _.
                Preserves-bind _ _ (λ _ p. p)
                  λ _. Preserves-bind _ _ (ask-Preserves _) λ _.
                    Preserves-bind _ _ (draw_password-Preserves _ _) λ _.
                      Preserves-bind _ _ (kept.committing _ _ _ _)
                        λ _. Preserves-bind _ _ (seal_password-Preserves _ now) λ _. λ _ p. p

    pub dispatch-Preserves : (m : Method) (now : ℕ) → Preserves (dispatch E m now)
    unfolding dispatch
    dispatch-Preserves ping now = λ w p. p
    dispatch-Preserves (establish_session q) now =
        Preserves-bind _ _ (accept_session-Preserves q.host_pubkey now) λ _. λ _ p. p
    dispatch-Preserves list_origins now =
        Preserves-bind _ _ (gate_active_session-Preserves now)
          λ _. Preserves-bind _ _ (λ _ p. p) λ _. λ _ p. p
    dispatch-Preserves (list_credentials q) now =
        Preserves-bind _ _ (gate_active_session-Preserves now)
          λ _. Preserves-bind _ _ (λ _ p. p) λ _. Preserves-bind _ _ (λ _ p. p) λ _. λ _ p. p
    dispatch-Preserves (release_credential q) now =
        Preserves-bind _ _ (release-Preserves q.origin q.username_hint q.request_nonce now)
          λ _. λ _ p. p
    dispatch-Preserves (store_credential q) now =
        Preserves-bind _ _ (store-Preserves q now) λ _. λ _ p. p
    dispatch-Preserves (generate_password q) now =
        Preserves-bind _ _ (generate-Preserves q now) λ _. λ _ p. p
    dispatch-Preserves cancel now = Preserves-bind _ _ (λ w p. kept.cancelling w p) λ _. λ _ p. p

    pub handle-Preserves :
        (req : Request) (now : ℕ) (w : W)
        → P w.store w.outer
        → P (handle E req now w).1.store (handle E req now w).1.outer
    unfolding handle
    handle-Preserves req now w = dispatch-Preserves req.method now w
