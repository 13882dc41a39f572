-- ===== src/Engine/Consent.antt =====
-- Without the user's consent nothing is released and nothing is written.
use passport_passwords.Base.{ℕ, ◌≡◌, ◌≢◌, refl, ◌∙◌, Text, Option, Result, ok, err, arith}
use passport_passwords.Protocol.Message.{
  Method, ping, establish_session, list_origins, list_credentials, release_credential,
  store_credential, generate_password, cancel, ResponseBody,
}
use passport_passwords.Approval.{ApprovalRequest, ApprovalDecision, approve, reject, timeout}
use passport_passwords.Store.{CredentialStore}
use passport_passwords.Engine.{
  Failure, World, Engine, Handler, ◌>>=◌, continue, gate_session, gate_active_session, ask,
  check_decision, open_password,
}
use passport_passwords.Engine.Handlers.{
  check_store_request, handle_release, handle_store, handle_generate,
}
use passport_passwords.Engine.Dispatch.{dispatch, accept_session}

module _ {C : CredentialStore} (E : Engine C) where
  abbrev W : Type 0
  W = World C.Store E.Outer

  -- A user who approves nothing, with a screen that does not touch the store.
  pub record NeverApproves : Type 0 where
    pub refuses : (req : ApprovalRequest) (w : W) → (E.request req w).0 ≢ approve
    pub request_keeps : (req : ApprovalRequest) (w : W) → (E.request req w).1.store ≡ w.store
    pub cancel_keeps : (w : W) → (E.cancel_pending w).store ≡ w.store

  abbrev pub Keeps {ℓ} : {A : Type ℓ} → Handler E A → Type 0
  Keeps m = (w : W) → (m w).1.store ≡ w.store

  abbrev Fails {ℓ} : {A : Type ℓ} → Result Failure A → Type ℓ
  Fails r = (why : Failure) × (r ≡ err why)

  -- The handler fails, and leaves the store as it was.
  abbrev Denied {ℓ} : {A : Type ℓ} → Handler E A → Type ℓ
  Denied m = (w : W) → Fails (m w).0 × ((m w).1.store ≡ w.store)

  continue-Keeps {ℓ κ} :
      {A : Type ℓ} {B : Type κ} (r : Result Failure A) (w : W) (f : A → Handler E B)
      → ((a : A) → Keeps (f a))
      → (continue E r w f).1.store ≡ w.store
  continue-Keeps (ok a) w f h = h a w
  continue-Keeps (err e) w f h = refl

  pub Keeps-bind {ℓ κ} :
      {A : Type ℓ} {B : Type κ} (m : Handler E A) (f : A → Handler E B)
      → Keeps m
      → ((a : A) → Keeps (f a))
      → Keeps (◌>>=◌ E m f)
  unfolding ◌>>=◌
  Keeps-bind m f k h w = continue-Keeps (m w).0 (m w).1 f h ∙ k w

  continue-Denied {ℓ κ} :
      {A : Type ℓ} {B : Type κ} (r : Result Failure A) (w : W) (f : A → Handler E B)
      → ((a : A) → Denied (f a))
      → Fails (continue E r w f).0 × ((continue E r w f).1.store ≡ w.store)
  continue-Denied (ok a) w f h = h a w
  continue-Denied (err e) w f h = ((e, refl), refl)

  -- A denied handler, after one that keeps the store
  then-Denied {ℓ κ} :
      {A : Type ℓ} {B : Type κ} (m : Handler E A) (f : A → Handler E B)
      → Keeps m
      → ((a : A) → Denied (f a))
      → Denied (◌>>=◌ E m f)
  unfolding ◌>>=◌
  then-Denied m f k h w =
      let (fails, same) = continue-Denied (m w).0 (m w).1 f h in (fails, same ∙ k w)

  -- A denied handler, whatever would come after it
  Denied-bind {ℓ κ} :
      {A : Type ℓ} {B : Type κ} (m : Handler E A) (f : A → Handler E B)
      → Denied m
      → Denied (◌>>=◌ E m f)
  unfolding ◌>>=◌
  Denied-bind m f d w = let ((why, e), same) = d w in rw e ((why, refl), same)

  pub gate_session-Keeps : (nonce now : ℕ) → Keeps (gate_session E nonce now)
  unfolding gate_session
  gate_session-Keeps nonce now w = ground arith

  pub gate_active_session-Keeps : (now : ℕ) → Keeps (gate_active_session E now)
  unfolding gate_active_session
  gate_active_session-Keeps now w = ground arith

  pub open_password-Keeps : (sealed : Text) (now : ℕ) → Keeps (open_password E sealed now)
  unfolding open_password
  open_password-Keeps sealed now w = refl

  pub accept_session-Keeps : (pubkey : Text) (now : ℕ) → Keeps (accept_session E pubkey now)
  unfolding accept_session
  accept_session-Keeps pubkey now w = refl

  pub check_store_request-Keeps :
      (origin username : Text) (label : Option Text) (nonce now : ℕ)
      → Keeps (check_store_request E origin username label nonce now)
  unfolding check_store_request
  check_store_request-Keeps origin username label nonce now =
      Keeps-bind _ _ (λ _. refl)
        λ canonical.
          Keeps-bind _ _ (λ _. refl)
            λ _.
              Keeps-bind _ _ (λ _. refl)
                λ _.
                  Keeps-bind _ _ (λ _. refl)
                    λ _. Keeps-bind _ _ (gate_session-Keeps nonce now) λ _. λ _. refl

  check_decision-Fails : (d : ApprovalDecision) → d ≢ approve → Fails (check_decision d)
  unfolding check_decision
  check_decision-Fails approve h = absurd (h refl)
  check_decision-Fails reject h = (_, refl)
  check_decision-Fails timeout h = (_, refl)

  module _ (never : NeverApproves) where
    ask-Denied : (req : ApprovalRequest) → Denied (ask E req)
    unfolding ask
    ask-Denied req w = (check_decision-Fails _ (never.refuses req w), never.request_keeps req w)

    release-Denied :
        (origin : Text) (hint : Option Text) (nonce now : ℕ)
        → Denied (handle_release E origin hint nonce now)
    unfolding handle_release
    release-Denied origin hint nonce now =
        then-Denied _ _ (λ _. refl)
          λ canonical.
            then-Denied _ _ (λ _. refl)
              λ _. then-Denied _ _ (gate_session-Keeps nonce now) λ _.
                then-Denied _ _ (λ _. refl)
                  λ _. then-Denied _ _ (λ _. refl) λ _. Denied-bind _ _ (ask-Denied _)

    store-Denied : (p : _) (now : ℕ) → Denied (handle_store E p now)
    unfolding handle_store
    store-Denied p now =
        then-Denied _ _ (check_store_request-Keeps p.origin p.username p.label p.request_nonce now)
          λ _. then-Denied _ _ (open_password-Keeps p.password_sealed now) λ _.
            then-Denied _ _ (λ _. refl)
              λ _.
                then-Denied _ _ (λ _. refl)
                  λ _. then-Denied _ _ (λ _. refl) λ _. Denied-bind _ _ (ask-Denied _)

    generate-Denied : (p : _) (now : ℕ) → Denied (handle_generate E p now)
    unfolding handle_generate
    generate-Denied p now =
        then-Denied _ _ (check_store_request-Keeps p.origin p.username p.label p.request_nonce now)
          λ _.
            then-Denied _ _ (λ _. refl)
              λ _. then-Denied _ _ (λ _. refl) λ _. Denied-bind _ _ (ask-Denied _)

  -- What an answer may be when the user approves nothing: a release, a store and a generation fail.
  abbrev pub Answer : Method → Result Failure ResponseBody → Type 0
  Answer ping r = Unit
  Answer (establish_session p) r = Unit
  Answer list_origins r = Unit
  Answer (list_credentials p) r = Unit
  Answer (release_credential p) r = Fails r
  Answer (store_credential p) r = Fails r
  Answer (generate_password p) r = Fails r
  Answer cancel r = Unit

  -- As long as the user approves nothing, and neither the question nor its cancellation touches
  -- the store, no request, whatever it is and whatever the state of the session, changes the
  -- store, and every request to release, to store or to generate a password fails.
  pub no_consent_no_effect :
      NeverApproves
      → (m : Method) (now : ℕ) (w : W)
      → ((dispatch E m now w).1.store ≡ w.store) × Answer m (dispatch E m now w).0
  unfolding dispatch
  no_consent_no_effect never ping now w = (refl, tt)
  no_consent_no_effect never (establish_session p) now w =
      (Keeps-bind _ _ (accept_session-Keeps p.host_pubkey now) (λ _. λ _. refl) w, tt)
  no_consent_no_effect never list_origins now w = (
    Keeps-bind _ _ (gate_active_session-Keeps now) (λ _. Keeps-bind _ _ (λ _. refl) λ _. λ _. refl)
        w,
    tt,
  )
  no_consent_no_effect never (list_credentials p) now w = (
    Keeps-bind _ _ (gate_active_session-Keeps now)
        (λ _. Keeps-bind _ _ (λ _. refl) λ _. Keeps-bind _ _ (λ _. refl) λ _. λ _. refl) w,
    tt,
  )
  no_consent_no_effect never (release_credential p) now w =
      let (fails, same) =
        Denied-bind _ _ (release-Denied never p.origin p.username_hint p.request_nonce now) w in
      (same, fails)
  no_consent_no_effect never (store_credential p) now w =
      let (fails, same) = Denied-bind _ _ (store-Denied never p now) w in (same, fails)
  no_consent_no_effect never (generate_password p) now w =
      let (fails, same) = Denied-bind _ _ (generate-Denied never p now) w in (same, fails)
  no_consent_no_effect never cancel now w =
      (Keeps-bind _ _ never.cancel_keeps (λ _. λ _. refl) w, tt)
