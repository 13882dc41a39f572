-- ===== src/Engine/Failing.antt =====
-- What a request that fails has done to the store.
use passport_passwords.Base.{
  Result-cases, ap, ℕ, ◌≡◌, ◌≢◌, refl, Text, Option, Result, ok, err, Bool-cases, inl, inr, arith,
}
use passport_passwords.Protocol.Message.{
  Method, ping, establish_session, list_origins, list_credentials, release_credential,
  store_credential, generate_password, cancel, StoreCredentialParams,
}
use passport_passwords.Approval.{ApprovalRequest}
use passport_passwords.Store.{CredentialStore, IsCredentialStore, SameView, StoreError}
use passport_passwords.Engine.{
  Failure, World, Engine, Handler, ◌>>=◌, continue, ask, seal_password, commit_upsert,
}
use passport_passwords.Engine.Handlers.{handle_release, handle_store}
use passport_passwords.Engine.Dispatch.{dispatch}
use passport_passwords.Engine.Consent.{
  Keeps, Keeps-bind, gate_session-Keeps, gate_active_session-Keeps, open_password-Keeps,
  accept_session-Keeps, check_store_request-Keeps,
}

module _ {C : CredentialStore} (E : Engine C) where
  abbrev W : Type 0
  W = World C.Store E.Outer

  -- Nothing touches the store while the user is asked or a question is cancelled. The hook may do
  -- anything.
  pub record Undisturbed : Type 0 where
    pub request_keeps : (req : ApprovalRequest) (w : W) → (E.request req w).1.store ≡ w.store
    pub cancel_keeps : (w : W) → (E.cancel_pending w).store ≡ w.store

  -- A backend that refuses a write has not changed what a host sees.
  abbrev pub RefusalKeepsView : Type 0
  RefusalKeepsView =
      (s t : C.Store) (o u p : Text) (l : Option Text) (e : StoreError)
      → C.upsert s o u p l ≡ (err e, t)
      → SameView C t s

  view_refl : (s : C.Store) → SameView C s s
  view_refl s = record {
    origins = refl;
    summaries = λ o. refl;
    matches = λ o. refl;
    probes = λ o u. refl;
  }

  -- A handler that leaves what a host sees as it was, where it fails.
  abbrev Undone {ℓ} : {A : Type ℓ} → Handler E A → Type ℓ
  Undone m = (w : W) (why : Failure) → (m w).0 ≡ err why → SameView C (m w).1.store w.store

  Keeps-Undone {ℓ} : {A : Type ℓ} (m : Handler E A) → Keeps E m → Undone m
  Keeps-Undone m k w why h = rw (k w) (view_refl w.store)

  continue-Undone {ℓ κ} :
      {A : Type ℓ} {B : Type κ} (r : Result Failure A) (w : W) (f : A → Handler E B) {s : C.Store}
      → w.store ≡ s
      → ((a : A) → Undone (f a))
      → (why : Failure) → (continue E r w f).0 ≡ err why
      → SameView C (continue E r w f).1.store s
  continue-Undone (ok a) w f same g why h = rw (← same) (g a w why h)
  continue-Undone (err e) w f same g why h = rw (← same) (view_refl w.store)

  -- What fails after a handler that keeps the store
  then-Undone {ℓ κ} :
      {A : Type ℓ} {B : Type κ} (m : Handler E A) (f : A → Handler E B)
      → Keeps E m
      → ((a : A) → Undone (f a))
      → Undone (◌>>=◌ E m f)
  unfolding ◌>>=◌
  then-Undone m f k g w why h = continue-Undone (m w).0 (m w).1 f (k w) g why h

  -- What fails before a last step that cannot fail
  continue-last {ℓ κ} :
      {A : Type ℓ} {B : Type κ} (r : Result Failure A) (w : W) (v : A → B) {s : C.Store}
      → ((why : Failure) → r ≡ err why → SameView C w.store s)
      → (why : Failure) → (continue E r w (λ a w'. (ok (v a), w'))).0 ≡ err why
      → SameView C (continue E r w (λ a w'. (ok (v a), w'))).1.store s
  continue-last (ok a) w v g why h = cc
  continue-last (err e) w v g why h = g e refl

  last-Undone {ℓ κ} :
      {A : Type ℓ} {B : Type κ} (m : Handler E A) (v : A → B)
      → Undone m
      → Undone (◌>>=◌ E m (λ a w. (ok (v a), w)))
  unfolding ◌>>=◌
  last-Undone m v g w why h = continue-last (m w).0 (m w).1 v (g w) why h

  commit_upsert-Undone :
      IsCredentialStore C
      → RefusalKeepsView
      → (o u p : Text) (l : Option Text) → Undone (commit_upsert E o u p l)
  unfolding commit_upsert
  commit_upsert-Undone laws refusal o u p l w why h =
      elim (Result-cases (C.upsert w.store o u p l).0) [
        | inl (why', e) ↦
            rw (e, commit_upsert)
              (refusal w.store (C.upsert w.store o u p l).1 o u p l why'
                (ap (λ (r : Result StoreError (Unit {0})). (r, (C.upsert w.store o u p l).1)) e))
        | inr (done, e) ↦
            elim (Bool-cases (E.on_write (record w { store = (C.upsert w.store o u p l).1 })).0) [
              | inl persisted ↦ absurd (ground arith)
              | inr failed ↦
                  rw (e, commit_upsert)
                    (rw (failed, commit_upsert) (laws.restore-snapshot w.store _))
            ]
      ]

  module _ (calm : Undisturbed) where
    ask-Keeps : (req : ApprovalRequest) → Keeps E (ask E req)
    unfolding ask
    ask-Keeps req w = calm.request_keeps req w

    release-Keeps :
        (origin : Text) (hint : Option Text) (nonce now : ℕ)
        → Keeps E (handle_release E origin hint nonce now)
    unfolding handle_release seal_password
    release-Keeps origin hint nonce now =
        Keeps-bind E _ _ (λ _. refl)
          λ _.
            Keeps-bind E _ _ (λ _. refl)
              λ _. Keeps-bind E _ _ (gate_session-Keeps E nonce now) λ _.
                Keeps-bind E _ _ (λ _. refl)
                  λ _.
                    Keeps-bind E _ _ (λ _. refl)
                      λ _.
                        Keeps-bind E _ _ (ask-Keeps _)
                          λ _. Keeps-bind E _ _ (λ _. refl) λ _. λ _. refl

    store-Undone :
        IsCredentialStore C
        → RefusalKeepsView
        → (p : StoreCredentialParams) (now : ℕ) → Undone (handle_store E p now)
    unfolding handle_store
    store-Undone laws refusal p now =
        then-Undone _ _
          (check_store_request-Keeps E p.origin p.username p.label p.request_nonce now)
          λ _. then-Undone _ _ (open_password-Keeps E p.password_sealed now) λ _.
            then-Undone _ _ (λ _. refl)
              λ _.
                then-Undone _ _ (λ _. refl)
                  λ _.
                    then-Undone _ _ (λ _. refl)
                      λ _.
                        then-Undone _ _ (ask-Keeps _)
                          λ _. last-Undone _ _ (commit_upsert-Undone laws refusal _ _ _ _)

    dispatch-Undone :
        IsCredentialStore C
        → RefusalKeepsView
        → (m : Method) (now : ℕ) → ((p : _) → m ≢ generate_password p)
        → Undone (dispatch E m now)
    unfolding dispatch
    dispatch-Undone laws refusal ping now other = λ w why h. cc
    dispatch-Undone laws refusal (establish_session p) now other =
        Keeps-Undone (dispatch E (establish_session p) now)
          (Keeps-bind E _ _ (accept_session-Keeps E p.host_pubkey now) (λ _. λ _. refl))
    dispatch-Undone laws refusal list_origins now other =
        Keeps-Undone (dispatch E list_origins now) (
          Keeps-bind E _ _ (gate_active_session-Keeps E now)
            (λ _. Keeps-bind E _ _ (λ _. refl) λ _. λ _. refl))
    dispatch-Undone laws refusal (list_credentials p) now other =
        Keeps-Undone (dispatch E (list_credentials p) now) (
          Keeps-bind E _ _ (gate_active_session-Keeps E now)
            (λ _. Keeps-bind E _ _ (λ _. refl) λ _. Keeps-bind E _ _ (λ _. refl) λ _. λ _. refl))
    dispatch-Undone laws refusal (release_credential p) now other =
        Keeps-Undone (dispatch E (release_credential p) now) (
          Keeps-bind E _ _ (release-Keeps p.origin p.username_hint p.request_nonce now)
            (λ _. λ _. refl))
    dispatch-Undone laws refusal (store_credential p) now other =
        last-Undone _ _ (store-Undone laws refusal p now)
    dispatch-Undone laws refusal (generate_password p) now other = absurd (other p refl)
    dispatch-Undone laws refusal cancel now other =
        Keeps-Undone (dispatch E cancel now) (Keeps-bind E _ _ calm.cancel_keeps (λ _. λ _. refl))

    -- A request other than for a generated password that fails, for whatever reason and whatever
    -- the write hook did, leaves all that a host can see of the store as it was: with a store that
    -- keeps the contract and whose refusals change nothing that a host sees, and when nothing else
    -- changes the store while the user is asked or a question is cancelled.
    pub dispatch_failed :
        IsCredentialStore C
        → RefusalKeepsView
        → (m : Method) (now : ℕ) (w : W) → ((p : _) → m ≢ generate_password p)
        → {why : Failure} → (dispatch E m now w).0 ≡ err why
        → SameView C (dispatch E m now w).1.store w.store
    dispatch_failed laws refusal m now w other {why} h =
        dispatch-Undone laws refusal m now other w why h
