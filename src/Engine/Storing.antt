-- ===== src/Engine/Storing.antt =====
-- What a successful `store_credential` has done.
use passport_passwords.Base.{
  String, ◌≡◌, ◌≢◌, refl, ◌∙◌, ℕ, ◌≤◌, Text, Bool, true, false, not, Option, none, some, ok, arith,
  length, [],
}
use passport_passwords.Base.Utf8.{valid_utf8}
use passport_passwords.Protocol.Message.{
  StoreCredentialParams, StoreCredentialResult, ErrorCode, StoreAction, saved, updated,
  restored_and_updated,
}
use passport_passwords.Origin.{UrlParser}
use passport_passwords.Approval.{ApprovalAction, approve, save, update, restore_and_update}
use passport_passwords.Store.{
  ExistingCredential, absent, live, archived, CredentialStore, IsCredentialStore,
}
use passport_passwords.Engine.{
  World, Engine, canonicalize_origin, gate_session, open_password, check_str_len,
  check_optional_len, commit_upsert,
}
use passport_passwords.Engine.Handlers.{refuse_if, store_actions, check_store_request, handle_store}
use passport_passwords.Engine.Rules.{by_bind, by_lift, by_gets}
use passport_passwords.Engine.Release.{ask-eq-ok}
use passport_passwords.Engine.Commit.{HookKeepsStore, Written, commit_upsert-Written}

-- What the user is asked, and what the host is then told, for each state of the record.
pub data StoreAsks : ExistingCredential → ApprovalAction → StoreAction → Type 0 where
  asks_save : StoreAsks absent save saved
  asks_update : StoreAsks live update updated
  asks_restore : StoreAsks archived restore_and_update restored_and_updated

-- A request to write that passed its checks and the gate.
pub record Checked {C : CredentialStore} (E : Engine C) (origin username : Text)
    (label : Option Text) (nonce now : ℕ) (w : World C.Store E.Outer) (canonical : Text)
    (gated : World C.Store E.Outer) : Type 0 where
  pub origin_ok : canonicalize_origin E.url_parse origin ≡ ok canonical
  pub username_ne_nil : username ≢ []
  pub origin_fits : length origin ≤ 512
  pub username_fits : length username ≤ 256
  pub label_fits : (l : Text) → label ≡ some l → length l ≤ 128
  pub gate_ok : gate_session E nonce now w ≡ (ok tt, gated)

-- The steps of a store that succeeded with `r`, from the world `w` to `w'`.
pub record Stored {C : CredentialStore} (E : Engine C) (p : StoreCredentialParams) (now : ℕ)
    (w : World C.Store E.Outer) (r : StoreCredentialResult) (w' : World C.Store E.Outer)
    : Type 0 where
  pub canonical : Text
  pub plain : Text
  pub gated : World C.Store E.Outer
  pub opened : World C.Store E.Outer
  pub approved : World C.Store E.Outer
  pub checked : Checked E p.origin p.username p.label p.request_nonce now w canonical gated
  pub opens : open_password E p.password_sealed now gated ≡ (ok plain, opened)
  pub is_utf8 : valid_utf8 plain ≡ true
  pub plain_fits : length plain ≤ 512
  pub question : ApprovalAction
  pub asks : StoreAsks (C.probe opened.store canonical p.username) question r.action
  pub consent :
      E.request
        (record {
          action = question;
          origin = canonical;
          username = p.username;
          request_nonce = p.request_nonce;
        })
        opened
      ≡ (approve, approved)
  pub committed : commit_upsert E canonical p.username plain p.label approved ≡ (ok tt, w')

store_actions-StoreAsks :
    (x : ExistingCredential) → StoreAsks x (store_actions x).0 (store_actions x).1
unfolding store_actions
store_actions-StoreAsks absent = asks_save
store_actions-StoreAsks live = asks_update
store_actions-StoreAsks archived = asks_restore

canonicalize_origin-fits :
    (url_parse : UrlParser) (s : Text) {o : Text}
    → canonicalize_origin url_parse s ≡ ok o
    → length s ≤ 512
unfolding canonicalize_origin
canonicalize_origin-fits url_parse s h = ground arith

check_optional_len-fits :
    (name : String) (label : Option Text) (max : ℕ) {u : Unit {0}}
    → check_optional_len name label max ≡ ok u
    → (l : Text) → label ≡ some l
    → length l ≤ max
unfolding check_optional_len check_str_len
check_optional_len-fits name none max h l e = cc
check_optional_len-fits name (some s) max h l e = ground arith

pub refuse_if-eq-ok :
    (b : Bool) (code : ErrorCode) (message : String) {u : Unit {0}}
    → refuse_if b code message ≡ ok u
    → b ≡ false
refuse_if-eq-ok true code message h = cc
refuse_if-eq-ok false code message h = refl

pub not-eq-false : (b : Bool) → not b ≡ false → b ≡ true
not-eq-false true h = refl
not-eq-false false h = cc

module _ {C : CredentialStore} (E : Engine C) where
  pub check_store_request-Checked :
      (origin username : Text) (label : Option Text) (nonce now : ℕ) (w : World C.Store E.Outer)
      {canonical : Text} {gated : World C.Store E.Outer}
      → check_store_request E origin username label nonce now w ≡ (ok canonical, gated)
      → Checked E origin username label nonce now w canonical gated
  unfolding check_store_request
  check_store_request-Checked origin username label nonce now w h =
      by_lift E _ _ h λ canonical origin_ok h. by_lift E _ _ h λ _ nonempty h.
        by_lift E _ _ h λ _ fits h. by_lift E _ _ h λ _ short h.
          by_bind E _ _ h λ _ gated gate_ok h. record {
            origin_ok = origin_ok ∙ ground arith;
            username_ne_nil = λ e. ground (arith, refuse_if-eq-ok _ _ _ nonempty);
            origin_fits = canonicalize_origin-fits E.url_parse origin origin_ok;
            label_fits = check_optional_len-fits "label" label 128 short;
            username_fits = unfold check_str_len in ground arith;
            gate_ok = gate_ok ∙ ground arith;
          }

  store-Stored :
      (p : StoreCredentialParams) (now : ℕ) (w : World C.Store E.Outer) {r : StoreCredentialResult}
      {w' : World C.Store E.Outer}
      → handle_store E p now w ≡ (ok r, w')
      → Stored E p now w r w'
  unfolding handle_store
  store-Stored p now w {r} {w'} h = by_bind E _ _ h λ canonical gated checked h.
      by_bind E _ _ h λ plain opened opens h. by_lift E _ _ h λ _ is_utf8 h.
        by_lift E _ _ h λ _ fits h. by_gets E _ _ h λ h. by_bind E _ _ h λ _ approved asked h.
          by_bind E _ _ h λ _ written committed h. record {
            canonical = canonical;
            plain = plain;
            gated = gated;
            opened = opened;
            approved = approved;
            checked =
                check_store_request-Checked p.origin p.username p.label p.request_nonce now w
                  checked;
            opens = opens;
            is_utf8 = not-eq-false _ (refuse_if-eq-ok _ _ _ is_utf8);
            plain_fits = ground (arith, refuse_if-eq-ok _ _ _ fits);
            question = (store_actions (C.probe opened.store canonical p.username)).0;
            asks =
                (let told : (store_actions (C.probe opened.store canonical p.username)).1
                      ≡ r.action =
                    ground arith in
                  rw told at (store_actions-StoreAsks (C.probe opened.store canonical p.username)));
            consent = ask-eq-ok E _ opened asked;
            committed = committed ∙ ground arith;
          }

-- A store that succeeds has passed the caps on its origin, username and label and the gate, has
-- opened the sealed password to a UTF-8 text of at most 512 bytes, and was approved by the user
-- for what the state of the record calls for: to save a new one, to update a live one, to restore
-- an archived one; the host is told the same. With a store that keeps the contract and a hook that
-- leaves it as it is, the login is then live with that password; the live credentials of every
-- other origin, with their labels, and the state of every other login are as they were when the
-- user approved.
pub store_sound :
    {C : CredentialStore} (E : Engine C) (laws : IsCredentialStore C) (keeps : HookKeepsStore E)
    (p : StoreCredentialParams) (now : ℕ) (w : World C.Store E.Outer) {r : StoreCredentialResult}
    {w' : World C.Store E.Outer}
    → handle_store E p now w ≡ (ok r, w')
    → (d : Stored E p now w r w') × Written E d.canonical p.username d.plain d.approved.store
        w'.store
store_sound E laws keeps p now w h =
    let d = store-Stored E p now w h in
    (
      d,
      commit_upsert-Written E laws keeps d.canonical p.username d.plain p.label d.approved
          d.committed,
    )
