-- ===== src/Engine/Generating.antt =====
-- What a successful `generate_password` has done.
use passport_passwords.Base.{
  ℕ, ◌≡◌, ◌≤◌, refl, ◌∙◌, Text, true, ◌||◌, Option, none, some, min, max, Option-cases, inl, inr,
  ok, arith,
}
use passport_passwords.Crypto.{IsCrypto}
use passport_passwords.Protocol.Message.{
  GeneratePasswordParams, GeneratePasswordResult, CharsetHint, default_charset, StoreAction, saved,
  updated, restored_and_updated,
}
use passport_passwords.Approval.{
  ApprovalAction, approve, generate, generate_and_update, generate_and_restore,
}
use passport_passwords.Session.{open_sealed}
use passport_passwords.Store.{
  ExistingCredential, absent, live, archived, CredentialStore, IsCredentialStore,
}
use passport_passwords.Engine.{World, Engine, commit_upsert, seal_password}
use passport_passwords.Engine.Handlers.{
  generate_actions, or_default, generated_length, draw_password, handle_generate,
}
use passport_passwords.Engine.Password.{generate_password}
use passport_passwords.Engine.Password.Strength.{Strong, generate_password-Strong}
use passport_passwords.Engine.Rules.{by_bind, by_lift, by_gets}
use passport_passwords.Engine.Release.{ask-eq-ok, peer, open-seal_password}
use passport_passwords.Engine.Commit.{HookKeepsStore, Written, commit_upsert-Written}
use passport_passwords.Engine.Storing.{
  Checked, check_store_request-Checked, refuse_if-eq-ok, not-eq-false,
}

abbrev pub charset_of : GeneratePasswordParams → CharsetHint
charset_of p = or_default p.charset default_charset

-- What the user is asked, and what the host is then told, for each state of the record.
pub data GenerateAsks : ExistingCredential → ApprovalAction → StoreAction → Type 0 where
  asks_generate : GenerateAsks absent generate saved
  asks_to_update : GenerateAsks live generate_and_update updated
  asks_to_restore : GenerateAsks archived generate_and_restore restored_and_updated

generate_actions-GenerateAsks :
    (x : ExistingCredential) → GenerateAsks x (generate_actions x).0 (generate_actions x).1
unfolding generate_actions
generate_actions-GenerateAsks absent = asks_generate
generate_actions-GenerateAsks live = asks_to_update
generate_actions-GenerateAsks archived = asks_to_restore

-- The steps of a generation that succeeded with `r`, from the world `w` to `w'`.
pub record Generated {C : CredentialStore} (E : Engine C) (p : GeneratePasswordParams) (now : ℕ)
    (w : World C.Store E.Outer) (r : GeneratePasswordResult) (w' : World C.Store E.Outer)
    : Type 0 where
  pub canonical : Text
  pub password : Text
  pub gated : World C.Store E.Outer
  pub approved : World C.Store E.Outer
  pub drawn : World C.Store E.Outer
  pub committed : World C.Store E.Outer
  pub checked : Checked E p.origin p.username p.label p.request_nonce now w canonical gated
  pub enabled : ((charset_of p).letters || (charset_of p).digits || (charset_of p).symbols) ≡ true
  pub question : ApprovalAction
  pub asks : GenerateAsks (C.probe gated.store canonical p.username) question r.action
  pub consent :
      E.request
        (record {
          action = question;
          origin = canonical;
          username = p.username;
          request_nonce = p.request_nonce;
        })
        gated
      ≡ (approve, approved)
  pub draws :
      draw_password E (generated_length p.length) (charset_of p) approved ≡ (ok password, drawn)
  pub commits : commit_upsert E canonical p.username password p.label drawn ≡ (ok tt, committed)
  pub sealed : seal_password E password now committed ≡ (ok r.password_sealed, w')

length_bounds : (o : Option ℕ) → (16 ≤ generated_length o) × (generated_length o ≤ 64)
unfolding generated_length
length_bounds o = ground arith

module _ {C : CredentialStore} (E : Engine C) where
  generate-Generated :
      (p : GeneratePasswordParams) (now : ℕ) (w : World C.Store E.Outer)
      {r : GeneratePasswordResult} {w' : World C.Store E.Outer}
      → handle_generate E p now w ≡ (ok r, w')
      → Generated E p now w r w'
  unfolding handle_generate
  generate-Generated p now w {r} {w'} h = by_bind E _ _ h λ canonical gated checked h.
      by_lift E _ _ h λ _ enabled h. by_gets E _ _ h λ h. by_bind E _ _ h λ _ approved asked h.
        by_bind E _ _ h λ password drawn draws h. by_bind E _ _ h λ _ committed commits h.
          by_bind E _ _ h λ hex after sealed h. record {
            canonical = canonical;
            password = password;
            gated = gated;
            approved = approved;
            drawn = drawn;
            committed = committed;
            checked =
                check_store_request-Checked E p.origin p.username p.label p.request_nonce now w
                  checked;
            enabled = not-eq-false _ (refuse_if-eq-ok _ _ _ enabled);
            question = (generate_actions (C.probe gated.store canonical p.username)).0;
            asks =
                (let told : (generate_actions (C.probe gated.store canonical p.username)).1
                      ≡ r.action =
                    ground arith in
                  rw told at
                    (generate_actions-GenerateAsks (C.probe gated.store canonical p.username)));
            consent = ask-eq-ok E _ gated asked;
            draws = draws;
            commits = commits;
            sealed = sealed ∙ ground arith;
          }

  -- A draw that succeeds has called the generator, and moves nothing but the place on the tape.
  draw_password-eq-ok :
      (len : ℕ) (hint : CharsetHint) (w : World C.Store E.Outer) {password : Text}
      {w' : World C.Store E.Outer}
      → draw_password E len hint w ≡ (ok password, w')
      → (at : ℕ) × (generate_password E.crypto len hint w.rng ≡ some (password, at))
        × (w'.store ≡ w.store)
  unfolding draw_password
  draw_password-eq-ok len hint w h =
      elim (Option-cases (generate_password E.crypto len hint w.rng)) [
        | inl e ↦ absurd (ground arith)
        | inr ((drew, at), e) ↦ (at, ground arith, ground arith)
      ]

-- The length that is asked for, 24 if none is, brought to 16 to 64.
abbrev pub clamped : Option ℕ → ℕ
clamped none = 24
clamped (some n) = max 16 (min 64 n)

generated_length-clamped : (o : Option ℕ) → generated_length o ≡ clamped o
unfolding generated_length
generated_length-clamped none = refl
generated_length-clamped (some n) = ground arith

-- By the laws of the crates of cryptography, with a store that keeps the contract and a hook that
-- leaves it as it is: a generation that succeeds has passed the caps on its origin, username and
-- label and the gate, and was approved by the user for what the state of the record calls for: to
-- generate a new one, to update a live one, to restore an archived one; the host is told the same.
-- The password has the length asked for, 24 if none is, brought to 16 to 64, and a letter, a digit
-- or another printed character of ASCII where that class is enabled and only there, and no other
-- byte. The login is live with it; the live credentials of every other origin, with their labels,
-- and the state of every other login are as they were when the user approved; and every active
-- session that holds the key opens what the host is given to that password.
pub generate_sound :
    {C : CredentialStore} (E : Engine C) (crypto : IsCrypto E.crypto) (laws : IsCredentialStore C)
    (keeps : HookKeepsStore E) (p : GeneratePasswordParams) (now : ℕ) (w : World C.Store E.Outer)
    {r : GeneratePasswordResult} {w' : World C.Store E.Outer}
    → handle_generate E p now w ≡ (ok r, w')
    → (d : Generated E p now w r w') × Strong (charset_of p) (clamped p.length) d.password
      × Written E d.canonical p.username d.password d.approved.store d.committed.store
      × ((n seen now' : ℕ)
          → (open_sealed E.crypto (peer d.committed.session n seen) r.password_sealed now').0
            ≡ ok d.password)
generate_sound {C} E crypto laws keeps p now w h =
    let d = generate-Generated E p now w h in
    let (at, drew, same_store) =
      draw_password-eq-ok E (generated_length p.length) (charset_of p) d.approved d.draws in
    let written =
      commit_upsert-Written E laws keeps d.canonical p.username d.password p.label d.drawn
        d.commits in
    let strong =
      generate_password-Strong E.crypto crypto (generated_length p.length) (charset_of p)
        d.approved.rng {password = d.password} {at' = at} (omega (arith, length_bounds p.length))
        d.enabled drew in
    (
      d,
      rw (generated_length-clamped p.length) at strong,
      rw same_store at written,
      open-seal_password E crypto d.password now d.committed d.sealed,
    )
