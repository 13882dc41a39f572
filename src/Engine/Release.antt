-- ===== src/Engine/Release.antt =====
-- What a successful `release_credential` has done.
use mathlib.Core.List.{Mem}
use passport_passwords.Base.{
  Bool, ◌≡◌, refl, ◌∙◌, ap, ℕ, Text, List, [], ◌∷◌, Option, none, some, ok, arith, find, text_eq,
  text_eq_iff,
}
use passport_passwords.Base.Find.{find-Mem, find_sound}
use passport_passwords.Crypto.{IsCrypto}
use passport_passwords.Protocol.Message.{ReleaseCredentialResult}
use passport_passwords.Approval.{ApprovalRequest, approve, release}
use passport_passwords.Session.{Session, active, seal, open_sealed}
use passport_passwords.Session.Channel.{open-seal}
use passport_passwords.Store.{CredentialStore, CredentialMatch}
use passport_passwords.Engine.{World, Engine, canonicalize_origin, gate_session, ask, seal_password}
use passport_passwords.Engine.Handlers.{choose, handle_release}
use passport_passwords.Engine.Rules.{by_bind, by_lift, by_gets}

-- The session of the other side: active with the same key, whatever else it counts.
abbrev pub peer : Session → ℕ → ℕ → Session
peer s nonce seen = record {
  state = active;
  key = s.key;
  last_nonce = nonce;
  last_activity_ms = seen;
}

-- The steps of a release that succeeded with `r`, from the world `w` to `w'`.
pub record Released {C : CredentialStore} (E : Engine C) (origin : Text) (hint : Option Text)
    (nonce now : ℕ) (w : World C.Store E.Outer) (r : ReleaseCredentialResult)
    (w' : World C.Store E.Outer) : Type 0 where
  pub canonical : Text
  pub cred : CredentialMatch
  -- after the gate, and after the user's answer
  pub gated : World C.Store E.Outer
  pub approved : World C.Store E.Outer
  pub origin_ok : canonicalize_origin E.url_parse origin ≡ ok canonical
  pub gate_ok : gate_session E nonce now w ≡ (ok tt, gated)
  pub chosen : choose (C.find_by_origin gated.store canonical) hint ≡ ok cred
  pub consent :
      E.request
        (record {
          action = release;
          origin = canonical;
          username = cred.username;
          request_nonce = nonce;
        })
        gated
      ≡ (approve, approved)
  pub username : r.username ≡ cred.username
  pub sealed : seal_password E cred.password now approved ≡ (ok r.password_sealed, w')

module _ {C : CredentialStore} (E : Engine C) where
  -- A handler that asks goes on only from a world that the user approved.
  pub ask-eq-ok :
      (req : ApprovalRequest) (w : World C.Store E.Outer) {w' : World C.Store E.Outer}
      → ask E req w ≡ (ok tt, w')
      → E.request req w ≡ (approve, w')
  unfolding ask
  ask-eq-ok req w h = ground arith

  pub release-Released :
      (origin : Text) (hint : Option Text) (nonce now : ℕ) (w : World C.Store E.Outer)
      {r : ReleaseCredentialResult} {w' : World C.Store E.Outer}
      → handle_release E origin hint nonce now w ≡ (ok r, w')
      → Released E origin hint nonce now w r w'
  unfolding handle_release
  release-Released origin hint nonce now w {r} {w'} h = by_lift E _ _ h λ canonical origin_ok h.
      by_lift E _ _ h λ _ _ h. by_bind E _ _ h λ _ gated gate_ok h. by_gets E _ _ h λ h.
        by_lift E _ _ h λ cred chosen h. by_bind E _ _ h λ _ approved asked h.
          by_bind E _ _ h λ password after sealed h. record {
            canonical = canonical;
            cred = cred;
            gated = gated;
            approved = approved;
            origin_ok = origin_ok;
            gate_ok = gate_ok;
            chosen = chosen;
            consent = ask-eq-ok _ gated asked;
            username = ground arith;
            sealed = sealed ∙ ground arith;
          }

  pub seal_password-eq-ok :
      (plain : Text) (now : ℕ) (w : World C.Store E.Outer) {hex : Text} {w' : World C.Store E.Outer}
      → seal_password E plain now w ≡ (ok hex, w')
      → seal E.crypto w.session plain now w.rng ≡ (ok hex, w'.session, w'.rng)
  unfolding seal_password
  seal_password-eq-ok plain now w h = ground arith

  -- A password that was sealed on a world's session is opened by every session with its key.
  pub open-seal_password :
      IsCrypto E.crypto
      → (plain : Text) (now : ℕ) (w : World C.Store E.Outer) {hex : Text}
        {w' : World C.Store E.Outer}
      → seal_password E plain now w ≡ (ok hex, w')
      → (nonce seen now' : ℕ)
      → (open_sealed E.crypto (peer w.session nonce seen) hex now').0 ≡ ok plain
  open-seal_password laws plain now w h nonce seen now' =
      ap (λ p. p.0)
        (open-seal E.crypto laws w.session (peer w.session nonce seen) plain now now' w.rng refl
          refl (seal_password-eq-ok plain now w h))

abbrev pub named : Text → CredentialMatch → Bool
named h r = text_eq r.username h

pub found_of :
    (ms : List CredentialMatch) (h : Text) {m : CredentialMatch}
    → choose ms (some h) ≡ ok m
    → find (named h) ms ≡ some m
unfolding choose
found_of [] h e = cc
found_of (c ∷ cs) h e = ground arith

-- A choice is one of the candidates: the one with the username of the hint, or the only one.
abbrev pub IsChoice : List CredentialMatch → Option Text → CredentialMatch → Type 0
IsChoice ms (some h) m = Mem m ms × (m.username ≡ h)
IsChoice ms none m = ms ≡ m ∷ []

pub choose-IsChoice :
    (ms : List CredentialMatch) (hint : Option Text) {m : CredentialMatch}
    → choose ms hint ≡ ok m
    → IsChoice ms hint m
unfolding choose
choose-IsChoice [] hint h = cc
choose-IsChoice (c ∷ cs) (some h) {m} e =
    let found : find (named h) (c ∷ cs) ≡ some m = found_of (c ∷ cs) h e in
    (
      find-Mem (named h) (c ∷ cs) found,
      (text_eq_iff m.username h).0 (find_sound (named h) (c ∷ cs) found),
    )
choose-IsChoice (c ∷ []) none e = ground arith
choose-IsChoice (c ∷ _ ∷ _) none e = cc

-- By the laws of the crates of cryptography: a release that succeeds has passed the gate, has
-- chosen one of the records of the canonical origin (the one that the hint names, or the only
-- one), and was approved by the user for that action, origin, username and nonce. Every active
-- session that holds the key of the session at that time opens the sealed password to the
-- password of that record.
pub release_sound :
    {C : CredentialStore} (E : Engine C) (laws : IsCrypto E.crypto) (origin : Text)
    (hint : Option Text) (nonce now : ℕ) (w : World C.Store E.Outer) {r : ReleaseCredentialResult}
    {w' : World C.Store E.Outer}
    → handle_release E origin hint nonce now w ≡ (ok r, w')
    → (d : Released E origin hint nonce now w r w') × IsChoice
        (C.find_by_origin d.gated.store d.canonical)
        hint
        d.cred
      × ((n seen now' : ℕ)
          → (open_sealed E.crypto (peer d.approved.session n seen) r.password_sealed now').0
            ≡ ok d.cred.password)
release_sound E laws origin hint nonce now w h =
    let d = release-Released E origin hint nonce now w h in
    (
      d,
      choose-IsChoice _ hint d.chosen,
      open-seal_password E laws d.cred.password now d.approved d.sealed,
    )
