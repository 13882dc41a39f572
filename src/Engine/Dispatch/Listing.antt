-- ===== src/Engine/Dispatch/Listing.antt =====
-- What `list_credentials` answers.
use mathlib.Core.List.{Perm}
use passport_passwords.Base.{
  text_lt_asymm, text_lt, [], ◌∷◌, ◌<◌, ◌⊎◌, ap, ℕ, ◌≡◌, Text, List, map, true, false, ok, arith,
}
use passport_passwords.Base.Sort.{sort_by, IsSorted, sort_by-perm, sort_by-IsSorted}
use passport_passwords.Protocol.Message.{
  list_credentials, ListCredentialsParams, ListCredentialsResult, credentials_listed,
  WireCredentialSummary,
}
use passport_passwords.Store.{CredentialStore}
use passport_passwords.Engine.{World, Engine, canonicalize_origin, gate_active_session}
use passport_passwords.Engine.Rules.{by_bind, by_lift, by_gets}
use passport_passwords.Engine.Dispatch.{dispatch, shown_before, to_wire}

-- The later used first, and of two used at the same time the one whose username is not greater.
abbrev pub NotAfter : WireCredentialSummary → WireCredentialSummary → Type 0
NotAfter a b =
    (b.last_used_at < a.last_used_at)
    ⊎ ((b.last_used_at ≡ a.last_used_at) × (text_lt b.username a.username ≡ false))

abbrev pub FirstBefore : WireCredentialSummary → List WireCredentialSummary → Type 0
FirstBefore a [] = Unit
FirstBefore a (b ∷ _) = NotAfter a b

-- Neighbours are in order.
abbrev pub Ordered : List WireCredentialSummary → Type 0
Ordered [] = Unit
Ordered (a ∷ r) = FirstBefore a r × Ordered r

-- The steps of a listing that succeeded.
pub record Listed {C : CredentialStore} (E : Engine C) (origin : Text) (now : ℕ)
    (w : World C.Store E.Outer) (r : List WireCredentialSummary) (w' : World C.Store E.Outer)
    : Type 0 where
  pub canonical : Text
  pub origin_ok : canonicalize_origin E.url_parse origin ≡ ok canonical
  pub gate_ok : gate_active_session E now w ≡ (ok tt, w')
  pub perm : Perm r (map to_wire (C.list_credentials_for_origin w'.store canonical))
  pub ordered : Ordered r

-- One of two credentials is shown before the other.
shown_before-total :
    (a b : WireCredentialSummary) → shown_before a b ≡ false → shown_before b a ≡ true
shown_before-total a b h = ground (arith, text_lt_asymm b.username a.username)

shown_before-NotAfter : (a b : WireCredentialSummary) → shown_before a b ≡ true → NotAfter a b
shown_before-NotAfter a b h = ground arith

IsSorted-Ordered : (r : List WireCredentialSummary) → IsSorted shown_before r → Ordered r
IsSorted-Ordered [] s = tt
IsSorted-Ordered (a ∷ []) s = (tt, tt)
IsSorted-Ordered (a ∷ b ∷ r) s = (shown_before-NotAfter a b s.0, IsSorted-Ordered (b ∷ r) s.1)

-- A listing that succeeds has passed the gate, and shows the credentials that the store lists for
-- the canonical origin, each as often as there: the latest used first, and by username among those
-- used at the same time.
pub list_credentials_lem :
    {C : CredentialStore} (E : Engine C) (p : ListCredentialsParams) (now : ℕ)
    (w : World C.Store E.Outer) {r : ListCredentialsResult} {w' : World C.Store E.Outer}
    → dispatch E (list_credentials p) now w ≡ (ok (credentials_listed r), w')
    → Listed E p.origin now w r.credentials w'
unfolding dispatch
list_credentials_lem {C} E p now w {r} {w'} h = by_bind E _ _ h λ _ gated gate_ok h.
    by_lift E _ _ h λ canonical origin_ok h. by_gets E _ _ h λ h.
      let sorted_list =
        sort_by shown_before (map to_wire (C.list_credentials_for_origin gated.store canonical)) in
      let shown : sorted_list ≡ r.credentials = ground arith in
      let same : gated ≡ w' = ap (λ q. q.1) h in
      rw (← same) (
        rw (← shown) (record {
          canonical = canonical;
          origin_ok = origin_ok;
          gate_ok = gate_ok;
          perm = sort_by-perm shown_before _;
          ordered =
              IsSorted-Ordered sorted_list (sort_by-IsSorted shown_before shown_before-total _);
        }))
