-- ===== src/App/Approver/Consent.antt =====
-- No approval without a tap of the user on a question that was pending.
use passport_passwords.Base.{
  ℕ, List, [], ◌∷◌, ◌++◌, ◌≡◌, ◌⊎◌, inl, inr, refl, ap, ◌∙◌, true, Option, some, length, set,
  get_elem?, get_elem?-set_self, arith,
}
use passport_passwords.Approval.{ApprovalRequest, ApprovalDecision, approve, reject}
use passport_passwords.App.Approver.{
  Approver, PendingApproval, asked, waiting, returned, Ui, carried, send_old, request_replace,
  request_scheduled, request_woken, resolve, on_approve,
}
use passport_passwords.App.Approver.Approvals.{
  approved, Taps, Backed, act-approved, act-new, act-keeps,
}
use passport_passwords.App.Approver.Once.{
  Conserved, count_ends, count_ends-append, count_ends-send_old, run-start-Conserved,
}
use passport_passwords.App.Approver.Schedule.{
  Event, ask, scheduled, woken, tap_approve, act, run, start,
}

-- Somewhere in the schedule the user taps `approve` while `tx` is pending.
pub record Tapped (tx : ℕ) (es : List Event) (s : Approver) : Type 0 where
  pub before : List Event
  pub after : List Event
  pub pending : PendingApproval
  pub whole : es ≡ before ++ tap_approve ∷ after
  pub held : (run before s).slot ≡ some pending
  pub same : pending.tx ≡ tx

Taps-Tapped :
    (tx : ℕ) (e : Event) (es : List Event) (s : Approver) → Taps tx e s → Tapped tx (e ∷ es) s
Taps-Tapped tx tap_approve es s (p, held, same) = record {
  before = [];
  after = es;
  pending = p;
  whole = refl;
  held = held;
  same = same;
}
Taps-Tapped tx _ es s h = absurd h

run-approved :
    (es : List Event) (tx : ℕ) (s : Approver)
    → approved tx (run es s).ends ≡ true
    → (approved tx s.ends ≡ true) ⊎ Tapped tx es s
run-approved [] tx s h = inl h
run-approved (e ∷ es) tx s h = elim (run-approved es tx (act e s) h) [
  | inr t ↦ inr (record {
    before = e ∷ t.before;
    after = t.after;
    pending = t.pending;
    whole = ap (◌∷◌ e) t.whole;
    held = t.held;
    same = t.same;
  })
  | inl a ↦ elim (act-approved tx e s a) [
    | inl old ↦ inl old
    | inr taps ↦ inr (Taps-Tapped tx e es s taps)
  ]
]

run-Backed : (es : List Event) (tx : ℕ) (s : Approver) → Backed tx s → Backed tx (run es s)
run-Backed [] tx s h = h
run-Backed (e ∷ es) tx s (inl n) = run-Backed es tx (act e s) (act-new tx e s n)
run-Backed (e ∷ es) tx s (inr a) = run-Backed es tx (act e s) (inr (act-keeps tx e s a))

-- In every schedule from the start: a call of `request` returns an approval only if the user
-- tapped `approve` at a moment when that very call was the pending one.
pub approve-Tapped :
    (ui : Ui) (es : List Event) (tx : ℕ)
    → get_elem? (run es (start ui)).calls tx ≡ some (returned approve)
    → Tapped tx es (start ui)
approve-Tapped ui es tx h = elim (run-Backed es tx (start ui) (inl (ground arith))) [
  | inl n ↦ absurd (n h)
  | inr a ↦ elim (run-approved es tx (start ui) a) [ inl old ↦ absurd (ground arith) | inr t ↦ t ]
]

get_elem?-append_self {ℓ} :
    {A : Type ℓ} (xs : List A) (v : A) → get_elem? (xs ++ v ∷ []) (length xs) ≡ some v
get_elem?-append_self [] v = refl
get_elem?-append_self (x ∷ xs) v = get_elem?-append_self xs v

carried-append :
    (tx : ℕ) (xs ys : List (ℕ × Option ApprovalDecision))
    → count_ends tx xs ≡ 0
    → carried tx (xs ++ ys) ≡ carried tx ys
carried-append tx [] ys h = refl
carried-append tx ((i, d) ∷ xs) ys h = ground (arith, carried-append tx xs ys)

-- The request and the tap at any state that has kept its channels.
tap_next :
    (s : Approver) (req : ApprovalRequest) (now : ℕ)
    → Conserved (length s.calls) s
    → let tx = length s.calls in
      let t = run (ask req now ∷ scheduled tx ∷ []) s in
      (t.ui ≡ s.ui)
      × (get_elem? (run (tap_approve ∷ woken tx ∷ []) t).calls tx ≡ some (returned approve))
unfolding act request_replace request_scheduled on_approve resolve request_woken
tap_next s req now kept =
    let tx = length s.calls in
    let calls = s.calls ++ asked s.next_id req ∷ [] in
    let ends = s.ends ++ send_old s.slot (some reject) in
    let fresh : get_elem? calls tx ≡ some (asked s.next_id req) =
      get_elem?-append_self s.calls (asked s.next_id req) in
    let waits : get_elem? (set calls tx waiting) tx ≡ some waiting =
      get_elem?-set_self calls tx waiting {w = asked s.next_id req} fresh in
    let unused : count_ends tx ends ≡ 0 = ground (
      arith,
      count_ends-append tx s.ends (send_old s.slot (some reject)),
      count_ends-send_old tx s.slot (some reject),
    ) in
    let sent : carried tx (ends ++ (tx, some approve) ∷ []) ≡ some (some approve) =
      carried-append tx ends ((tx, some approve) ∷ []) unused ∙ ground arith in
    (
      ground arith,
      ground (arith, get_elem?-set_self (set calls tx waiting) tx (returned approve) {w = waiting}),
    )

-- In every schedule from the start: where a request has taken the slot and its question is queued
-- but not drawn, the window is as it was before the request, whatever it shows, and a tap of
-- `approve` makes the new call return an approval.
pub tap_before_draw :
    (ui : Ui) (es : List Event) (req : ApprovalRequest) (now : ℕ)
    → let s = run es (start ui) in
      let tx = length s.calls in
      let t = run (ask req now ∷ scheduled tx ∷ []) s in
      (t.ui ≡ s.ui)
      × (get_elem? (run (tap_approve ∷ woken tx ∷ []) t).calls tx ≡ some (returned approve))
tap_before_draw ui es req now =
    let s = run es (start ui) in tap_next s req now (run-start-Conserved ui es (length s.calls))
