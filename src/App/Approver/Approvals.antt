-- ===== src/App/Approver/Approvals.antt =====
-- Which events add an approval to the channels, and to what the calls have returned.
use passport_passwords.Base.{
  ℕ, zero, suc, List, [], ◌∷◌, ◌++◌, ◌≡◌, ◌≢◌, ◌⊎◌, inl, inr, refl, sym, ap, ◌∙◌, Bool, true, false,
  ◌&&◌, ◌||◌, Option, none, some, ◌==◌, ==_iff, set, get_elem?, get_elem?-set_self,
  get_elem?-set_ne, Option-cases, Bool-cases, arith,
}
use passport_passwords.Approval.{ApprovalRequest, ApprovalDecision, approve, reject, timeout}
use passport_passwords.App.Approver.{
  Approver, PendingApproval, Call, asked, waiting, returned, carried, send_old, request_replace,
  request_scheduled, request_failed, request_woken, resolve, on_approve, on_reject, cancel_pending,
  timeout_tick, run_queued,
}
use passport_passwords.App.Approver.Schedule.{
  Event, ask, scheduled, failed, woken, tap_approve, tap_reject, cancel, draw, close, tick, act,
}

abbrev is_approval : Option ApprovalDecision → Bool
is_approval (some approve) = true
is_approval _ = false

-- An approval went over the channel `tx`.
abbrev pub approved : ℕ → List (ℕ × Option ApprovalDecision) → Bool
approved tx [] = false
approved tx ((i, d) ∷ ends) = (i == tx && is_approval d) || approved tx ends

approved-append :
    (tx : ℕ) (xs ys : List (ℕ × Option ApprovalDecision))
    → approved tx (xs ++ ys) ≡ (approved tx xs || approved tx ys)
approved-append tx [] ys = refl
approved-append tx ((i, d) ∷ xs) ys = ground (arith, approved-append tx xs ys)

-- Only an approval that is sent adds one.
approved-send_old :
    (tx : ℕ) (slot : Option PendingApproval) (d : Option ApprovalDecision)
    → is_approval d ≡ false
    → approved tx (send_old slot d) ≡ false
approved-send_old tx none d h = refl
approved-send_old tx (some p) d h = ground arith

resolve-approved :
    (tx : ℕ) (d : ApprovalDecision) (s : Approver)
    → is_approval (some d) ≡ false
    → approved tx (resolve d s).ends ≡ approved tx s.ends
unfolding resolve
resolve-approved tx d s h = ground (
  arith,
  approved-append tx s.ends (send_old s.slot (some d)),
  approved-send_old tx s.slot (some d),
)

request_failed-approved :
    (tx i : ℕ) (s : Approver) → approved tx (request_failed i s).ends ≡ approved tx s.ends
unfolding request_failed
request_failed-approved tx i s = elim (Option-cases (get_elem? s.calls i)) [
  | inl e ↦ ground arith
  | inr (waiting, e) ↦ ground arith
  | inr (returned r, e) ↦ ground arith
  | inr (asked id req, e) ↦ elim (Option-cases s.slot) [
    | inl f ↦ ground arith
    | inr (p, f) ↦ ground (arith, approved-append tx s.ends ((p.tx, none) ∷ []))
  ]
]

request_woken-ends : (i : ℕ) (s : Approver) → (request_woken i s).ends ≡ s.ends
unfolding request_woken
request_woken-ends i s = elim (Option-cases (get_elem? s.calls i)) [
  | inl e ↦ ground arith
  | inr (asked id req, e) ↦ ground arith
  | inr (returned r, e) ↦ ground arith
  | inr (waiting, e) ↦ elim (Option-cases (carried i s.ends)) [
    | inl f ↦ ground arith
    | inr (d, f) ↦ ground arith
  ]
]

-- The user taps `approve` while `tx` is pending.
abbrev pub Taps : ℕ → Event → Approver → Type 0
Taps tx tap_approve s = (p : PendingApproval) × (s.slot ≡ some p) × (p.tx ≡ tx)
Taps tx _ s = ⊥

pub act-approved :
    (tx : ℕ) (e : Event) (s : Approver)
    → approved tx (act e s).ends ≡ true
    → (approved tx s.ends ≡ true) ⊎ Taps tx e s
unfolding act request_replace request_scheduled on_approve on_reject cancel_pending timeout_tick
    run_queued resolve
act-approved tx (ask req now) s h = inl (
    ground (
      arith,
      approved-append tx s.ends (send_old s.slot (some reject)),
      approved-send_old tx s.slot (some reject),
    ))
act-approved tx (scheduled i) s h = inl (ground arith)
act-approved tx (failed i) s h = inl (ground (arith, request_failed-approved tx i s))
act-approved tx (woken i) s h = inl (ap (approved tx) (sym (request_woken-ends i s)) ∙ h)
act-approved tx tap_approve s h = elim (Option-cases s.slot) [
  | inl e ↦ inl (ground (arith, approved-append tx s.ends []))
  | inr (p, e) ↦ elim (Bool-cases (approved tx s.ends)) [
    | inl old ↦ inl old
    | inr new ↦ inr (p, e, ground (arith, approved-append tx s.ends ((p.tx, some approve) ∷ [])))
  ]
]
act-approved tx tap_reject s h = inl (ground (arith, resolve-approved tx reject s))
act-approved tx cancel s h = inl (ground (arith, resolve-approved tx reject s))
act-approved tx (tick now) s h = inl (ground (arith, resolve-approved tx timeout s))
act-approved tx draw s h = inl (ground arith)
act-approved tx close s h = inl h

-- A call that has returned an approval got it over its channel.
abbrev pub Backed : ℕ → Approver → Type 0
Backed tx s = (get_elem? s.calls tx ≢ some (returned approve)) ⊎ (approved tx s.ends ≡ true)

get_elem?-append_asked :
    (calls : List Call) (id tx : ℕ) (req : ApprovalRequest)
    → get_elem? calls tx ≢ some (returned approve)
    → get_elem? (calls ++ asked id req ∷ []) tx ≢ some (returned approve)
get_elem?-append_asked [] id zero req h = ground arith
get_elem?-append_asked [] id (suc tx) req h = ground arith
get_elem?-append_asked (c ∷ calls) id zero req h = h
get_elem?-append_asked (c ∷ calls) id (suc tx) req h = get_elem?-append_asked calls id tx req h

-- A call is set to something that is no approval, or that is backed.
set-Backed :
    (tx i : ℕ) (c : Call) (calls : List Call) {old : Call}
    → get_elem? calls i ≡ some old
    → c ≢ returned approve
    → get_elem? calls tx ≢ some (returned approve)
    → get_elem? (set calls i c) tx ≢ some (returned approve)
set-Backed tx i c calls {old} at other h = elim (Bool-cases (i == tx)) [
  | inl e ↦
      let same : i ≡ tx = (==_iff i tx).0 e in
      ground (arith, get_elem?-set_self calls i c {w = old})
  | inr e ↦ ground (arith, get_elem?-set_ne calls i tx c)
]

carried-approved :
    (tx : ℕ) (ends : List (ℕ × Option ApprovalDecision))
    → carried tx ends ≡ some (some approve)
    → approved tx ends ≡ true
carried-approved tx [] h = cc
carried-approved tx ((i, d) ∷ ends) h = ground (arith, carried-approved tx ends)

pub act-keeps :
    (tx : ℕ) (e : Event) (s : Approver)
    → approved tx s.ends ≡ true
    → approved tx (act e s).ends ≡ true
unfolding act request_replace request_scheduled on_approve on_reject cancel_pending timeout_tick
    run_queued resolve
act-keeps tx (ask req now) s h =
    ground (arith, approved-append tx s.ends (send_old s.slot (some reject)))
act-keeps tx (scheduled i) s h = ground arith
act-keeps tx (failed i) s h = request_failed-approved tx i s ∙ h
act-keeps tx (woken i) s h = ap (approved tx) (request_woken-ends i s) ∙ h
act-keeps tx tap_approve s h =
    ground (arith, approved-append tx s.ends (send_old s.slot (some approve)))
act-keeps tx tap_reject s h =
    ground (arith, approved-append tx s.ends (send_old s.slot (some reject)))
act-keeps tx cancel s h = ground (arith, resolve-approved tx reject s)
act-keeps tx (tick now) s h = ground (arith, resolve-approved tx timeout s)
act-keeps tx draw s h = ground arith
act-keeps tx close s h = h

-- What an event makes of a call that has not returned an approval
pub act-new :
    (tx : ℕ) (e : Event) (s : Approver)
    → get_elem? s.calls tx ≢ some (returned approve)
    → Backed tx (act e s)
unfolding act request_replace request_scheduled request_failed request_woken on_approve on_reject
    cancel_pending timeout_tick run_queued resolve
act-new tx (ask req now) s h = inl (get_elem?-append_asked s.calls s.next_id tx req h)
act-new tx (scheduled i) s h = elim (Option-cases (get_elem? s.calls i)) [
  | inl e ↦ inl (ground arith)
  | inr (waiting, e) ↦ inl (ground arith)
  | inr (returned r, e) ↦ inl (ground arith)
  | inr (asked id req, e) ↦
      inl (ground (arith, set-Backed tx i waiting s.calls {old = asked id req}))
]
act-new tx (failed i) s h = elim (Option-cases (get_elem? s.calls i)) [
  | inl e ↦ inl (ground arith)
  | inr (waiting, e) ↦ inl (ground arith)
  | inr (returned r, e) ↦ inl (ground arith)
  | inr (asked id req, e) ↦ elim (Option-cases s.slot) [
    | inl f ↦ inl (ground (arith, set-Backed tx i (returned reject) s.calls {old = asked id req}))
    | inr (p, f) ↦
        inl (ground (arith, set-Backed tx i (returned reject) s.calls {old = asked id req}))
  ]
]
act-new tx (woken i) s h = elim (Option-cases (get_elem? s.calls i)) [
  | inl e ↦ inl (ground arith)
  | inr (asked id req, e) ↦ inl (ground arith)
  | inr (returned r, e) ↦ inl (ground arith)
  | inr (waiting, e) ↦ elim (Option-cases (carried i s.ends)) [
    | inl f ↦ inl (ground arith)
    | inr (none, f) ↦
        inl (ground (arith, set-Backed tx i (returned reject) s.calls {old = waiting}))
    | inr (some reject, f) ↦
        inl (ground (arith, set-Backed tx i (returned reject) s.calls {old = waiting}))
    | inr (some timeout, f) ↦
        inl (ground (arith, set-Backed tx i (returned timeout) s.calls {old = waiting}))
    | inr (some approve, f) ↦ elim (Bool-cases (i == tx)) [
      | inl same ↦ inr (ground (arith, carried-approved tx s.ends))
      | inr other ↦ inl (ground (arith, get_elem?-set_ne s.calls i tx (returned approve)))
    ]
  ]
]
act-new tx tap_approve s h = inl h
act-new tx tap_reject s h = inl h
act-new tx cancel s h = inl (ground arith)
act-new tx (tick now) s h = inl (ground arith)
act-new tx draw s h = inl (ground arith)
act-new tx close s h = inl h
