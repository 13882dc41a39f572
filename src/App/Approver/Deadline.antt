-- ===== src/App/Approver/Deadline.antt =====
-- A question that nobody answers comes to its end at its deadline.
use passport_passwords.Base.{
  ℕ, ◌+◌, ◌<◌, ◌≤◌, List, [], ◌∷◌, ◌≡◌, ◌≢◌, ◌⊎◌, inl, inr, refl, Option, none, some, length,
  get_elem?, length-append, length-set, get_elem?-set_self, Option-cases, arith,
}
use passport_passwords.Approval.{ApprovalRequest, ApprovalDecision, reject}
use passport_passwords.App.Approver.{
  Approver, PendingApproval, asked, waiting, returned, Ui, carried, received, approval_timeout,
  request_replace, request_scheduled, request_failed, request_woken, resolve, on_approve, on_reject,
  cancel_pending, timeout_tick, run_queued,
}
use passport_passwords.App.Approver.Schedule.{
  Event, ask, scheduled, failed, woken, tap_approve, tap_reject, cancel, draw, close, tick, act,
  run, start,
}
use passport_passwords.App.Approver.Once.{
  count_ends, count_slot, Conserved, act-Conserved, run-Conserved, run-start-Conserved,
}

-- If the slot holds the channel `tx`, its deadline is `d`.
abbrev DueIn : ℕ → ℕ → Option PendingApproval → Type 0
DueIn tx d none = Unit
DueIn tx d (some p) = (p.tx ≢ tx) ⊎ (p.deadline ≡ d)

record Due (tx d : ℕ) (s : Approver) : Type 0 where
  made : tx < length s.calls
  due : DueIn tx d s.slot

act-Due : (tx d : ℕ) (e : Event) (s : Approver) → Due tx d s → Due tx d (act e s)
unfolding act request_replace request_scheduled request_failed request_woken resolve on_approve
    on_reject cancel_pending timeout_tick run_queued
act-Due tx d (ask req now) s h = record {
  made = omega (arith, h.made, length-append s.calls (asked s.next_id req ∷ []));
  due = inl (ground (arith, h.made));
}
act-Due tx d (scheduled i) s h = ground (arith, length-set s.calls i waiting)
act-Due tx d (failed i) s h = elim (Option-cases (get_elem? s.calls i)) [
  | inl e ↦ ground arith
  | inr (waiting, e) ↦ ground arith
  | inr (returned r, e) ↦ ground arith
  | inr (asked id req, e) ↦ elim (Option-cases s.slot) [
    | inl f ↦ ground (arith, length-set s.calls i (returned reject))
    | inr (p, f) ↦ ground (arith, length-set s.calls i (returned reject))
  ]
]
act-Due tx d (woken i) s h = elim (Option-cases (get_elem? s.calls i)) [
  | inl e ↦ ground arith
  | inr (asked id req, e) ↦ ground arith
  | inr (returned r, e) ↦ ground arith
  | inr (waiting, e) ↦ elim (Option-cases (carried i s.ends)) [
    | inl f ↦ ground arith
    | inr (r, f) ↦ ground (arith, length-set s.calls i (returned (received r)))
  ]
]
act-Due tx d tap_approve s h = record { made = h.made; due = tt }
act-Due tx d tap_reject s h = record { made = h.made; due = tt }
act-Due tx d cancel s h = ground arith
act-Due tx d (tick now) s h = ground arith
act-Due tx d draw s h = ground arith
act-Due tx d close s h = record { made = h.made; due = h.due }

run-Due : (es : List Event) (tx d : ℕ) (s : Approver) → Due tx d s → Due tx d (run es s)
run-Due [] tx d s h = h
run-Due (e ∷ es) tx d s h = run-Due es tx d (act e s) (act-Due tx d e s h)

timeout_tick-empties :
    (tx d now : ℕ) (s : Approver)
    → d ≤ now
    → Due tx d s
    → count_slot tx (timeout_tick now s).slot ≡ 0
unfolding timeout_tick resolve
timeout_tick-empties tx d now s le h = elim (Option-cases s.slot) [
  | inl e ↦ ground arith
  | inr (p, e) ↦ ground (arith, h.due)
]

carried-count_ends :
    (tx : ℕ) (ends : List (ℕ × Option ApprovalDecision))
    → count_ends tx ends ≡ 1
    → carried tx ends ≢ none
carried-count_ends tx [] h = absurd (omega arith)
carried-count_ends tx ((i, d) ∷ ends) h = ground (arith, carried-count_ends tx ends)

timeout_tick-length : (now : ℕ) (s : Approver) → length (timeout_tick now s).calls ≡ length s.calls
unfolding timeout_tick resolve
timeout_tick-length now s = ground arith

asked-Due :
    (req : ApprovalRequest) (at : ℕ) (s : Approver)
    → Due (length s.calls) (at + approval_timeout) (act (ask req at) s)
unfolding act request_replace
asked-Due req at s = record {
  made = omega (arith, length-append s.calls (asked s.next_id req ∷ []));
  due = inr refl;
}

woken-ends :
    (tx : ℕ) (s : Approver)
    → count_ends tx s.ends ≡ 1
    → get_elem? (act (woken tx) s).calls tx ≢ some waiting
unfolding act request_woken
woken-ends tx s h = elim (Option-cases (carried tx s.ends)) [
  | inl e ↦ absurd (carried-count_ends tx s.ends h e)
  | inr (d, e) ↦ elim (Option-cases (get_elem? s.calls tx)) [
    | inl f ↦ ground arith
    | inr (asked id req, f) ↦ ground arith
    | inr (returned r, f) ↦ ground arith
    | inr (waiting, f) ↦
        ground (arith, get_elem?-set_self s.calls tx (returned (received d)) {w = waiting})
  ]
]

-- In every schedule: a request is answered at the latest by the first round of the worker at or
-- after its deadline, 60 seconds after it was made, whatever happens in between. Its channel is
-- then not in the slot and has ended exactly once, and the call of `request`, when it is woken,
-- does not wait any more.
pub ask-answered :
    (ui : Ui) (before between : List Event) (req : ApprovalRequest) (at now : ℕ)
    → at + approval_timeout ≤ now
    → let s = run before (start ui) in
      let tx = length s.calls in
      let t = act (tick now) (run between (act (ask req at) s)) in
      (count_slot tx t.slot ≡ 0)
      × (count_ends tx t.ends ≡ 1)
      × (get_elem? (act (woken tx) t).calls tx ≢ some waiting)
unfolding act
ask-answered ui before between req at now le =
    let s = run before (start ui) in
    let tx = length s.calls in
    let u = run between (act (ask req at) s) in
    let due : Due tx (at + approval_timeout) u =
      run-Due between tx (at + approval_timeout) (act (ask req at) s) (asked-Due req at s) in
    let empty = timeout_tick-empties tx (at + approval_timeout) now u le due in
    let kept : Conserved tx (timeout_tick now u) = act-Conserved tx (tick now) u (
      run-Conserved between tx (act (ask req at) s)
        (act-Conserved tx (ask req at) s (run-start-Conserved ui before tx))) in
    let once : count_ends tx (timeout_tick now u).ends ≡ 1 =
      ground (arith, timeout_tick-length now u, due.made) in
    (empty, once, woken-ends tx (timeout_tick now u) once)
