-- ===== src/App/Approver/Once.antt =====
-- No answer is lost and none is given twice.
use passport_passwords.Base.{
  ℕ, ◌+◌, List, [], ◌∷◌, ◌++◌, ◌≡◌, refl, Option, none, some, ◌==◌, ltb, length, set, get_elem?,
  length-append, length-set, arith, Option-cases, inl, inr, if◌then◌else◌,
}
use passport_passwords.Approval.{ApprovalRequest, ApprovalDecision, approve, reject, timeout}
use passport_passwords.App.Approver.{
  Approver, PendingApproval, Call, asked, waiting, returned, Ui, send_old, carried, received,
  clear_own, request_replace, request_scheduled, request_failed, request_woken, resolve, on_approve,
  on_reject, cancel_pending, timeout_tick, run_queued,
}
use passport_passwords.App.Approver.Schedule.{
  Event, ask, scheduled, failed, woken, tap_approve, tap_reject, cancel, draw, close, tick, act,
  run, start,
}

abbrev pub one_if : ℕ → ℕ → ℕ
one_if i tx = if i == tx then 1 else 0

-- How often the channel `tx` has come to its end.
abbrev pub count_ends : ℕ → List (ℕ × Option ApprovalDecision) → ℕ
count_ends tx [] = 0
count_ends tx ((i, d) ∷ ends) = one_if i tx + count_ends tx ends

abbrev pub count_slot : ℕ → Option PendingApproval → ℕ
count_slot tx none = 0
count_slot tx (some p) = one_if p.tx tx

-- Each channel that was made is in the slot or has ended, once; no other is or has.
abbrev pub Conserved : ℕ → Approver → Type 0
Conserved tx s =
    count_slot tx s.slot + count_ends tx s.ends ≡ (if ltb tx (length s.calls) then 1 else 0)

pub count_ends-append :
    (tx : ℕ) (es fs : List (ℕ × Option ApprovalDecision))
    → count_ends tx (es ++ fs) ≡ count_ends tx es + count_ends tx fs
count_ends-append tx [] fs = omega arith
count_ends-append tx ((i, d) ∷ es) fs = omega (arith, count_ends-append tx es fs)

pub count_ends-send_old :
    (tx : ℕ) (slot : Option PendingApproval) (d : Option ApprovalDecision)
    → count_ends tx (send_old slot d) ≡ count_slot tx slot
count_ends-send_old tx none d = refl
count_ends-send_old tx (some p) d = omega arith

resolve-Conserved :
    (tx : ℕ) (d : ApprovalDecision) (s : Approver) → Conserved tx s → Conserved tx (resolve d s)
unfolding resolve
resolve-Conserved tx d s h = omega (
  arith,
  h,
  count_ends-append tx s.ends (send_old s.slot (some d)),
  count_ends-send_old tx s.slot (some d),
)

request_replace-Conserved :
    (tx now : ℕ) (req : ApprovalRequest) (s : Approver)
    → Conserved tx s
    → Conserved tx (request_replace req now s)
unfolding request_replace
request_replace-Conserved tx now req s h = ground (
  arith,
  count_ends-append tx s.ends (send_old s.slot (some reject)),
  count_ends-send_old tx s.slot (some reject),
  length-append s.calls (asked s.next_id req ∷ []),
)

clear_own-Conserved : (tx id : ℕ) (s : Approver) → Conserved tx s → Conserved tx (clear_own id s)
clear_own-Conserved tx id s h = elim (Option-cases s.slot) [
  | inl e ↦ ground arith
  | inr (p, e) ↦ ground (arith, count_ends-append tx s.ends ((p.tx, none) ∷ []))
]

-- The states of the calls do not count, only how many there are.
set-Conserved :
    (tx i : ℕ) (c : Call) (s : Approver)
    → Conserved tx s
    → Conserved tx (record s { calls = set s.calls i c })
set-Conserved tx i c s h = rw (length-set s.calls i c) h

request_scheduled-Conserved :
    (tx i : ℕ) (s : Approver) → Conserved tx s → Conserved tx (request_scheduled i s)
unfolding request_scheduled
request_scheduled-Conserved tx i s h = ground (arith, length-set s.calls i waiting)

request_failed-Conserved :
    (tx i : ℕ) (s : Approver) → Conserved tx s → Conserved tx (request_failed i s)
unfolding request_failed
request_failed-Conserved tx i s h = elim (Option-cases (get_elem? s.calls i)) [
  | inl e ↦ ground arith
  | inr (asked id req, e) ↦
      rw (e, request_failed)
        (clear_own-Conserved tx id (record s { calls = set s.calls i (returned reject) })
          (set-Conserved tx i (returned reject) s h))
  | inr (waiting, e) ↦ ground arith
  | inr (returned d, e) ↦ ground arith
]

request_woken-Conserved :
    (tx i : ℕ) (s : Approver) → Conserved tx s → Conserved tx (request_woken i s)
unfolding request_woken
request_woken-Conserved tx i s h = elim (Option-cases (get_elem? s.calls i)) [
  | inl e ↦ ground arith
  | inr (asked id req, e) ↦ ground arith
  | inr (returned d, e) ↦ ground arith
  | inr (waiting, e) ↦ elim (Option-cases (carried i s.ends)) [
    | inl f ↦ ground arith
    | inr (d, f) ↦ ground (arith, length-set s.calls i (returned (received d)))
  ]
]

pub act-Conserved : (tx : ℕ) (e : Event) (s : Approver) → Conserved tx s → Conserved tx (act e s)
unfolding act on_approve on_reject cancel_pending timeout_tick run_queued
act-Conserved tx (ask req now) s h = request_replace-Conserved tx now req s h
act-Conserved tx (scheduled i) s h = request_scheduled-Conserved tx i s h
act-Conserved tx (failed i) s h = request_failed-Conserved tx i s h
act-Conserved tx (woken i) s h = request_woken-Conserved tx i s h
act-Conserved tx tap_approve s h = resolve-Conserved tx approve s h
act-Conserved tx tap_reject s h = resolve-Conserved tx reject s h
act-Conserved tx cancel s h = ground (arith, resolve-Conserved tx reject s h)
act-Conserved tx (tick now) s h = ground (arith, resolve-Conserved tx timeout s h)
act-Conserved tx draw s h = ground arith
act-Conserved tx close s h = h

pub run-Conserved :
    (es : List Event) (tx : ℕ) (s : Approver) → Conserved tx s → Conserved tx (run es s)
run-Conserved [] tx s h = h
run-Conserved (e ∷ es) tx s h = run-Conserved es tx (act e s) (act-Conserved tx e s h)

-- In every schedule from the start, each call of `request` has one answer at most, and none is
-- lost: its channel is in the slot and has not ended, or is not in the slot and has ended exactly
-- once. No other channel is in the slot or has ended.
pub run-start-Conserved : (ui : Ui) (es : List Event) (tx : ℕ) → Conserved tx (run es (start ui))
run-start-Conserved ui es tx = run-Conserved es tx (start ui) (ground arith)
