-- ===== src/App/Approver.antt =====
-- src/src/main.rs: the approver behind the screen, `SlintApprover`, with the taps of the user and
-- the worker that times requests out. What the threads do between two locks is one event; a list
-- of events is a schedule.
pub mod Schedule
pub mod Once
pub mod Deadline
pub mod Approvals
pub mod Consent
use passport_passwords.Base.{
  ℕ, suc, ◌+◌, ◌%◌, ◌^◌, String, Text, List, [], ◌∷◌, ◌++◌, Bool, true, false, Option, none, some,
  ◌==◌, leb, length, get_elem?, set, if◌then◌else◌,
}
use passport_passwords.Approval.{
  ApprovalAction, release, save, update, restore_and_update, generate, generate_and_update,
  generate_and_restore, bulk_import, title, ApprovalRequest, ApprovalDecision, approve, reject,
  timeout,
}

-- `APPROVAL_TIMEOUT`, in milliseconds
abbrev pub approval_timeout : ℕ
approval_timeout = 60000

-- The sender `tx` is the number of its channel, in the order of `oneshot::channel`; it is the
-- number of the call of `request`, too.
pub record PendingApproval : Type 0 where
  pub id : ℕ
  pub tx : ℕ
  pub deadline : ℕ

unfoldable pub action_label : ApprovalAction → String
action_label release = "Release password"
action_label save = "Save password"
action_label update = "Update password"
action_label restore_and_update = "Restore and update"
action_label generate = "Generate password"
action_label generate_and_update = "Generate new password"
action_label generate_and_restore = "Restore and generate"
action_label bulk_import = "Import passwords"

-- The question on the screen.
pub record ApprovalState : Type 0 where
  pub active : Bool
  pub heading : String
  pub label : String
  pub origin : Text
  pub username : Text

-- Where the page is turned to.
pub data Navigation : Type 0 where
  to_approval backward : Navigation

-- The window, while `upgrade` finds it, with the turns of its page in order.
pub record Ui : Type 0 where
  pub alive : Bool
  pub approval : ApprovalState
  pub turns : List Navigation

-- What `invoke_from_event_loop` queues for the thread of the window.
pub data UiTask : Type 0 where
  show : ApprovalState → UiTask
  hide : UiTask

-- A call of `request`: with its id, before its question is queued; waiting for the channel; and
-- returned.
pub data Call : Type 0 where
  asked : ℕ → ApprovalRequest → Call
  waiting : Call
  returned : ApprovalDecision → Call

-- `ends` lists the channels whose sender is used up, and what was sent if anything was.
pub record Approver : Type 0 where
  pub slot : Option PendingApproval
  pub next_id : ℕ
  pub calls : List Call
  pub ends : List (ℕ × Option ApprovalDecision)
  pub queue : List UiTask
  pub ui : Ui

-- `AtomicU64::fetch_add` wraps around.
abbrev pub u64_mod : ℕ
u64_mod = 2 ^ 64

-- `pending.tx.send(decision)` for what was in the slot.
abbrev pub send_old :
    Option PendingApproval → Option ApprovalDecision → List (ℕ × Option ApprovalDecision)
send_old none decision = []
send_old (some p) decision = (p.tx, decision) ∷ []

-- `request` up to the end of its first lock
unfoldable pub request_replace : ApprovalRequest → ℕ → Approver → Approver
request_replace req now s = record s {
  slot = some (record { id = s.next_id; tx = length s.calls; deadline = now + approval_timeout });
  next_id = (s.next_id + 1) % u64_mod;
  calls = s.calls ++ asked s.next_id req ∷ [];
  ends = s.ends ++ send_old s.slot (some reject);
}

abbrev pub question : ApprovalRequest → ApprovalState
unfolding title action_label
question req = record {
  active = true;
  heading = title req.action;
  label = action_label req.action;
  origin = req.origin;
  username = req.username;
}

-- `request` where the event loop takes the question
unfoldable pub request_scheduled : ℕ → Approver → Approver
request_scheduled tx s = elim (get_elem? s.calls tx) [
  | some (asked id req) ↦ record s {
    calls = set s.calls tx waiting;
    queue = s.queue ++ show (question req) ∷ [];
  }
  | _ ↦ s
]

-- The slot is emptied if it still has the id; the sender in it is dropped.
abbrev pub clear_own : ℕ → Approver → Approver
clear_own id s = elim s.slot [
  | none ↦ s
  | some p ↦ if p.id == id then record s { slot = none; ends = s.ends ++ (p.tx, none) ∷ [] } else s
]

-- `request` where the event loop is gone
unfoldable pub request_failed : ℕ → Approver → Approver
request_failed tx s = elim (get_elem? s.calls tx) [
  | some (asked id req) ↦ clear_own id (record s { calls = set s.calls tx (returned reject) })
  | _ ↦ s
]

-- What the channel `tx` has carried: `none` while its sender is there.
abbrev pub carried : ℕ → List (ℕ × Option ApprovalDecision) → Option (Option ApprovalDecision)
carried tx [] = none
carried tx ((i, d) ∷ ends) = if i == tx then some d else carried tx ends

-- `rx.await`: a sender that was dropped counts as a rejection.
abbrev pub received : Option ApprovalDecision → ApprovalDecision
received none = reject
received (some d) = d

unfoldable pub request_woken : ℕ → Approver → Approver
request_woken tx s = elim (get_elem? s.calls tx) [
  | some waiting ↦ elim (carried tx s.ends) [
    | none ↦ s
    | some d ↦ record s { calls = set s.calls tx (returned (received d)) }
  ]
  | _ ↦ s
]

-- `slot.take()`, with a decision sent to what was in it.
unfoldable pub resolve : ApprovalDecision → Approver → Approver
resolve d s = record s { slot = none; ends = s.ends ++ send_old s.slot (some d) }

abbrev pub inactive : ApprovalState → ApprovalState
inactive a = record a { active = false }

unfoldable pub clear_approval : Ui → Ui
clear_approval ui = if ui.alive then record ui { approval = inactive ui.approval } else ui

abbrev go_backward : Ui → Ui
go_backward ui = if ui.alive then record ui { turns = ui.turns ++ backward ∷ [] } else ui

-- The callbacks `on_approve` and `on_reject`
unfoldable pub on_approve : Approver → Approver
unfolding resolve clear_approval
on_approve s = let t = resolve approve s in record t { ui = go_backward (clear_approval t.ui) }

unfoldable pub on_reject : Approver → Approver
unfolding resolve clear_approval
on_reject s = let t = resolve reject s in record t { ui = go_backward (clear_approval t.ui) }

-- The receiver is there until the call returns.
abbrev is_returned : Option Call → Bool
is_returned (some (returned d)) = true
is_returned _ = false

-- `cancel_pending`, with its result: there was a question, and somebody waits for its answer.
unfoldable pub cancel_pending : Approver → Bool × Approver
unfolding resolve
cancel_pending s = elim s.slot [
  | none ↦ (false, s)
  | some p ↦
      let t = resolve reject s in
      if is_returned (get_elem? s.calls p.tx)
      then (false, t)
      else (true, record t { queue = t.queue ++ hide ∷ [] })
]

-- A round of the worker that times requests out, at the time `now`
unfoldable pub timeout_tick : ℕ → Approver → Approver
unfolding resolve
timeout_tick now s = elim s.slot [
  | none ↦ s
  | some p ↦
      if leb p.deadline now
      then (let t = resolve timeout s in record t { queue = t.queue ++ hide ∷ [] })
      else s
]

-- A closure that was queued, on the window
unfoldable pub run_task : UiTask → Ui → Ui
run_task (show a) ui =
    if ui.alive then record ui { approval = a; turns = ui.turns ++ to_approval ∷ [] } else ui
run_task hide ui =
    if ui.alive
    then record ui { approval = inactive ui.approval; turns = ui.turns ++ backward ∷ [] }
    else ui

-- The event loop runs the closures in their order.
unfoldable pub run_queued : Approver → Approver
unfolding run_task
run_queued s = elim s.queue [
  | [] ↦ s
  | task ∷ queue ↦ record s { queue = queue; ui = run_task task s.ui }
]
