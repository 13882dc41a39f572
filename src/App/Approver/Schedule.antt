-- ===== src/App/Approver/Schedule.antt =====
-- Schedules of the threads around the approver: the engine's calls, the taps of the user, the
-- worker and the event loop, in any order.
use passport_passwords.Base.{ℕ, List, [], ◌∷◌, ◌++◌, ◌≡◌, refl, false, none}
use passport_passwords.Approval.{ApprovalRequest}
use passport_passwords.App.Approver.{
  Approver, Ui, request_replace, request_scheduled, request_failed, request_woken, on_approve,
  on_reject, cancel_pending, timeout_tick, run_queued,
}

pub data Event : Type 0 where
  ask : ApprovalRequest → ℕ → Event
  scheduled failed woken : ℕ → Event
  tap_approve tap_reject cancel draw close : Event
  tick : ℕ → Event

unfoldable pub act : Event → Approver → Approver
act (ask req now) s = request_replace req now s
act (scheduled tx) s = request_scheduled tx s
act (failed tx) s = request_failed tx s
act (woken tx) s = request_woken tx s
act tap_approve s = on_approve s
act tap_reject s = on_reject s
act cancel s = (cancel_pending s).1
act draw s = run_queued s
act close s = record s { ui = record s.ui { alive = false } }
act (tick now) s = timeout_tick now s

abbrev pub run : List Event → Approver → Approver
run [] s = s
run (e ∷ es) s = run es (act e s)

-- The approver when the application starts.
abbrev pub start : Ui → Approver
start ui = record { slot = none; next_id = 1; calls = []; ends = []; queue = []; ui = ui }

pub run-append : (es fs : List Event) (s : Approver) → run (es ++ fs) s ≡ run fs (run es s)
run-append [] fs s = refl
run-append (e ∷ es) fs s = run-append es fs (act e s)
