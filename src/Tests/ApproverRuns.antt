-- ===== src/Tests/ApproverRuns.antt =====
-- Runs of the approver.
use passport_passwords.Base.{
  text, List, [], ◌∷◌, ◌≡◌, ◌≢◌, refl, true, false, some, length, get_elem?, arith,
}
use passport_passwords.Approval.{ApprovalRequest, release, save, approve, reject, timeout}
use passport_passwords.App.Approver.{
  Ui, waiting, returned, request_replace, request_scheduled, request_woken, on_approve,
  timeout_tick, run_queued,
}
use passport_passwords.App.Approver.Schedule.{
  Event, ask, scheduled, woken, tap_approve, draw, tick, act, run, start,
}
use passport_passwords.App.Approver.Once.{Conserved, count_ends, count_slot, run-start-Conserved}
use passport_passwords.App.Approver.Deadline.{ask-answered}
use passport_passwords.App.Approver.Consent.{Tapped, approve-Tapped, tap_before_draw}

abbrev window : Ui
window = record {
  alive = true;
  approval = record { active = false; heading = ""; label = ""; origin = []; username = [] };
  turns = [];
}

abbrev release_request : ApprovalRequest
release_request = record {
  action = release;
  origin = text "https://example.com";
  username = text "alice";
  request_nonce = 4;
}

abbrev save_request : ApprovalRequest
save_request = record release_request { action = save; request_nonce = 5 }

-- A second request rejects the first one, and the user approves it.
abbrev overtaken : List Event
overtaken =
    ask release_request 0
    ∷ scheduled 0
    ∷ draw
    ∷ ask save_request 1000
    ∷ woken 0
    ∷ scheduled 1
    ∷ draw
    ∷ tap_approve
    ∷ woken 1
    ∷ []

overtaken_answers : (run overtaken (start window)).calls ≡ returned reject ∷ returned approve ∷ []
unfolding act request_replace request_scheduled request_woken on_approve run_queued
overtaken_answers = refl

timed_out_answer :
    let es =
      ask release_request 0 ∷ scheduled 0 ∷ tick 59999 ∷ woken 0 ∷ tick 60000 ∷ woken 0 ∷ [] in
    (run es (start window)).calls ≡ returned timeout ∷ []
unfolding act request_replace request_scheduled request_woken timeout_tick
timed_out_answer = refl

run-start-Conserved_example : Conserved 1 (run overtaken (start window))
run-start-Conserved_example = run-start-Conserved window overtaken 1

ask-answered_example :
    let s = run overtaken (start window) in
    let t = act (tick 70000) (run (scheduled 2 ∷ []) (act (ask save_request 5000) s)) in
    (count_slot (length s.calls) t.slot ≡ 0)
    × (count_ends (length s.calls) t.ends ≡ 1)
    × (get_elem? (act (woken (length s.calls)) t).calls (length s.calls) ≢ some waiting)
ask-answered_example =
    ask-answered window overtaken (scheduled 2 ∷ []) save_request 5000 70000 (omega arith)

second_approved : get_elem? (run overtaken (start window)).calls 1 ≡ some (returned approve)
unfolding act request_replace request_scheduled request_woken on_approve run_queued
second_approved = refl

approve-Tapped_example : Tapped 1 overtaken (start window)
approve-Tapped_example = approve-Tapped window overtaken 1 second_approved

-- The window shows the release, and the tap approves the storing.
tap_before_draw_example :
    let s = run (ask release_request 0 ∷ scheduled 0 ∷ draw ∷ []) (start window) in
    let tx = length s.calls in
    let t = run (ask save_request 1000 ∷ scheduled tx ∷ []) s in
    (t.ui ≡ s.ui)
    × (get_elem? (run (tap_approve ∷ woken tx ∷ []) t).calls tx ≡ some (returned approve))
tap_before_draw_example =
    tap_before_draw window (ask release_request 0 ∷ scheduled 0 ∷ draw ∷ []) save_request 1000
