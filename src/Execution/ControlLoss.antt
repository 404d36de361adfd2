-- ===== src/Execution/ControlLoss.antt =====
-- `#markPendingControlsLost` of src/orchestrator.ts.
use agentknot.Common.{Bool, List, Option, [], false, keep, none, ok, some, ℕ, ◌==◌, ◌∷◌}
use agentknot.Execution.ControlReceipts.{find_settled, settling}
use agentknot.Execution.ControlTypes.{ControlReason, ControlRequest, lost}
use agentknot.Execution.Log.{Env, Event, EventType, Run, Step, after, control_requested, emit}

unfoldable pub request_of : EventType → Option ControlRequest
request_of (control_requested q) = some q
request_of _ = none

-- A control, by the event that settled it.
unfoldable pub mark_unsettled :
    Env → ControlReason → ControlRequest → Option Event → Run → Step (Unit {0})
mark_unsettled env reason q (some settled) run = (run, ok tt)
mark_unsettled env reason q none run = emit env (settling q lost (some reason)) run

-- One round of the loop.
unfoldable pub mark_lost : Env → ControlReason → Option ControlRequest → ℕ → Run → Step (Unit {0})
mark_lost env reason none sequence run = (run, ok tt)
mark_lost env reason (some q) sequence run =
    mark_unsettled env reason q (find_settled q.control_id sequence run.job.events) run

-- The loop of `#markPendingControlsLost`.
unfoldable pub mark_each : Env → ControlReason → List Event → Run → Step (Unit {0})
mark_each env reason [] run = (run, ok tt)
mark_each env reason (e ∷ es) run =
    after (mark_lost env reason (request_of e.type) e.sequence run)
      (λ r done. mark_each env reason es r)

unfoldable pub requests_in : ℕ → EventType → Bool
requests_in attempt (control_requested q) = q.attempt == attempt
requests_in attempt _ = false

-- `#markPendingControlsLost`
unfoldable pub mark_pending_lost : Env → ℕ → ControlReason → Run → Step (Unit {0})
mark_pending_lost env attempt reason run =
    mark_each env reason (keep (λ (e : Event). requests_in attempt e.type) run.job.events) run
