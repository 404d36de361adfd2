-- ===== src/Execution/Control.antt =====
-- `control`, `#deliverControl` and `#settleUntrackedControl` of src/orchestrator.ts. The calls on one
-- attempt run one after another (`controlTail`), and a call whose id is in flight joins the call that
-- runs, so each call here is whole.
use agentknot.Common.{
  Bool, List, Option, String, [], err, false, if◌then◌else◌, none, not, ok, some, true, ℕ, ◌&&◌,
  ◌==◌, ◌||◌, ◌∷◌,
}
use agentknot.Execution.Channel.{Delivery, Part, deliver, has_kind, normalize_kinds}
use agentknot.Execution.ControlReceipts.{
  Active, ControlError, Controlled, Controls, Moment, find_request, find_settled,
  invalid_capabilities, not_started, receipt, reused_id, same_request, settled_reason,
  settled_status, settling, uncertain_delivery,
}
use agentknot.Execution.ControlTypes.{
  ControlKind, ControlReason, ControlRequest, ControlStatus, Receipt, accepted, active_attempt_is,
  adapter_rejected, attempt_closing, attempt_not_active, delivery_unsettled, kind_unsupported, lost,
  receipt_persistence_failed, stale_attempt, unsupported,
}
use agentknot.Execution.Log.{Env, Event, Run, RunError, Step, control_requested, emit}

-- The end of a call that has emitted its last event.
unfoldable pub receive :
    List String → (RunError → ControlError) → Receipt → Step (Unit {0}) → Controlled
receive given failure r (run, ok done) = (record { run = run; given = given }, ok r)
receive given failure r (run, err e) = (record { run = run; given = given }, err (failure e))

-- `#settleUntrackedControl`
unfoldable pub settle_untracked : Env → ControlRequest → ℕ → Controls → Controlled
settle_untracked env q requested c =
    let at = env.now c.run.calls in
    receive c.given uncertain_delivery (receipt q lost true requested at (some delivery_unsettled))
      (emit env (settling q lost (some delivery_unsettled)) c.run)

-- The status of a delivery and its reason.
unfoldable pub status_of : Delivery → ControlStatus
status_of d =
    if d.uncertain then lost else elim d.refusal [ none ↦ accepted | some _ ↦ adapter_rejected ]

-- What is to be recorded of a control: whether a handler has been given it, status and reason.
pub record ControlOutcome : Type 0 where
  pub delivered : Bool
  pub status : ControlStatus
  pub reason : Option ControlReason

unfoldable pub stale_reason : Active → ControlRequest → ControlReason
stale_reason active q =
    if q.attempt == active.attempt then attempt_closing else active_attempt_is active.attempt

-- Delivery to the channel of a worker with these kinds.
unfoldable pub try_channel : ControlRequest → Moment → List ControlKind → ControlOutcome
try_channel q m kinds =
    let d = deliver m.channel m.answers in
    if has_kind q.kind kinds
    then record { delivered = d.delivered; status = status_of d; reason = d.refusal }
    else record { delivered = false; status = unsupported; reason = some kind_unsupported }

unfoldable pub reported_kinds : Option (List String) → Part (List ControlKind)
reported_kinds none = ok []
reported_kinds (some kinds) = normalize_kinds kinds

unfoldable pub outcome_of : ControlRequest → Moment → Part (List ControlKind) → Part ControlOutcome
outcome_of q m (err e) = err e
outcome_of q m (ok kinds) = ok (try_channel q m kinds)

-- The branches of `#deliverControl` between its two events.
unfoldable pub try_delivery : Active → ControlRequest → Moment → Part ControlOutcome
try_delivery active q m =
    if not (q.attempt == active.attempt) || m.closes || not m.is_current
    then ok (record {
      delivered = false;
      status = stale_attempt;
      reason = some (stale_reason active q);
    })
    else outcome_of q m (reported_kinds m.kinds)

unfoldable pub give : ControlRequest → Bool → List String → List String
give q delivered given = if delivered then q.control_id ∷ given else given

-- The `catch` of the second event of `#deliverControl`; of two errors the second one is kept.
unfoldable pub record_lost : Env → ControlRequest → ℕ → List String → Run → Controlled
record_lost env q requested given run =
    receive given uncertain_delivery
      (receipt q lost true requested (env.now run.calls) (some receipt_persistence_failed))
      (emit env (settling q lost (some receipt_persistence_failed)) run)

unfoldable pub after_second :
    Env → ControlRequest → ℕ → ℕ → List String → ControlOutcome → Step (Unit {0}) → Controlled
after_second env q requested settled given o (run, ok done) =
    (record { run = run; given = given }, ok (receipt q o.status true requested settled o.reason))
after_second env q requested settled given o (run, err e) =
    let lost_too = record_lost env q requested given run in
    if o.delivered then lost_too else (record { run = run; given = given }, err (not_started e))

unfoldable pub record_outcome :
    Env → ControlRequest → ℕ → List String → Run → Part ControlOutcome → Controlled
record_outcome env q requested given run (err e) =
    (record { run = run; given = given }, err invalid_capabilities)
record_outcome env q requested given run (ok o) =
    after_second env q requested (env.now run.calls) (give q o.delivered given) o
      (emit env (settling q o.status o.reason) run)

unfoldable pub after_first :
    Env → Active → ControlRequest → Moment → ℕ → List String → Step (Unit {0}) → Controlled
after_first env active q m requested given (run, err e) =
    (record { run = run; given = given }, err (not_started e))
after_first env active q m requested given (run, ok done) =
    record_outcome env q requested given run (try_delivery active q m)

-- `#deliverControl`
unfoldable pub deliver_control : Env → Active → ControlRequest → Moment → Controls → Controlled
deliver_control env active q m c =
    after_first env active q m (env.now c.run.calls) c.given (emit env (control_requested q) c.run)

abbrev pub is_open_for : ℕ → Option Active → Bool
is_open_for attempt none = false
is_open_for attempt (some a) = not a.is_closing && a.attempt == attempt

-- A control that was requested before, by the event that settled it.
unfoldable pub known_control :
    Env → Option Active → ControlRequest → Event → Option Event → Controls → Controlled
known_control env active q requested (some settled) c = (
  c,
  ok (
      receipt q (settled_status settled.type) true requested.at settled.at
        (settled_reason settled.type)),
)
known_control env active q requested none c =
    if is_open_for q.attempt active
    then settle_untracked env q requested.at c
    else (c, ok (receipt q lost false requested.at (env.now c.run.calls) (some delivery_unsettled)))

-- A control that was not requested before.
unfoldable pub fresh_control : Env → Option Active → ControlRequest → Moment → Controls → Controlled
fresh_control env none q m c =
    let now = env.now c.run.calls in
    (c, ok (receipt q stale_attempt false now now (some attempt_not_active)))
fresh_control env (some active) q m c =
    let now = env.now c.run.calls in
    if active.is_closing
    then (c, ok (receipt q stale_attempt false now now (some attempt_not_active)))
    else deliver_control env active q m c

-- The events that the call looks at: those of the Job in memory, or of the stored one.
unfoldable pub visible_events : Option Active → Run → List Event
visible_events none run = run.stored.events
visible_events (some active) run = run.job.events

unfoldable pub control_by :
    Env
    → Option Active
    → ControlRequest
    → Moment
    → List Event
    → Option Event
    → Controls
    → Controlled
control_by env active q m events none c = fresh_control env active q m c
control_by env active q m events (some requested) c =
    if same_request q requested.type
    then known_control env active q requested (find_settled q.control_id requested.sequence events)
        c
    else (c, err reused_id)

-- `control`
unfoldable pub control : Env → Option Active → ControlRequest → Moment → Controls → Controlled
control env active q m c =
    let events = visible_events active c.run in
    control_by env active q m events (find_request q.control_id events) c
