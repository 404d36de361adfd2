-- ===== src/Execution/ControlReceipts.antt =====
-- What the controls of src/orchestrator.ts look at: the attempt, the events of the log that name a
-- control, and the receipt.
use agentknot.Common.{
  Bool, List, Option, Result, String, false, find, ltb, none, text_eq, ℕ, ◌&&◌, ◌==◌,
}
use agentknot.Execution.Channel.{Channel, Handled, kind_eq}
use agentknot.Execution.ControlTypes.{
  ControlReason, ControlRequest, ControlStatus, Receipt, Settlement, accepted, adapter_rejected,
  lost, stale_attempt, unsupported,
}
use agentknot.Execution.Log.{
  Event, EventType, Run, RunError, control_accepted, control_lost, control_rejected,
  control_requested,
}

-- The active attempt as the call finds it at first.
pub record Active : Type 0 where
  pub attempt : ℕ
  pub is_closing : Bool

-- What `#deliverControl` finds after its first event: whether the attempt closes or has been
-- replaced, the kinds that the adapter reports, the channel, and what each handler would answer.
pub record Moment : Type 0 where
  pub closes : Bool
  pub is_current : Bool
  pub kinds : Option (List String)
  pub channel : Channel
  pub answers : ℕ → Handled

-- The Job, and the ids of the controls that a handler has been given.
pub record Controls : Type 0 where
  pub run : Run
  pub given : List String

pub data ControlError : Type 0 where
  reused_id invalid_capabilities : ControlError
  not_started uncertain_delivery : RunError → ControlError

abbrev pub Controlled : Type 0
Controlled = Controls × Result ControlError Receipt

unfoldable pub requests_id : String → EventType → Bool
requests_id id (control_requested q) = text_eq q.control_id id
requests_id id _ = false

-- An event that settles the control of an id.
unfoldable pub settles_id : String → EventType → Bool
settles_id id (control_accepted s) = text_eq s.control_id id
settles_id id (control_rejected s) = text_eq s.control_id id
settles_id id (control_lost s) = text_eq s.control_id id
settles_id id _ = false

unfoldable pub find_request : String → List Event → Option Event
find_request id events = find (λ (e : Event). requests_id id e.type) events

unfoldable pub find_settled : String → ℕ → List Event → Option Event
find_settled id sequence events =
    find (λ (e : Event). ltb sequence e.sequence && settles_id id e.type) events

unfoldable pub same_request : ControlRequest → EventType → Bool
same_request q (control_requested r) =
    r.attempt == q.attempt && kind_eq r.kind q.kind && text_eq r.message q.message
same_request q _ = false

-- `#controlRejectionStatus`
unfoldable pub rejection_status : ControlStatus → ControlStatus
rejection_status unsupported = unsupported
rejection_status stale_attempt = stale_attempt
rejection_status _ = adapter_rejected

unfoldable pub settled_status : EventType → ControlStatus
settled_status (control_accepted s) = accepted
settled_status (control_lost s) = lost
settled_status (control_rejected s) = rejection_status s.status
settled_status _ = adapter_rejected

unfoldable pub settled_reason : EventType → Option ControlReason
settled_reason (control_accepted s) = s.reason
settled_reason (control_lost s) = s.reason
settled_reason (control_rejected s) = s.reason
settled_reason _ = none

unfoldable pub settlement : ControlRequest → ControlStatus → Option ControlReason → Settlement
settlement q status reason = record {
  control_id = q.control_id;
  attempt = q.attempt;
  kind = q.kind;
  status = status;
  reason = reason;
}

-- The type of the event that settles a control with a status.
unfoldable pub settling : ControlRequest → ControlStatus → Option ControlReason → EventType
settling q accepted reason = control_accepted (settlement q accepted reason)
settling q lost reason = control_lost (settlement q lost reason)
settling q status reason = control_rejected (settlement q status reason)

unfoldable pub receipt :
    ControlRequest → ControlStatus → Bool → ℕ → ℕ → Option ControlReason → Receipt
receipt q status durable requested settled reason = record {
  request = q;
  status = status;
  durable = durable;
  requested_at = requested;
  settled_at = settled;
  reason = reason;
}
