-- ===== src/Execution/ControlTypes.antt =====
-- The requests of worker controls and how they end: src/types.ts and src/orchestrator.ts.
use agentknot.Common.{Bool, Option, String, ℕ}

pub data ControlKind : Type 0 where
  steer follow_up : ControlKind

pub record ControlRequest : Type 0 where
  pub control_id : String
  pub attempt : ℕ
  pub kind : ControlKind
  pub message : String

pub data ControlStatus : Type 0 where
  accepted unsupported stale_attempt adapter_rejected lost : ControlStatus

-- Why a control was not accepted: a fixed text of the program, or that of the worker.
pub data ControlReason : Type 0 where
  attempt_not_active attempt_closing kind_unsupported not_ready : ControlReason
  handler_failed handler_timeout delivery_unsettled receipt_persistence_failed owner_lost :
      ControlReason
  active_attempt_is : ℕ → ControlReason
  worker_says : String → ControlReason

-- The data of an event that settles a control.
pub record Settlement : Type 0 where
  pub control_id : String
  pub attempt : ℕ
  pub kind : ControlKind
  pub status : ControlStatus
  pub reason : Option ControlReason

-- An event of a control whose data was over the limit and is replaced by a note of it.
pub data ControlEvent : Type 0 where
  requested_event accepted_event rejected_event lost_event : ControlEvent

-- `WorkerControlReceipt`; the Job's id is left out.
pub record Receipt : Type 0 where
  pub request : ControlRequest
  pub status : ControlStatus
  pub durable : Bool
  pub requested_at : ℕ
  pub settled_at : ℕ
  pub reason : Option ControlReason
