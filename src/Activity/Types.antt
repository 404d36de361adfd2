-- ===== src/Activity/Types.antt =====
-- The events that src/job-activity.ts reads and the projection that it returns. A text is its UTF-16
-- code units here, since the projection cuts texts.
use agentknot.Common.{
  Bool, Eq, List, Option, String, [], arith, false, pair_key, true, ℕ, ◌&&◌, ◌==◌, ◌↔◌, ◌∷◌, ◌≡◌,
}

abbrev pub Units : Type 0
Units = List ℕ

unfoldable pub units_eq : Units → Units → Bool
units_eq [] [] = true
units_eq (c ∷ cs) (d ∷ ds) = c == d && units_eq cs ds
units_eq _ _ = false

pub units_eq_iff : (s t : Units) → (units_eq s t ≡ true) ↔ (s ≡ t)
unfolding units_eq
units_eq_iff [] [] = ground arith
units_eq_iff [] (d ∷ ds) = ground arith
units_eq_iff (c ∷ cs) [] = ground arith
units_eq_iff (c ∷ cs) (d ∷ ds) = ground (arith, units_eq_iff cs ds)

instance abbrev pub units_key : Eq (List ℕ)
units_key = record { beq = units_eq; beq_iff = units_eq_iff }

-- A value in an event's data: a text, a number that is a non-negative safe integer, or any other
-- value, or none.
pub data Value : Type 0 where
  text_value : Units → Value
  count_value : ℕ → Value
  other_value : Value

pub data JobEventType : Type 0 where
  job_capacity_waiting job_started job_worker_events_truncated job_retrying job_attempt_lost
        job_recovery_started worker_started worker_retry_started worker_retry_completed
        worker_tool_started worker_tool_updated worker_tool_completed :
      JobEventType
  other_type : String → JobEventType

pub record JobEvent : Type 0 where
  pub sequence : ℕ
  pub at : ℕ
  pub type : JobEventType
  pub tool_name : Value
  pub tool_call_id : Value
  pub attempt : Value
  pub scope : Value
  pub max_attempts : Value

pub data JobStatus : Type 0 where
  queued running succeeded failed cancelled : JobStatus

pub record Job : Type 0 where
  pub status : JobStatus
  pub events : List JobEvent

pub data ActivityState : Type 0 where
  in_queue capacity_waiting starting working tools_running retrying terminal : ActivityState

pub data Coverage : Type 0 where
  complete partial truncated : Coverage

pub data RetryScope : Type 0 where
  downstream completion_envelope : RetryScope

pub record Observation : Type 0 where
  pub sequence : ℕ
  pub at : ℕ
  pub type : JobEventType
  pub tool_name : Option Units
  pub retry_attempt : Option ℕ
  pub retry_scope : Option RetryScope
  pub retry_max_attempts : Option ℕ

pub record ActiveTools : Type 0 where
  pub count : ℕ
  pub names : List Units
  pub names_truncated : Bool

pub record Projection : Type 0 where
  pub state : ActivityState
  pub coverage : Coverage
  pub last_observed : Option Observation
  pub active_tools : Option ActiveTools
