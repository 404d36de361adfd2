-- ===== src/Execution/Log.antt =====
-- `#appendEvent`, `#notifyObserver` and `#emit` of src/orchestrator.ts. The data of an event is left
-- out unless it belongs to a worker control, and of a Job what the execution neither reads nor writes.
use agentknot.Common.{
  Bool, List, Option, Result, String, [], any, count, err, false, if◌then◌else◌, leb, length, none,
  ok, some, true, ℕ, ◌&&◌, ◌++◌, ◌+◌, ◌∷◌,
}
use agentknot.Execution.ControlTypes.{
  ControlEvent, ControlRequest, Settlement, accepted_event, lost_event, rejected_event,
  requested_event,
}

pub data EventType : Type 0 where
  queued started capacity_waiting retrying artifact succeeded failed cancelled observer_failed
        worker_events_truncated attempt_lost recovery_started :
      EventType
  control_requested : ControlRequest → EventType
  control_accepted control_rejected control_lost : Settlement → EventType
  control_replaced : ControlEvent → EventType
  worker : String → EventType

pub record Event : Type 0 where
  pub sequence : ℕ
  pub at : ℕ
  pub type : EventType

pub data Status : Type 0 where
  in_queue running has_succeeded has_failed was_cancelled : Status

pub record Artifact : Type 0 where
  pub attempt : ℕ
  pub path : String
  pub changed_files : ℕ

pub record Job : Type 0 where
  pub id : String
  pub status : Status
  pub attempt : ℕ
  pub max_attempts : ℕ
  pub events : List Event
  pub updated_at : ℕ
  pub started_at : Option ℕ
  pub completed_at : Option ℕ
  pub result : Option ℕ  -- the attempt that it comes from
  pub error : Option (ℕ × Bool)  -- the attempt and whether it is retryable
  pub artifacts : List Artifact
  pub attempt_usage : List ℕ

-- Why a store refuses a save: a cancellation that was requested, or anything else.
pub data SaveError : Type 0 where
  cancellation_requested save_failed : SaveError

pub data Phase : Type 0 where
  event_phase artifact_phase terminal_phase : Phase

pub data RunError : Type 0 where
  persistence : Phase → EventType → SaveError → RunError
  wrong_attempt capacity_aborted delay_aborted invalid_report invalid_metadata : RunError

-- What the execution finds around it: the answer of the store to each save in turn, the clock, whether
-- the observer throws on an event, and whether the data of an event is over MAX_EVENT_DATA_BYTES as
-- JSON text.
pub record Env : Type 0 where
  pub save : ℕ → Option SaveError
  pub now : ℕ → ℕ
  pub observer_throws : Event → Bool
  pub exceeds : EventType → Bool

-- The Job object in memory, the number of saves so far, and the snapshot that the store holds.
pub record Run : Type 0 where
  pub job : Job
  pub calls : ℕ
  pub stored : Job

-- A step that may throw keeps what it has done to the Job object.
abbrev pub Step : Type 0 → Type 0
Step A = Run × Result RunError A

abbrev pub after : {A B : Type 0} → Step A → (Run → A → Step B) → Step B
after (r, err e) next = (r, err e)
after (r, ok a) next = next r a

abbrev pub max_worker_events : ℕ
max_worker_events = 512

unfoldable pub is_worker : EventType → Bool
is_worker (worker _) = true
is_worker _ = false

unfoldable pub is_truncation : EventType → Bool
is_truncation worker_events_truncated = true
is_truncation _ = false

abbrev pub worker_events : List Event → ℕ
worker_events = count λ e. is_worker e.type

abbrev pub truncations : List Event → ℕ
truncations = count λ e. is_truncation e.type

-- The type under which an event goes into the log, or none if it is dropped.
unfoldable pub appended_type : List Event → EventType → Option EventType
appended_type events type =
    if is_worker type && leb max_worker_events (worker_events events)
    then (if any (λ e. is_truncation e.type) events then none else some worker_events_truncated)
    else some type

unfoldable pub phase : EventType → Phase
phase artifact = artifact_phase
phase succeeded = terminal_phase
phase failed = terminal_phase
phase cancelled = terminal_phase
phase _ = event_phase

unfoldable pub push_event : EventType → ℕ → Job → Job
push_event type at j = record j {
  events = j.events ++ record { sequence = length j.events + 1; at = at; type = type } ∷ [];
  updated_at = at;
}

unfoldable pub new_event : EventType → ℕ → Job → Event
new_event type at j = record { sequence = length j.events + 1; at = at; type = type }

-- `events.pop()`
unfoldable pub drop_last : List Event → List Event
drop_last [] = []
drop_last (e ∷ []) = []
drop_last (e ∷ f ∷ es) = e ∷ drop_last (f ∷ es)

-- The event that was pushed is popped, and `updatedAt` is what it was.
unfoldable pub undo_push : ℕ → Job → Job
undo_push previous j = record j { events = drop_last j.events; updated_at = previous }

-- `limitedJobEventData`: data over the limit is replaced, and names no control any more.
unfoldable pub limit_data : Bool → EventType → EventType
limit_data over (control_requested q) =
    if over then control_replaced requested_event else control_requested q
limit_data over (control_accepted s) =
    if over then control_replaced accepted_event else control_accepted s
limit_data over (control_rejected s) =
    if over then control_replaced rejected_event else control_rejected s
limit_data over (control_lost s) = if over then control_replaced lost_event else control_lost s
limit_data over type = type

-- The event is pushed, the Job is saved, and the push is undone when the save fails. The event is then
-- still the last of the log, since `#recordMutations` makes the calls for one Job follow each other.
unfoldable pub persisted : EventType → ℕ → Option SaveError → Run → Step (Option Event)
persisted type at none r = (
  record { job = push_event type at r.job; calls = r.calls + 1; stored = push_event type at r.job },
  ok (some (new_event type at r.job)),
)
persisted type at (some e) r = (
  record r { job = undo_push r.job.updated_at (push_event type at r.job); calls = r.calls + 1 },
  err (persistence (phase type) type e),
)

unfoldable pub persist : Env → EventType → Run → Step (Option Event)
persist env type r =
    persisted (limit_data (env.exceeds type) type) (env.now r.calls) (env.save r.calls) r

unfoldable pub append_typed : Env → Option EventType → Run → Step (Option Event)
append_typed env none r = (r, ok none)
append_typed env (some type) r = persist env type r

unfoldable pub append_event : Env → EventType → Run → Step (Option Event)
append_event env type r = append_typed env (appended_type r.job.events type) r

unfoldable pub notify_observer : Env → Event → Run → Step (Unit {0})
notify_observer env event r =
    if env.observer_throws event
    then after (append_event env observer_failed r) (λ r' e. (r', ok tt))
    else (r, ok tt)

unfoldable pub notify : Env → Option Event → Run → Step (Unit {0})
notify env none r = (r, ok tt)
notify env (some event) r = notify_observer env event r

unfoldable pub emit : Env → EventType → Run → Step (Unit {0})
emit env type r = after (append_event env type r) (λ r' event. notify env event r')
