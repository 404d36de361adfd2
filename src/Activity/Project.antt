-- ===== src/Activity/Project.antt =====
-- `projectJobActivity` of src/job-activity.ts.
use agentknot.Activity.Types.{
  ActiveTools, ActivityState, Coverage, Job, JobEvent, JobEventType, JobStatus, Observation,
  Projection, RetryScope, Units, Value, capacity_waiting, complete, completion_envelope,
  count_value, downstream, in_queue, job_attempt_lost, job_capacity_waiting, job_recovery_started,
  job_retrying, job_started, job_worker_events_truncated, other_type, partial, retrying, starting,
  terminal, text_value, tools_running, truncated, units_eq, units_key, worker_retry_completed,
  worker_retry_started, worker_started, worker_tool_completed, worker_tool_started,
  worker_tool_updated, working,
}
use agentknot.Common.{
  Bool, List, Option, Table, [], codes, false, if◌then◌else◌, is_space, leb, length, ltb, map, none,
  not, put, remove, some, take, true, ℕ, ◌&&◌, ◌∷◌,
}

abbrev pub max_visible_tool_names : ℕ
max_visible_tool_names = 4

abbrev pub max_tool_name_characters : ℕ
max_tool_name_characters = 80

-- `text.replace(/\s+/g, ' ')`; the flag says that the unit before was a space.
unfoldable pub collapse : Bool → Units → Units
collapse before [] = []
collapse before (c ∷ cs) =
    let after_space = collapse true cs in
    let after_other = collapse false cs in
    if is_space c then (if before then after_space else 32 ∷ after_space) else c ∷ after_other

unfoldable pub trim_start : Units → Units
trim_start [] = []
trim_start (c ∷ cs) = if is_space c then trim_start cs else c ∷ cs

abbrev cons_unless_blank : ℕ → Units → Units
cons_unless_blank c [] = if is_space c then [] else c ∷ []
cons_unless_blank c (d ∷ ds) = c ∷ d ∷ ds

unfoldable pub trim_end : Units → Units
trim_end [] = []
trim_end (c ∷ cs) = cons_unless_blank c (trim_end cs)

abbrev pub nonempty : Units → Option Units
nonempty [] = none
nonempty (c ∷ cs) = some (c ∷ cs)

unfoldable pub tool_name : JobEvent → Option Units
tool_name event = elim event.tool_name [
  | text_value value ↦ elim (nonempty (trim_end (trim_start (collapse false value)))) [
    | none ↦ none
    | some normalized ↦ some (take max_tool_name_characters normalized)
  ]
  | _ ↦ none
]

unfoldable pub tool_call_id : JobEvent → Option Units
tool_call_id event = elim event.tool_call_id [ text_value value ↦ nonempty value | _ ↦ none ]

abbrev is_retry : JobEventType → Bool
is_retry worker_retry_started = true
is_retry worker_retry_completed = true
is_retry _ = false

abbrev is_retry_start : JobEventType → Bool
is_retry_start worker_retry_started = true
is_retry_start _ = false

abbrev count_from : ℕ → Value → Option ℕ
count_from least (count_value n) = if leb least n then some n else none
count_from least _ = none

abbrev retry_scope : Value → Option RetryScope
retry_scope (text_value s) =
    if units_eq s (codes "downstream")
    then some downstream
    else if units_eq s (codes "completion-envelope")
    then some completion_envelope
    else none
retry_scope _ = none

unfoldable pub activity_observation : JobEvent → Observation
activity_observation event = record {
  sequence = event.sequence;
  at = event.at;
  type = event.type;
  tool_name = tool_name event;
  retry_attempt = if is_retry event.type then count_from 0 event.attempt else none;
  retry_scope = if is_retry event.type then retry_scope event.scope else none;
  retry_max_attempts = if is_retry_start event.type then count_from 1 event.max_attempts else none;
}

-- The variables of the loop.
pub record Scan : Type 0 where
  pub coverage : Coverage
  pub has_worker : Bool
  pub is_retrying : Bool
  pub is_waiting : Bool
  pub active_tools : Table (List ℕ) Units

unfoldable pub start : Scan
start = record {
  coverage = complete;
  has_worker = false;
  is_retrying = false;
  is_waiting = false;
  active_tools = [];
}

abbrev pub is_truncated : Coverage → Bool
is_truncated truncated = true
is_truncated _ = false

abbrev pub is_complete : Coverage → Bool
is_complete complete = true
is_complete _ = false

-- The identity and the name of a tool event, when both are there.
abbrev pub tool_of : JobEvent → Option (Units × Units)
tool_of event = elim (tool_call_id event) [
  | none ↦ none
  | some id ↦ elim (tool_name event) [ none ↦ none | some name ↦ some (id, name) ]
]

-- A tool event, whose change to the table is `change`.
unfoldable pub observe_tool :
    (Units → Units → Table (List ℕ) Units → Table (List ℕ) Units) → Scan → JobEvent → Scan
observe_tool change s event = if is_truncated s.coverage then s else elim (tool_of event) [
  | none ↦ record s { coverage = partial; active_tools = [] }
  | some (id, name) ↦ record s { active_tools = change id name s.active_tools }
]

abbrev restarted : Scan → Scan
restarted s = record s {
  active_tools = [];
  is_retrying = false;
  has_worker = false;
  is_waiting = false;
}

-- One round of the loop.
unfoldable pub observe : Scan → JobEvent → Scan
observe s event = elim event.type [
  | job_capacity_waiting ↦ record s { is_waiting = true }
  | job_started ↦ record s { is_waiting = false }
  | job_worker_events_truncated ↦ record s {
    coverage = truncated;
    active_tools = [];
    is_retrying = false;
  }
  | job_retrying ↦ restarted s
  | job_attempt_lost ↦ restarted s
  | job_recovery_started ↦ restarted s
  | worker_started ↦ record s {
    active_tools = [];
    is_retrying = false;
    has_worker = true;
    is_waiting = false;
    coverage = elim s.coverage [ partial ↦ complete | c ↦ c ];
  }
  | worker_retry_started ↦ if is_truncated s.coverage then s else record s { is_retrying = true }
  | worker_retry_completed ↦ if is_truncated s.coverage then s else record s { is_retrying = false }
  | worker_tool_started ↦ observe_tool (λ id name tools. put id name tools) s event
  | worker_tool_updated ↦ observe_tool (λ id name tools. tools) s event
  | worker_tool_completed ↦ observe_tool (λ id name tools. remove id tools) s event
  | other_type _ ↦ s
]

unfoldable pub scan : Scan → List JobEvent → Scan
scan s [] = s
scan s (event ∷ events) = scan (observe s event) events

unfoldable pub last_event : List JobEvent → Option JobEvent
last_event [] = none
last_event (e ∷ []) = some e
last_event (e ∷ f ∷ es) = last_event (f ∷ es)

unfoldable pub is_terminal_status : JobStatus → Bool
is_terminal_status JobStatus.queued = false
is_terminal_status JobStatus.running = false
is_terminal_status _ = true

abbrev is_queued : JobStatus → Bool
is_queued JobStatus.queued = true
is_queued _ = false

unfoldable pub activity_state : JobStatus → Scan → ActivityState
activity_state status s =
    if is_terminal_status status
    then terminal
    else if s.is_waiting
    then capacity_waiting
    else if is_queued status
    then in_queue
    else if not s.has_worker
    then starting
    else if is_complete s.coverage && s.is_retrying
    then retrying
    else if is_complete s.coverage && ltb 0 (length s.active_tools)
    then tools_running
    else working

abbrev pub visible_names : Table (List ℕ) Units → List Units
visible_names tools = take max_visible_tool_names (map (λ t. t.1) tools)

abbrev pub shown : Table (List ℕ) Units → ActiveTools
shown tools = record {
  count = length tools;
  names = visible_names tools;
  names_truncated = ltb (length (visible_names tools)) (length tools);
}

unfoldable pub project_job_activity : Job → Projection
project_job_activity j =
    let s = scan start j.events in
    let state = activity_state j.status s in
    record {
      state = state;
      coverage = s.coverage;
      last_observed = elim (last_event j.events) [
        | none ↦ none
        | some e ↦ some (activity_observation e)
      ];
      active_tools = elim state [ tools_running ↦ some (shown s.active_tools) | _ ↦ none ];
    }
