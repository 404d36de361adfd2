-- ===== src/Activity/Running.antt =====
-- Which tools src/job-activity.ts holds for running.
use agentknot.Activity.Project.{Scan, is_truncated, observe, observe_tool, scan, start, tool_of}
use agentknot.Activity.Types.{
  JobEvent, JobEventType, Units, job_attempt_lost, job_recovery_started, job_retrying,
  job_worker_events_truncated, units_eq, units_eq_iff, units_key, worker_started,
  worker_tool_completed, worker_tool_started, worker_tool_updated,
}
use agentknot.Common.{
  Bool, List, [], all, ap, arith, false, if◌then◌else◌, lookup, lookup-put, lookup-put_self,
  lookup-remove, none, not, refl, some, true, ◌++◌, ◌∙◌, ◌∷◌, ◌≡◌,
}

-- The event leaves the call `id` as it is: it neither cuts nor restarts the log, names its tool if it
-- is a tool's, and, if it starts or completes a call, it is another one.
abbrev pub is_quiet : Units → JobEvent → Bool
is_quiet id event = elim event.type [
  | job_worker_events_truncated ↦ false
  | job_retrying ↦ false
  | job_attempt_lost ↦ false
  | job_recovery_started ↦ false
  | worker_started ↦ false
  | worker_tool_started ↦ elim (tool_of event) [ none ↦ false | some t ↦ not (units_eq t.0 id) ]
  | worker_tool_updated ↦ elim (tool_of event) [ none ↦ false | some t ↦ true ]
  | worker_tool_completed ↦ elim (tool_of event) [ none ↦ false | some t ↦ not (units_eq t.0 id) ]
  | _ ↦ true
]

observe-quiet :
    (id : Units) (s : Scan) (event : JobEvent)
    → is_quiet id event ≡ true
    → lookup id (observe s event).active_tools ≡ lookup id s.active_tools
unfolding observe observe_tool
observe-quiet id s event h = grind (arith, lookup-put, lookup-remove)

scan-quiet :
    (id : Units) (events : List JobEvent) (s : Scan)
    → all (is_quiet id) events ≡ true
    → lookup id (scan s events).active_tools ≡ lookup id s.active_tools
unfolding scan
scan-quiet id [] s h = refl
scan-quiet id (event ∷ events) s h =
    scan-quiet id events (observe s event) (ground arith) ∙ observe-quiet id s event (ground arith)

scan-append : (xs ys : List JobEvent) (s : Scan) → scan s (xs ++ ys) ≡ scan (scan s xs) ys
unfolding scan
scan-append [] ys s = refl
scan-append (x ∷ xs) ys s = scan-append xs ys (observe s x)

abbrev pub is_call : JobEventType → Bool
is_call worker_tool_started = true
is_call worker_tool_completed = true
is_call _ = false

abbrev pub is_call_start : JobEventType → Bool
is_call_start worker_tool_started = true
is_call_start _ = false

observe-call :
    (id name : Units) (s : Scan) (event : JobEvent)
    → tool_of event ≡ some (id, name)
    → is_truncated s.coverage ≡ false
    → is_call event.type ≡ true
    → lookup id (observe s event).active_tools
      ≡ (if is_call_start event.type then some name else none)
unfolding observe observe_tool
observe-call id name s event tool uncut calls = ground (
  arith,
  lookup-put_self id name s.active_tools,
  lookup-remove id id s.active_tools,
  (units_eq_iff id id).1 refl,
)

-- Behind events that leave a call as it is, in a log that had not been cut when the call was last
-- started or completed: the call runs, under its tool's name, exactly if it was started.
pub scan-running :
    (id name : Units) (before behind : List JobEvent) (event : JobEvent)
    → tool_of event ≡ some (id, name)
    → is_call event.type ≡ true
    → is_truncated (scan start before).coverage ≡ false
    → all (is_quiet id) behind ≡ true
    → lookup id (scan start (before ++ event ∷ behind)).active_tools
      ≡ (if is_call_start event.type then some name else none)
unfolding scan
scan-running id name before behind event tool calls uncut quiet =
    ap (λ r. lookup id r.active_tools) (scan-append before (event ∷ behind) start)
    ∙ scan-quiet id behind (observe (scan start before) event) quiet
    ∙ observe-call id name (scan start before) event tool uncut calls
