-- ===== src/Activity/Examples.antt =====
-- The theorems on src/job-activity.ts, applied to one Job.
use agentknot.Activity.Project.{
  activity_state, collapse, is_terminal_status, is_truncated, observe, observe_tool,
  project_job_activity, scan, start, tool_call_id, tool_name, tool_of, trim_end, trim_start,
}
use agentknot.Activity.ProjectLaws.{project_job_activity-truncated}
use agentknot.Activity.Running.{scan-running}
use agentknot.Activity.Types.{
  ActiveTools, Job, JobEvent, JobEventType, JobStatus, Units, Value, job_started,
  job_worker_events_truncated, other_value, retrying, text_value, tools_running, truncated,
  units_key, worker_started, worker_tool_started,
}
use agentknot.Common.{
  List, [], false, is_space, lookup, none, put, refl, some, ℕ, ◌++◌, ◌∷◌, ◌≡◌, ◌≢◌,
}

abbrev call : Units
call = 99 ∷ 49 ∷ []

abbrev bash_name : Units
bash_name = 98 ∷ 97 ∷ 115 ∷ 104 ∷ []

abbrev event : ℕ → JobEventType → Value → JobEvent
event n type name = record {
  sequence = n;
  at = n;
  type = type;
  tool_name = name;
  tool_call_id = text_value call;
  attempt = other_value;
  scope = other_value;
  max_attempts = other_value;
}

abbrev begun : List JobEvent
begun = event 1 job_started other_value ∷ event 2 worker_started other_value ∷ []

-- The name stands between spaces.
abbrev tool_started : JobEvent
tool_started = event 3 worker_tool_started (text_value (32 ∷ bash_name ++ 9 ∷ 10 ∷ []))

abbrev busy : Job
busy = record {
  status = JobStatus.running;
  events = begun ++ tool_started ∷ event 4 job_started other_value ∷ [];
}

abbrev cut : Job
cut = record {
  status = JobStatus.running;
  events = busy.events ++ event 5 job_worker_events_truncated other_value ∷ [];
}

facts :
    (tool_of tool_started ≡ some (call, bash_name))
    × ((project_job_activity busy).active_tools
        ≡ some (record { count = 1; names = bash_name ∷ []; names_truncated = false }))
    × (is_truncated (scan start begun).coverage ≡ false)
unfolding tool_call_id tool_name collapse trim_start trim_end is_space project_job_activity scan
    start observe observe_tool activity_state is_terminal_status put
facts = (refl, refl, refl)

project_job_activity-truncated_example :
    ((project_job_activity cut).coverage ≡ truncated)
    × ((project_job_activity cut).active_tools ≡ none)
    × ((project_job_activity cut).state ≢ retrying)
    × ((project_job_activity cut).state ≢ tools_running)
project_job_activity-truncated_example = project_job_activity-truncated cut refl

abbrev tools : ActiveTools
tools = record { count = 1; names = bash_name ∷ []; names_truncated = false }

scan-running_example : lookup call (scan start busy.events).active_tools ≡ some bash_name
scan-running_example =
    scan-running call bash_name begun (event 4 job_started other_value ∷ []) tool_started facts.0
      refl facts.2 refl
