-- ===== src/Activity/ProjectLaws.antt =====
-- What the projection of src/job-activity.ts promises.
use agentknot.Activity.Project.{
  Scan, activity_state, max_tool_name_characters, observe, observe_tool, project_job_activity, scan,
  start,
}
use agentknot.Activity.Types.{
  Job, JobEvent, Units, job_worker_events_truncated, retrying, tools_running, truncated, units_key,
}
use agentknot.Common.{
  Bool, Bool-cases, List, Table, [], all, any, arith, false, inl, inr, leb, length, ltb, none, true,
  ℕ, ◌&&◌, ◌∷◌, ◌≡◌, ◌≢◌,
}

abbrev pub is_truncation : JobEvent → Bool
is_truncation event = elim event.type [ job_worker_events_truncated ↦ true | _ ↦ false ]

-- After a truncation nothing is known of the tools and the retries.
abbrev pub IsCut : Scan → Type 0
IsCut s = (s.coverage ≡ truncated) × (s.active_tools ≡ []) × (s.is_retrying ≡ false)

observe-IsCut : (s : Scan) (event : JobEvent) → IsCut s → IsCut (observe s event)
unfolding observe observe_tool
observe-IsCut s event (a, b, c) = (ground (arith, a), ground (arith, a, b), ground (arith, a, c))

scan-IsCut : (events : List JobEvent) (s : Scan) → IsCut s → IsCut (scan s events)
unfolding scan
scan-IsCut [] s cut = cut
scan-IsCut (event ∷ events) s cut = scan-IsCut events (observe s event) (observe-IsCut s event cut)

truncation-IsCut :
    (s : Scan) (event : JobEvent) → is_truncation event ≡ true → IsCut (observe s event)
unfolding observe
truncation-IsCut s event h = (ground arith, ground arith, ground arith)

scan-truncation :
    (events : List JobEvent) (s : Scan) → any is_truncation events ≡ true → IsCut (scan s events)
unfolding scan
scan-truncation [] s h = cc
scan-truncation (event ∷ events) s h = elim (Bool-cases (is_truncation event)) [
  | inl cuts ↦ scan-IsCut events (observe s event) (truncation-IsCut s event cuts)
  | inr other ↦ scan-truncation events (observe s event) (ground (arith, other))
]

-- A Job whose log of worker events was truncated anywhere, even in an attempt that was retried, is
-- reported as truncated, and never as retrying or as running tools.
pub project_job_activity-truncated :
    (j : Job)
    → any is_truncation j.events ≡ true
    → ((project_job_activity j).coverage ≡ truncated)
      × ((project_job_activity j).active_tools ≡ none)
      × ((project_job_activity j).state ≢ retrying)
      × ((project_job_activity j).state ≢ tools_running)
unfolding project_job_activity activity_state
project_job_activity-truncated j h =
    let (a, b, c) = scan-truncation j.events start h in
    (a, ground (arith, a), ground (arith, a), ground (arith, a))

-- A name that is shown has between 1 and 80 units.
abbrev pub is_short : Units → Bool
is_short name = ltb 0 (length name) && leb (length name) max_tool_name_characters

abbrev short_names : Table (List ℕ) Units → Bool
short_names = all λ t. is_short t.1
