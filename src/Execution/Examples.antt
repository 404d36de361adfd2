-- ===== src/Execution/Examples.antt =====
-- Executions of src/orchestrator.ts on concrete Jobs.
use agentknot.Common.{
  List, [], arith, false, if◌then◌else◌, map, none, ok, refl, some, true, ℕ, ◌+◌, ◌==◌, ◌∷◌, ◌≡◌,
}
use agentknot.Execution.Attempts.{
  Attempt, after_send, artifact_kept, capture_patch, keep_artifact, keep_captured,
  read_only_failure, record_attempt_usage, run_attempt, send_all, worker_transient,
}
use agentknot.Execution.Bounds.{IsBounded, activate-IsBounded}
use agentknot.Execution.Log.{
  Artifact, Env, Event, Job, Run, Step, append_event, append_typed, appended_type, artifact,
  cancellation_requested, cancelled, drop_last, emit, has_succeeded, in_queue, is_truncation,
  is_worker, limit_data, new_event, notify, notify_observer, observer_failed, persist, persisted,
  phase, push_event, queued, retrying, save_failed, started, succeeded, undo_push, was_cancelled,
  worker,
}
use agentknot.Execution.LogLaws.{IsLogged, Numbered, activate-IsLogged}
use agentknot.Execution.Outcome.{activate-IsDone}
use agentknot.Execution.RoundOutcome.{IsDone}
use agentknot.Execution.Rounds.{
  Waiting, activate, attempt_round, close_unfinished, execute, fail_with, handle, handled,
  not_successful, retried, retry, returned, run_attempts, settle_attempt, settle_failure, start_job,
  succeed, wait_for_capacity,
}

abbrev queued_events : List Event
queued_events = record { sequence = 1; at = 0; type = queued } ∷ []

abbrev pub queued_job : Job
queued_job = record {
  id = "job";
  status = in_queue;
  attempt = 0;
  max_attempts = 2;
  events = queued_events;
  updated_at = 0;
  started_at = none;
  completed_at = none;
  result = none;
  error = none;
  artifacts = [];
  attempt_usage = [];
}

abbrev pub queued_run : Run
queued_run = record { job = queued_job; calls = 0; stored = queued_job }

abbrev pub good_env : Env
good_env = record {
  save = λ n. none;
  now = λ n. n + 1;
  observer_throws = λ e. e.sequence == 4;
  exceeds = λ t. false;
}

abbrev cancelled_env : Env
cancelled_env = record good_env { save = λ n. if n == 1 then some cancellation_requested else none }

abbrev broken_env : Env
broken_env = record good_env { save = λ n. some save_failed }

abbrev pub no_wait : Waiting
no_wait = record { waits = false; aborts = false }

-- The first attempt fails before the worker settles, the second one changes a file and succeeds.
abbrev patch : Artifact
patch = record { attempt = 2; path = "patches/2"; changed_files = 1 }

abbrev pub attempt_number : ℕ → Attempt
attempt_number n = record {
  sends = "worker.message" ∷ [];
  rethrows = true;
  result =
      if n == 1
      then none
      else some (record { report_throws = false; is_blocked = false; metadata_throws = false });
  failure = if n == 1 then some worker_transient else none;
  is_isolated = n == 2;
  capture = some patch;
  discard_throws = false;
  cleanup_throws = false;
  job_aborted = false;
  delay_is_aborted = false;
}

abbrev good_run : Step (Unit {0})
good_run = activate good_env false no_wait attempt_number false 1 queued_run

abbrev cancelled_run : Step (Unit {0})
cancelled_run = activate cancelled_env false no_wait attempt_number false 1 queued_run

abbrev broken_run : Step (Unit {0})
broken_run = activate broken_env false no_wait attempt_number false 1 queued_run

succeeds_after_retry :
    (good_run.0.job.status ≡ has_succeeded)
    × (good_run.0.job.result ≡ some 2)
    × (map (λ e. e.type) good_run.0.job.events
        ≡ queued
          ∷ started
          ∷ worker "worker.message"
          ∷ retrying
          ∷ observer_failed
          ∷ worker "worker.message"
          ∷ artifact
          ∷ succeeded
          ∷ [])
unfolding activate execute handled handle wait_for_capacity start_job run_attempts attempt_round
    run_attempt send_all after_send emit append_event append_typed appended_type is_worker
    is_truncation persist persisted limit_data undo_push drop_last push_event new_event notify
    notify_observer phase record_attempt_usage capture_patch keep_captured keep_artifact
    artifact_kept read_only_failure settle_attempt settle_failure not_successful retry retried
    fail_with returned succeed close_unfinished
succeeds_after_retry = (refl, refl, refl)

-- The save of the worker's event finds that the Job is to be cancelled.
is_cancelled_by_store :
    (cancelled_run.1 ≡ ok tt)
    × (cancelled_run.0.job.status ≡ was_cancelled)
    × (map (λ e. e.type) cancelled_run.0.stored.events ≡ queued ∷ started ∷ cancelled ∷ [])
unfolding activate execute handled handle wait_for_capacity start_job run_attempts attempt_round
    run_attempt send_all after_send emit append_event append_typed appended_type is_worker
    is_truncation persist persisted limit_data undo_push drop_last push_event new_event notify
    notify_observer phase record_attempt_usage capture_patch keep_captured keep_artifact
    artifact_kept read_only_failure settle_attempt settle_failure not_successful retry retried
    fail_with returned succeed close_unfinished
is_cancelled_by_store = (refl, refl, refl)

activate-IsLogged_example : IsLogged good_run.0
unfolding IsLogged Numbered
activate-IsLogged_example =
    activate-IsLogged good_env false no_wait attempt_number false 1 queued_run ((refl, tt), refl)

activate-IsBounded_example : IsBounded good_run.0
unfolding IsBounded is_worker is_truncation
activate-IsBounded_example =
    activate-IsBounded good_env false no_wait attempt_number false 1 queued_run
      (omega arith, omega arith)

activate-IsDone_example : (good_run.1 ≡ ok tt) × IsDone 2 good_run.0
activate-IsDone_example =
    activate-IsDone good_env false no_wait attempt_number false 1 queued_run (λ n. refl) refl
      (omega arith) (omega arith)
