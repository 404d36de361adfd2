-- ===== src/Execution/Rounds.antt =====
-- The loop of `#execute` of src/orchestrator.ts over the attempts, what precedes it, and the error
-- handler of `#activate`.
use agentknot.Common.{
  Bool, Option, err, false, if◌then◌else◌, ltb, none, not, ok, some, suc, true, zero, ℕ, ◌&&◌, ◌+◌,
  ◌-◌, ◌==◌,
}
use agentknot.Execution.Attempts.{
  Attempt, Failure, WorkerResult, artifact_read, artifact_too_large, artifact_unused,
  persistence_failure, read_only_failure, read_only_violation, run_attempt, worker_failure,
  worker_settled, worker_transient,
}
use agentknot.Execution.Log.{
  Env, EventType, Run, RunError, Status, Step, after, cancellation_requested, cancelled,
  capacity_aborted, capacity_waiting, delay_aborted, emit, failed, has_failed, has_succeeded,
  in_queue, invalid_metadata, invalid_report, persistence, retrying, running, save_failed, started,
  succeeded, was_cancelled, wrong_attempt,
}

abbrev pub may_retry : Option Failure → Bool
may_retry (some (worker_failure artifact_too_large)) = false
may_retry (some (worker_failure read_only_violation)) = false
may_retry (some (worker_failure artifact_read)) = false
may_retry (some (worker_failure artifact_unused)) = false
may_retry (some (worker_failure worker_settled)) = false
may_retry _ = true

abbrev pub is_transient : Option Failure → Bool
is_transient (some (worker_failure worker_transient)) = true
is_transient _ = false

-- Whether the loop goes on.
pub data Next : Type 0 where
  finished again : Next

abbrev pub goes_on : Next → Bool
goes_on finished = false
goes_on again = true

abbrev pub finish : Env → EventType → Run → Step Next
finish env type r = after (emit env type r) (λ r' u. (r', ok finished))

-- The metadata of the result are checked after the status has been set, and that may throw.
unfoldable pub succeed : Env → Bool → ℕ → Run → Step Next
succeed env true attempt r = (
  record r { job = record r.job { status = has_succeeded; completed_at = some (env.now r.calls) } },
  err invalid_metadata,
)
succeed env false attempt r = finish env succeeded (record r {
  job = record r.job {
    status = has_succeeded;
    completed_at = some (env.now r.calls);
    result = some attempt;
    error = none;
  };
})

unfoldable pub fail_with : Env → Status → EventType → ℕ → Run → Step Next
fail_with env status type attempt r = finish env type (record r {
  job = record r.job {
    status = status;
    completed_at = some (env.now r.calls);
    error = some (attempt, false);
  };
})

-- A failed announcement takes the number of the next attempt back.
unfoldable pub retried : Bool → ℕ → Step (Unit {0}) → Step Next
retried aborts attempt (r, ok u) = (r, if aborts then err delay_aborted else ok again)
retried aborts attempt (r, err e) = (record r { job = record r.job { attempt = attempt } }, err e)

unfoldable pub retry : Env → Bool → ℕ → Run → Step Next
retry env aborts attempt r = retried aborts attempt (
    emit env retrying
      (record r { job = record r.job { attempt = attempt + 1; error = some (attempt, true) } }))

unfoldable pub not_successful : Env → Attempt → ℕ → Option Failure → Run → Step Next
not_successful env a attempt failure r =
    if may_retry failure && not a.job_aborted && ltb attempt r.job.max_attempts
    then retry env (is_transient failure && a.delay_is_aborted) attempt r
    else if a.job_aborted
    then fail_with env was_cancelled cancelled attempt r
    else fail_with env has_failed failed attempt r

-- The worker's result, when nothing failed.
unfoldable pub returned : Env → Attempt → ℕ → Option WorkerResult → Run → Step Next
returned env a attempt none r = not_successful env a attempt none r
returned env a attempt (some result) r =
    if result.report_throws
    then (r, err invalid_report)
    else if result.is_blocked
    then fail_with env has_failed failed attempt r
    else succeed env result.metadata_throws attempt r

unfoldable pub settle_failure : Env → Attempt → ℕ → Failure → Run → Step Next
settle_failure env a attempt (persistence_failure e) r = (r, err e)
settle_failure env a attempt f r = not_successful env a attempt (some f) r

-- What follows an attempt.
unfoldable pub settle_attempt : Env → Attempt → ℕ → Option Failure → Run → Step Next
settle_attempt env a attempt none r = returned env a attempt a.result r
settle_attempt env a attempt (some f) r = settle_failure env a attempt f r

unfoldable pub attempt_round : Env → Bool → Attempt → ℕ → Run → Step Next
attempt_round env is_analysis a attempt r =
    if r.job.attempt == attempt
    then (let ran = run_attempt env a attempt r in
        settle_attempt env a attempt (read_only_failure is_analysis a attempt ran.0.job ran.1)
          ran.0)
    else (r, err wrong_attempt)

-- The loop over the attempts, with the rounds that are left.
unfoldable pub run_attempts : Env → Bool → (ℕ → Attempt) → ℕ → ℕ → Run → Step (Unit {0})
run_attempts env is_analysis attempts zero attempt r = (r, ok tt)
run_attempts env is_analysis attempts (suc rounds) attempt r =
    after (attempt_round env is_analysis (attempts attempt) attempt r) (λ r' next.
      if goes_on next
      then run_attempts env is_analysis attempts rounds (suc attempt) r'
      else (r', ok tt))

-- How the wait for capacity ends.
pub record Waiting : Type 0 where
  pub waits : Bool
  pub aborts : Bool

unfoldable pub wait_for_capacity : Env → Waiting → Run → Step (Unit {0})
wait_for_capacity env w r =
    after (if w.waits then emit env capacity_waiting r else (r, ok tt))
      (λ r' u. (r', if w.aborts then err capacity_aborted else ok tt))

abbrev pub is_queued : Status → Bool
is_queued in_queue = true
is_queued _ = false

abbrev pub started_or_back : ℕ → Step (Unit {0}) → Step (Unit {0})
started_or_back previous (r, ok u) = (r, ok u)
started_or_back previous (r, err e) =
    (record r { job = record r.job { attempt = previous } }, err e)

unfoldable pub start_job : Env → ℕ → Run → Step (Unit {0})
start_job env attempt r =
    if is_queued r.job.status
    then started_or_back r.job.attempt (
        emit env started (record r {
          job = record r.job {
            attempt = attempt;
            status = running;
            started_at = some (env.now r.calls);
          };
        }))
    else (r, ok tt)

unfoldable pub execute : Env → Bool → Waiting → (ℕ → Attempt) → ℕ → Run → Step (Unit {0})
execute env is_analysis w attempts start r = after (wait_for_capacity env w r) (λ r₁ u.
    after (start_job env start r₁)
      (λ r₂ v. run_attempts env is_analysis attempts (r₂.job.max_attempts + 1 - start) start r₂))

abbrev pub has_ended : Status → Bool
has_ended has_failed = true
has_ended was_cancelled = true
has_ended _ = false

abbrev pub close : Env → Status → EventType → Run → Step (Unit {0})
close env status type r = emit env type (record r {
  job = record r.job {
    status = status;
    completed_at = some (env.now r.calls);
    error = some (r.job.attempt, false);
  };
})

unfoldable pub close_unfinished : Env → Bool → Run → Step (Unit {0})
close_unfinished env aborted r =
    if has_ended r.job.status
    then (r, ok tt)
    else if aborted
    then close env was_cancelled cancelled r
    else close env has_failed failed r

-- The handler of what `#execute` throws; `aborted` is the state of the Job's signal.
unfoldable pub handle : Env → Bool → RunError → Run → Step (Unit {0})
handle env aborted (persistence _ _ cancellation_requested) r =
    close env was_cancelled cancelled (record r { job = record r.job { result = none } })
handle env aborted (persistence p t save_failed) r = (r, err (persistence p t save_failed))
handle env aborted e r = close_unfinished env aborted r

unfoldable pub handled : Env → Bool → Step (Unit {0}) → Step (Unit {0})
handled env aborted (r, ok u) = (r, ok u)
handled env aborted (r, err e) = handle env aborted e r

unfoldable pub activate : Env → Bool → Waiting → (ℕ → Attempt) → Bool → ℕ → Run → Step (Unit {0})
activate env is_analysis w attempts aborted start r =
    handled env aborted (execute env is_analysis w attempts start r)
