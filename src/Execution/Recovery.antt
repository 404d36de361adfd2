-- ===== src/Execution/Recovery.antt =====
-- `#recoverInterruptedJob` and `#settleRecoveredJob` of src/orchestrator.ts, with the delivery of the
-- callback.
use agentknot.Common.{
  Bool, Option, Result, err, false, if◌then◌else◌, ltb, none, not, ok, some, true, ℕ, ◌+◌, ◌==◌,
  ◌||◌,
}
use agentknot.Execution.Attempts.{record_attempt_usage}
use agentknot.Execution.ControlLoss.{mark_pending_lost}
use agentknot.Execution.ControlTypes.{owner_lost}
use agentknot.Execution.Log.{
  Env, EventType, Job, Run, RunError, SaveError, Status, Step, attempt_lost, cancelled, emit,
  failed, has_failed, in_queue, recovery_started, running, was_cancelled,
}
use agentknot.Execution.Rounds.{is_queued}

pub data RecoverError : Type 0 where
  job_disappeared : RecoverError
  run_failed : RunError → RecoverError
  callback_not_saved : SaveError → RecoverError

-- What the recovery finds: whether this process runs the Job, whether it gets the lease, the Job that
-- the store then has, a cancellation request, the adapter of the route, a snapshot with an isolated
-- workspace, whether restoring it throws, and whether the Job has a callback.
pub record Found : Type 0 where
  pub is_active : Bool
  pub gets_lease : Bool
  pub current : Option Job
  pub is_cancelled : Bool
  pub has_adapter : Bool
  pub has_snapshot : Bool
  pub restore_throws : Bool
  pub has_callback : Bool

-- How a recovery returns: without the lease, with the Job as it is, with the Job settled, or with the
-- Job activated from an attempt on.
pub data Recovery : Type 0 where
  not_claimed kept_as_is settled_now : Recovery
  activates : ℕ → Recovery

-- `#deliverCallback`: one save with a new time, whatever the request comes to.
unfoldable pub saved_callback : Run → Option SaveError → Run × Result RecoverError Recovery
saved_callback r none = (record r { calls = r.calls + 1; stored = r.job }, ok settled_now)
saved_callback r (some e) = (record r { calls = r.calls + 1 }, err (callback_not_saved e))

abbrev pub called_back : Env → Run → Run
called_back env r = record r { job = record r.job { updated_at = env.now r.calls } }

unfoldable pub deliver_callback : Env → Bool → Run → Run × Result RecoverError Recovery
deliver_callback env has_callback r =
    if has_callback
    then saved_callback (called_back env r) (env.save r.calls)
    else (r, ok settled_now)

-- A step of the execution within the recovery.
unfoldable pub then_recover :
    Step (Unit {0})
    → (Run → Run × Result RecoverError Recovery)
    → Run × Result RecoverError Recovery
then_recover (r, ok done) next = next r
then_recover (r, err e) next = (r, err (run_failed e))

-- `#settleRecoveredJob`
unfoldable pub settle_recovered :
    Env → Found → Status → EventType → Run → Run × Result RecoverError Recovery
settle_recovered env f status type r =
    then_recover
      (emit env type (record r {
        job = record r.job {
          status = status;
          completed_at = some (env.now r.calls);
          result = none;
          error = some (r.job.attempt, false);
        };
      }))
      (deliver_callback env f.has_callback)

abbrev pub fail_recovered : Env → Found → Run → Run × Result RecoverError Recovery
fail_recovered env f r = settle_recovered env f has_failed failed r

unfoldable pub activate_recovered : ℕ → Run → Run × Result RecoverError Recovery
activate_recovered start r = (r, ok (activates start))

-- From the choice of the adapter on.
unfoldable pub start_recovered : Env → Found → ℕ → Run → Run × Result RecoverError Recovery
start_recovered env f start r =
    if not f.has_adapter || not f.has_snapshot || f.restore_throws
    then fail_recovered env f r
    else then_recover
        (emit env recovery_started (record r { job = record r.job { attempt = start } }))
        (activate_recovered start)

unfoldable pub after_lost : Env → Found → Run → Run × Result RecoverError Recovery
after_lost env f r =
    if ltb r.job.attempt r.job.max_attempts
    then start_recovered env f (r.job.attempt + 1) r
    else fail_recovered env f r

-- The attempt of a running Job is lost.
unfoldable pub recover_running : Env → Found → Run → Run × Result RecoverError Recovery
recover_running env f r =
    then_recover
      (emit env attempt_lost (record r {
        job = record r.job { error = some (r.job.attempt, ltb r.job.attempt r.job.max_attempts) };
      }))
      (after_lost env f)

unfoldable pub recover_queued : Env → Found → Run → Run × Result RecoverError Recovery
recover_queued env f r =
    if r.job.attempt == 0 then start_recovered env f 1 r else fail_recovered env f r

-- From the look at the cancellation on.
unfoldable pub recover_by_status : Env → Found → Run → Run × Result RecoverError Recovery
recover_by_status env f r =
    if f.is_cancelled
    then settle_recovered env f was_cancelled cancelled r
    else if is_queued r.job.status
    then recover_queued env f r
    else recover_running env f r

-- The controls of a running Job are given up, and the usage of its attempt is unknown.
unfoldable pub note_lost : Env → Found → Run → Run × Result RecoverError Recovery
note_lost env f r =
    recover_by_status env f (record r { job = record_attempt_usage r.job.attempt r.job })

unfoldable pub recover_live : Env → Found → Run → Run × Result RecoverError Recovery
recover_live env f r =
    if is_queued r.job.status
    then recover_by_status env f r
    else then_recover (mark_pending_lost env r.job.attempt owner_lost r) (note_lost env f)

abbrev pub is_live : Status → Bool
is_live in_queue = true
is_live running = true
is_live _ = false

-- The Job that the store has once the lease is claimed.
unfoldable pub recover_current : Env → Found → Option Job → Run → Run × Result RecoverError Recovery
recover_current env f none r = (r, err job_disappeared)
recover_current env f (some j) r =
    if is_live j.status
    then recover_live env f (record r { job = j; stored = j })
    else (record r { job = j; stored = j }, ok kept_as_is)

-- Whether the `finally` frees the lease.
abbrev frees_lease : Result RecoverError Recovery → Bool
frees_lease (ok (activates n)) = false
frees_lease _ = true

-- `#recoverInterruptedJob`, with whether it frees a lease
unfoldable pub recover : Env → Found → Run → (Run × Result RecoverError Recovery) × Bool
recover env f r =
    let done = recover_current env f f.current r in
    if not (is_live r.job.status) || f.is_active
    then ((r, ok kept_as_is), false)
    else if not f.gets_lease
    then ((r, ok not_claimed), false)
    else (done, frees_lease done.1)
