-- ===== src/Execution/RecoveryExamples.antt =====
-- Recoveries of src/orchestrator.ts on concrete Jobs.
use agentknot.Common.{
  Result, arith, false, if◌then◌else◌, leb, none, ok, refl, some, true, ◌-◌, ◌≡◌, ◌≤◌,
}
use agentknot.Execution.Attempts.{
  after_send, artifact_kept, capture_patch, keep_artifact, keep_captured, read_only_failure,
  record_attempt_usage, run_attempt, send_all,
}
use agentknot.Execution.ControlLoss.{mark_each, mark_lost, mark_pending_lost, requests_in}
use agentknot.Execution.Examples.{attempt_number, good_env, no_wait, queued_job}
use agentknot.Execution.Log.{
  Env, Job, Run, append_event, append_typed, appended_type, drop_last, emit, has_failed,
  has_succeeded, in_queue, is_truncation, is_worker, limit_data, new_event, notify, notify_observer,
  persist, persisted, phase, push_event, running, save_failed, undo_push,
}
use agentknot.Execution.Recovery.{
  Found, RecoverError, Recovery, activate_recovered, activates, after_lost, deliver_callback,
  note_lost, recover, recover_by_status, recover_current, recover_live, recover_queued,
  recover_running, settle_recovered, settled_now, start_recovered, then_recover,
}
use agentknot.Execution.RecoveryLaws.{listed}
use agentknot.Execution.RecoveryOutcome.{recover-IsDone, run_recovered}
use agentknot.Execution.Restarts.{Restarts, activated, no_more, restarts_bound}
use agentknot.Execution.RoundOutcome.{IsDone}
use agentknot.Execution.Rounds.{
  activate, attempt_round, close_unfinished, execute, fail_with, handle, handled, not_successful,
  retried, retry, returned, run_attempts, settle_attempt, settle_failure, start_job, succeed,
  wait_for_capacity,
}

abbrev lost : Job → Found
lost j = record {
  is_active = false;
  gets_lease = true;
  current = some j;
  is_cancelled = false;
  has_adapter = true;
  has_snapshot = true;
  restore_throws = false;
  has_callback = false;
}

-- The process stops within the first attempt, at the fourth save.
abbrev stopping_env : Env
stopping_env = record good_env { save = λ n. if leb 3 n then some save_failed else none }

abbrev first_recovery : Run × Result RecoverError Recovery
first_recovery = (recover good_env (lost queued_job) (listed queued_job)).0

abbrev stopped_job : Job
stopped_job = (activate stopping_env false no_wait attempt_number false 1 first_recovery.0).0.stored

abbrev second_recovery : Run × Result RecoverError Recovery
second_recovery = (recover good_env (lost stopped_job) (listed stopped_job)).0

abbrev done_job : Job
done_job = (activate good_env false no_wait attempt_number false 2 second_recovery.0).0.stored

recovers_twice :
    (first_recovery.1 ≡ ok (activates 1))
    × (stopped_job.status ≡ running)
    × (second_recovery.1 ≡ ok (activates 2))
    × (done_job.status ≡ has_succeeded)
unfolding recover recover_current recover_live recover_by_status recover_queued recover_running
    after_lost start_recovered settle_recovered then_recover activate_recovered deliver_callback
    note_lost mark_pending_lost requests_in mark_each mark_lost activate execute handled handle
    wait_for_capacity start_job run_attempts attempt_round run_attempt send_all after_send emit
    append_event append_typed appended_type is_worker is_truncation persist persisted limit_data
    undo_push drop_last push_event new_event notify notify_observer phase record_attempt_usage
    capture_patch keep_captured keep_artifact artifact_kept read_only_failure settle_attempt
    settle_failure not_successful retry retried fail_with returned succeed close_unfinished
recovers_twice = (refl, refl, refl, refl)

-- The first recovery stores attempt 1 of the queued Job. When its process stops before the Job has
-- started, the next recovery fails the Job.
queued_again :
    (first_recovery.0.stored.status ≡ in_queue)
    × (first_recovery.0.stored.attempt ≡ 1)
    × (let again =
          (recover good_env (lost first_recovery.0.stored) (listed first_recovery.0.stored)).0 in
        (again.1 ≡ ok settled_now) × (again.0.stored.status ≡ has_failed))
unfolding recover recover_current recover_live recover_by_status recover_queued recover_running
    after_lost start_recovered settle_recovered then_recover activate_recovered deliver_callback
    note_lost mark_pending_lost requests_in mark_each mark_lost activate execute handled handle
    wait_for_capacity start_job run_attempts attempt_round run_attempt send_all after_send emit
    append_event append_typed appended_type is_worker is_truncation persist persisted limit_data
    undo_push drop_last push_event new_event notify notify_observer phase record_attempt_usage
    capture_patch keep_captured keep_artifact artifact_kept read_only_failure settle_attempt
    settle_failure not_successful retry retried fail_with returned succeed close_unfinished
queued_again = (refl, refl, (refl, refl))

restarted : Restarts 2 queued_job
unfolding recover recover_current recover_live recover_by_status recover_queued recover_running
    after_lost start_recovered settle_recovered then_recover activate_recovered deliver_callback
    note_lost mark_pending_lost requests_in mark_each mark_lost activate execute handled handle
    wait_for_capacity start_job run_attempts attempt_round run_attempt send_all after_send emit
    append_event append_typed appended_type is_worker is_truncation persist persisted limit_data
    undo_push drop_last push_event new_event notify notify_observer phase record_attempt_usage
    capture_patch keep_captured keep_artifact artifact_kept read_only_failure settle_attempt
    settle_failure not_successful retry retried fail_with returned succeed close_unfinished
restarted =
    activated good_env (lost queued_job) queued_job 1 1 first_recovery.0 refl refl stopping_env
      false no_wait attempt_number false
      (activated good_env (lost stopped_job) stopped_job 0 2 second_recovery.0 refl refl good_env
        false no_wait attempt_number false (no_more done_job))

restarts_bound_example : 2 ≤ queued_job.max_attempts - queued_job.attempt
restarts_bound_example = restarts_bound 2 queued_job (ground arith) restarted

recover-IsDone_example :
    IsDone 2 (run_recovered good_env false no_wait attempt_number false second_recovery)
unfolding recover recover_current recover_live recover_by_status recover_queued recover_running
    after_lost start_recovered settle_recovered then_recover activate_recovered deliver_callback
    note_lost mark_pending_lost requests_in mark_each mark_lost activate execute handled handle
    wait_for_capacity start_job run_attempts attempt_round run_attempt send_all after_send emit
    append_event append_typed appended_type is_worker is_truncation persist persisted limit_data
    undo_push drop_last push_event new_event notify notify_observer phase record_attempt_usage
    capture_patch keep_captured keep_artifact artifact_kept read_only_failure settle_attempt
    settle_failure not_successful retry retried fail_with returned succeed close_unfinished
recover-IsDone_example =
    recover-IsDone good_env false no_wait attempt_number false (lost stopped_job) stopped_job
      (λ n. refl) refl refl refl refl (ground arith) (ground arith)
