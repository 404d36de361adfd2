-- ===== src/Execution/Rule.antt =====
-- What holds of the log at the start of an execution of src/orchestrator.ts and after each event,
-- holds at its end.
use agentknot.Common.{
  Bool, List, Option, String, [], arith, err, false, none, ok, refl, some, subst, suc, true, zero,
  ℕ, ◌∷◌, ◌≡◌, ◌≤◌,
}
use agentknot.Execution.Attempts.{
  Attempt, Failure, WorkerResult, after_send, artifact_kept, capture_patch, keep_artifact,
  keep_captured, persistence_failure, record_attempt_usage, run_attempt, send_all, worker_failure,
}
use agentknot.Execution.EmitRule.{Ends, after_rule, ended, ends, if_rule}
use agentknot.Execution.Log.{
  Artifact, Env, EventType, Run, RunError, Status, Step, artifact, cancellation_requested,
  cancelled, capacity_aborted, capacity_waiting, delay_aborted, emit, failed, has_failed,
  invalid_metadata, invalid_report, is_truncation, persistence, retrying, save_failed, started,
  succeeded, was_cancelled, worker, wrong_attempt,
}
use agentknot.Execution.Rounds.{
  Waiting, activate, attempt_round, close, close_unfinished, execute, fail_with, finish, handle,
  handled, not_successful, retried, retry, returned, run_attempts, settle_attempt, settle_failure,
  start_job, started_or_back, succeed, wait_for_capacity,
}

module _ (env : Env) (low : ℕ) (P : Run → Type 0) (bounded : (r : Run) → P r → low ≤ r.job.attempt)
    (changes : (r r' : Run)
      → r.job.events ≡ r'.job.events
      → r.stored ≡ r'.stored
      → r.job.max_attempts ≡ r'.job.max_attempts
      → low ≤ r'.job.attempt
      → P r
      → P r')
    (emits : (type : EventType)
      → (r : Run) → is_truncation type ≡ false
      → P r
      → Ends P (emit env type r)) where
  changed :
      (r r' : Run)
      → r.job.events ≡ r'.job.events
      → r.stored ≡ r'.stored
      → r.job.max_attempts ≡ r'.job.max_attempts
      → r.job.attempt ≡ r'.job.attempt
      → P r
      → P r'
  changed r r' events stored most same holds =
      changes r r' events stored most (subst (λ (n : ℕ). low ≤ n) same (bounded r holds)) holds

  after_send_rule :
      (b : Bool)
      → (s : Step (Unit {0})) → (next : Run → Run × Option Failure) → Ends P s
      → ((r : Run) → P r → Ends P (next r))
      → Ends P (after_send b s next)
  unfolding after_send
  after_send_rule b (r, ok u) next (ends holds) step = step r holds
  after_send_rule b (r, err e) next (ends holds) step = if_rule P _ _ _ (ends holds) (step r holds)

  send_all_rule :
      (b : Bool) → (types : List String) → (r : Run) → P r → Ends P (send_all env b types r)
  unfolding send_all is_truncation
  send_all_rule b [] r holds = ends holds
  send_all_rule b (t ∷ ts) r holds =
      after_send_rule b _ _ (emits (worker t) r refl holds) (send_all_rule b ts)

  artifact_kept_rule :
      (d : Bool)
      → (previous : List Artifact) → (s : Step (Unit {0})) → Ends P s
      → Ends P (artifact_kept d previous s)
  unfolding artifact_kept
  artifact_kept_rule d previous (r, ok u) (ends holds) = ends holds
  artifact_kept_rule d previous (r, err e) (ends holds) =
      ends (changed _ _ refl refl refl refl holds)

  keep_captured_rule :
      (d : Bool)
      → (patch : Option Artifact) → (r : Run) → P r
      → Ends P (keep_captured env d patch r)
  unfolding keep_captured keep_artifact is_truncation
  keep_captured_rule d none r holds = ends holds
  keep_captured_rule d (some patch) r holds =
      artifact_kept_rule _ _ _ (emits artifact _ refl (changed r _ refl refl refl refl holds))

  capture_patch_rule : (a : Attempt) → (r : Run) → P r → Ends P (capture_patch env a r)
  unfolding capture_patch
  capture_patch_rule a r holds = if_rule P _ _ _ (keep_captured_rule _ _ _ holds) (ends holds)

  run_attempt_rule : (a : Attempt) → (n : ℕ) → (r : Run) → P r → Ends P (run_attempt env a n r)
  unfolding run_attempt record_attempt_usage
  run_attempt_rule a n r holds = ends (
      ended (
        capture_patch_rule a _
          (changed _ _ refl refl refl refl (ended (send_all_rule a.rethrows a.sends r holds)))))

  finish_rule :
      (type : EventType) → (r : Run) → is_truncation type ≡ false → P r → Ends P (finish env type r)
  finish_rule type r h holds =
      after_rule P (emit env type r) _ (emits type r h holds) (λ r' a k. ends k)

  retried_rule :
      (b : Bool) → (n : ℕ) → (s : Step (Unit {0})) → low ≤ n → Ends P s → Ends P (retried b n s)
  unfolding retried
  retried_rule b n (r, ok u) h (ends holds) = ends holds
  retried_rule b n (r, err e) h (ends holds) = ends (changes _ _ refl refl refl h holds)

  retry_rule : (b : Bool) → (n : ℕ) → (r : Run) → low ≤ n → P r → Ends P (retry env b n r)
  unfolding retry is_truncation
  retry_rule b n r h holds =
      retried_rule _ _ _ h
        (emits retrying _ refl (changes r _ refl refl refl (omega (arith, h)) holds))

  fail_with_rule :
      (status : Status)
      → (type : EventType) → (n : ℕ) → (r : Run) → is_truncation type ≡ false
      → P r
      → Ends P (fail_with env status type n r)
  unfolding fail_with
  fail_with_rule status type n r h holds =
      finish_rule type _ h (changed r _ refl refl refl refl holds)

  succeed_rule : (b : Bool) → (n : ℕ) → (r : Run) → P r → Ends P (succeed env b n r)
  unfolding succeed is_truncation
  succeed_rule true n r holds = ends (changed r _ refl refl refl refl holds)
  succeed_rule false n r holds =
      finish_rule succeeded _ refl (changed r _ refl refl refl refl holds)

  not_successful_rule :
      (a : Attempt)
      → (n : ℕ) → (f : Option Failure) → (r : Run) → low ≤ n
      → P r
      → Ends P (not_successful env a n f r)
  unfolding not_successful is_truncation
  not_successful_rule a n f r h holds = if_rule P _ _ _ (retry_rule _ n r h holds) (
      if_rule P _ _ _ (fail_with_rule was_cancelled cancelled n r refl holds)
        (fail_with_rule has_failed failed n r refl holds))

  returned_rule :
      (a : Attempt)
      → (n : ℕ) → (result : Option WorkerResult) → (r : Run) → low ≤ n
      → P r
      → Ends P (returned env a n result r)
  unfolding returned is_truncation
  returned_rule a n none r h holds = not_successful_rule a n none r h holds
  returned_rule a n (some w) r h holds =
      if_rule P _ _ _ (ends holds) (
        if_rule P _ _ _ (fail_with_rule has_failed failed n r refl holds)
          (succeed_rule _ n r holds))

  settle_failure_rule :
      (a : Attempt)
      → (n : ℕ) → (f : Failure) → (r : Run) → low ≤ n
      → P r
      → Ends P (settle_failure env a n f r)
  unfolding settle_failure
  settle_failure_rule a n (persistence_failure e) r h holds = ends holds
  settle_failure_rule a n (worker_failure f) r h holds = not_successful_rule a n _ r h holds

  settle_attempt_rule :
      (a : Attempt)
      → (n : ℕ) → (f : Option Failure) → (r : Run) → low ≤ n
      → P r
      → Ends P (settle_attempt env a n f r)
  unfolding settle_attempt
  settle_attempt_rule a n none r h holds = returned_rule a n a.result r h holds
  settle_attempt_rule a n (some f) r h holds = settle_failure_rule a n f r h holds

  attempt_round_rule :
      (b : Bool)
      → (a : Attempt) → (n : ℕ) → (r : Run) → low ≤ n
      → P r
      → Ends P (attempt_round env b a n r)
  unfolding attempt_round
  attempt_round_rule b a n r h holds =
      if_rule P _ _ _ (settle_attempt_rule _ _ _ _ h (ended (run_attempt_rule a n r holds)))
        (ends holds)

  run_attempts_rule :
      (b : Bool)
      → (attempts : ℕ → Attempt) → (rounds n : ℕ) → (r : Run) → low ≤ n
      → P r
      → Ends P (run_attempts env b attempts rounds n r)
  unfolding run_attempts
  run_attempts_rule b attempts zero n r h holds = ends holds
  run_attempts_rule b attempts (suc rounds) n r h holds =
      after_rule P _ _ (attempt_round_rule b (attempts n) n r h holds) (λ r' next k.
        if_rule P _ _ _ (run_attempts_rule b attempts rounds (suc n) r' (omega (arith, h)) k)
          (ends k))

  started_or_back_rule :
      (n : ℕ) → (s : Step (Unit {0})) → low ≤ n → Ends P s → Ends P (started_or_back n s)
  started_or_back_rule n (r, ok u) h (ends holds) = ends holds
  started_or_back_rule n (r, err e) h (ends holds) = ends (changes _ _ refl refl refl h holds)

  wait_for_capacity_rule : (w : Waiting) → (r : Run) → P r → Ends P (wait_for_capacity env w r)
  unfolding wait_for_capacity is_truncation
  wait_for_capacity_rule w r holds =
      let waited =
        if_rule P w.waits _ (r, ok tt) (emits capacity_waiting r refl holds) (ends holds) in
      after_rule P _ _ waited (λ r' u k. ends k)

  start_job_rule : (n : ℕ) → (r : Run) → low ≤ n → P r → Ends P (start_job env n r)
  unfolding start_job is_truncation
  start_job_rule n r h holds =
      if_rule P _ _ _
        (started_or_back_rule _ _ (bounded r holds)
          (emits started _ refl (changes r _ refl refl refl h holds)))
        (ends holds)

  execute_rule :
      (b : Bool)
      → (w : Waiting) → (attempts : ℕ → Attempt) → (n : ℕ) → (r : Run) → low ≤ n
      → P r
      → Ends P (execute env b w attempts n r)
  unfolding execute
  execute_rule b w attempts n r h holds =
      after_rule P _ _ (wait_for_capacity_rule w r holds) (λ r₁ u k₁.
        after_rule P _ _ (start_job_rule n r₁ h k₁)
          (λ r₂ v k₂. run_attempts_rule b attempts _ n r₂ h k₂))

  closing_rule :
      (status : Status)
      → (type : EventType) → (r : Run) → is_truncation type ≡ false
      → P r
      → Ends P (close env status type r)
  closing_rule status type r h holds = emits type _ h (changed r _ refl refl refl refl holds)

  close_unfinished_rule :
      (aborted : Bool) → (r : Run) → P r → Ends P (close_unfinished env aborted r)
  unfolding close_unfinished is_truncation
  close_unfinished_rule aborted r holds = if_rule P _ _ _ (ends holds) (
      if_rule P _ _ _ (closing_rule was_cancelled cancelled r refl holds)
        (closing_rule has_failed failed r refl holds))

  handle_rule : (b : Bool) → (e : RunError) → (r : Run) → P r → Ends P (handle env b e r)
  unfolding handle is_truncation
  handle_rule b (persistence p t cancellation_requested) r holds =
      closing_rule was_cancelled cancelled (record r { job = record r.job { result = none } }) refl
        (changed r _ refl refl refl refl holds)
  handle_rule b (persistence p t save_failed) r holds = ends holds
  handle_rule b wrong_attempt r holds = close_unfinished_rule b r holds
  handle_rule b capacity_aborted r holds = close_unfinished_rule b r holds
  handle_rule b delay_aborted r holds = close_unfinished_rule b r holds
  handle_rule b invalid_report r holds = close_unfinished_rule b r holds
  handle_rule b invalid_metadata r holds = close_unfinished_rule b r holds

  handled_rule : (b : Bool) → (s : Step (Unit {0})) → Ends P s → Ends P (handled env b s)
  unfolding handled
  handled_rule b (r, ok u) (ends holds) = ends holds
  handled_rule b (r, err e) (ends holds) = handle_rule b e r holds

  pub activate_rule :
      (b : Bool)
      → (w : Waiting) → (attempts : ℕ → Attempt) → (aborted : Bool) → (n : ℕ) → (r : Run) → low ≤ n
      → P r
      → Ends P (activate env b w attempts aborted n r)
  unfolding activate
  activate_rule b w attempts aborted n r h holds =
      handled_rule aborted _ (execute_rule b w attempts n r h holds)
