-- ===== src/Execution/Outcome.antt =====
-- That an execution of src/orchestrator.ts ends, with its outcome in the store.
use agentknot.Common.{
  Bool, arith, err, false, if◌then◌else◌, none, ok, refl, suc, true, zero, ℕ, ◌+◌, ◌<◌, ◌≡◌, ◌≤◌,
}
use agentknot.Execution.AttemptOutcome.{IsLive, emit-IsLive}
use agentknot.Execution.Attempts.{Attempt}
use agentknot.Execution.Log.{
  Env, EventType, Run, RunError, Status, Step, cancelled, capacity_aborted, capacity_waiting,
  delay_aborted, emit, failed, has_failed, invalid_metadata, invalid_report, is_worker, persistence,
  started, was_cancelled, wrong_attempt,
}
use agentknot.Execution.RoundOutcome.{
  Goes, IsDone, IsStopped, attempt_round-Goes, emit-IsDone, has_finished,
}
use agentknot.Execution.Rounds.{
  Next, Waiting, activate, again, close, close_unfinished, execute, finished, goes_on, handle,
  handled, has_ended, is_queued, run_attempts, start_job, started_or_back, wait_for_capacity,
}
use agentknot.Execution.Triples.{
  Never, Outcome, Settles, after-Settles, fails, gives, if_Settles, never, settles,
}

aborted_or :
    (most : ℕ) (aborts : Bool) (r : Run)
    → IsLive most r.job
    → Settles
        (λ r' u. IsLive most r'.job)
        (IsStopped most)
        (r, if aborts then err capacity_aborted else ok tt)
unfolding IsStopped
aborted_or most true r live = fails (live, refl)
aborted_or most false r live = gives live

started-IsLive :
    (most : ℕ) (previous : ℕ) (s : Step (Unit {0}))
    → Settles (λ r u. IsLive most r.job) Never s
    → Settles (λ r u. IsLive most r.job) Never (started_or_back previous s)
unfolding Outcome Never
started-IsLive most previous (r, ok u) (settles live) = gives live
started-IsLive most previous (r, err e) (settles impossible) = elim impossible [ ]

module _ (env : Env) (saves : (n : ℕ) → env.save n ≡ none) (most : ℕ) where
  next-IsDone :
      (n : ℕ) (r : Run) (next : Next) (rest : Step (Unit {0}))
      → Goes most n r next
      → (n < most → IsLive most r.job → Settles (λ r' u. IsDone most r') (IsStopped most) rest)
      → Settles
          (λ r' u. IsDone most r')
          (IsStopped most)
          (if goes_on next then rest else (r, ok tt))
  unfolding Goes
  next-IsDone n r finished rest done step = gives done
  next-IsDone n r again rest (h, live) step = step h live

  run_attempts-IsDone :
      (b : Bool) (attempts : ℕ → Attempt) (rounds n : ℕ) (r : Run)
      → n ≤ most
      → n + rounds ≡ most + 1
      → IsLive most r.job
      → Settles (λ r' u. IsDone most r') (IsStopped most) (run_attempts env b attempts rounds n r)
  unfolding run_attempts
  run_attempts-IsDone b attempts zero n r h total live =
      let impossible : ⊥ = omega arith in elim impossible [ ]
  run_attempts-IsDone b attempts (suc rounds) n r h total live =
      after-Settles _ _ (attempt_round-Goes env saves most b (attempts n) n r live) (λ r' e k. k)
        (λ r' next k. next-IsDone n r' next _ k (λ h' live'.
          run_attempts-IsDone b attempts rounds (suc n) r' (omega arith) (omega arith) live'))

  wait_for_capacity-IsLive :
      (w : Waiting) (r : Run)
      → IsLive most r.job
      → Settles (λ r' u. IsLive most r'.job) (IsStopped most) (wait_for_capacity env w r)
  unfolding wait_for_capacity IsStopped
  wait_for_capacity-IsLive w r live =
      let waited : Settles (λ r' u. IsLive most r'.job) Never
          (if w.waits then emit env capacity_waiting r else (r, ok tt)) =
        if_Settles w.waits _ (r, ok tt) (λ h. emit-IsLive env saves most capacity_waiting r live)
          (λ h. gives live) in
      after-Settles _ _ waited (never _) (λ r' u live'. aborted_or most w.aborts r' live')

  start_job-IsLive :
      (n : ℕ) (r : Run)
      → n ≤ most
      → IsLive most r.job
      → Settles (λ r' u. IsLive most r'.job) Never (start_job env n r)
  unfolding start_job IsLive
  start_job-IsLive n r h live =
      if_Settles (is_queued r.job.status) _ (r, ok tt)
        (λ queued. started-IsLive most _ _ (emit-IsLive env saves most started _ (refl, h, live.2)))
        (λ k. gives live)

  execute-IsDone :
      (b : Bool) (w : Waiting) (attempts : ℕ → Attempt) (n : ℕ) (r : Run)
      → n ≤ most
      → IsLive most r.job
      → Settles (λ r' u. IsDone most r') (IsStopped most) (execute env b w attempts n r)
  unfolding execute IsLive
  execute-IsDone b w attempts n r h live =
      after-Settles _ _ (wait_for_capacity-IsLive w r live) (λ r' e k. k)
        (λ r₁ u live₁.
          after-Settles _ _ (start_job-IsLive n r₁ h live₁) (never _)
            (λ r₂ v live₂. run_attempts-IsDone b attempts _ n r₂ h (omega arith) live₂))

  close-IsDone :
      (status : Status) (type : EventType) (r : Run)
      → has_finished status ≡ true
      → is_worker type ≡ false
      → IsLive most r.job
      → Settles (λ r' u. IsDone most r') Never (close env status type r)
  unfolding IsLive
  close-IsDone status type r final h live = emit-IsDone env saves most type _ h (final, live.1)

  close_unfinished-IsDone :
      (aborted : Bool) (r : Run)
      → IsLive most r.job
      → Settles (λ r' u. IsDone most r') Never (close_unfinished env aborted r)
  unfolding close_unfinished IsLive is_worker
  close_unfinished-IsDone aborted r live =
      if_Settles (has_ended r.job.status) (r, ok tt) _ (λ ended. cc)
        (λ h.
          if_Settles aborted _ _ (λ k. close-IsDone was_cancelled cancelled r refl refl live)
            (λ k. close-IsDone has_failed failed r refl refl live))

  handle-IsDone :
      (aborted : Bool) (e : RunError) (r : Run)
      → IsStopped most r e
      → Settles (λ r' u. IsDone most r') Never (handle env aborted e r)
  unfolding handle IsStopped
  handle-IsDone aborted (persistence p t s) r stopped = cc
  handle-IsDone aborted wrong_attempt r stopped = close_unfinished-IsDone aborted r stopped.0
  handle-IsDone aborted capacity_aborted r stopped = close_unfinished-IsDone aborted r stopped.0
  handle-IsDone aborted delay_aborted r stopped = close_unfinished-IsDone aborted r stopped.0
  handle-IsDone aborted invalid_report r stopped = close_unfinished-IsDone aborted r stopped.0
  handle-IsDone aborted invalid_metadata r stopped = close_unfinished-IsDone aborted r stopped.0

  handled-IsDone :
      (aborted : Bool) (s : Step (Unit {0}))
      → Settles (λ r' u. IsDone most r') (IsStopped most) s
      → Settles (λ r' u. IsDone most r') Never (handled env aborted s)
  unfolding handled Outcome
  handled-IsDone aborted (r, ok u) (settles done) = gives done
  handled-IsDone aborted (r, err e) (settles stopped) = handle-IsDone aborted e r stopped

returned_fact :
    {Q : Run → Type 0} (s : Step (Unit {0})) → Settles (λ r u. Q r) Never s → (s.1 ≡ ok tt) × Q s.0
unfolding Outcome Never
returned_fact (r, ok u) (settles done) = (refl, done)
returned_fact (r, err e) (settles impossible) = elim impossible [ ]

-- When no save fails, the execution of a Job that has neither failed nor been cancelled, whose attempt and
-- first attempt to run are within its attempts, returns: the Job is then succeeded, failed or
-- cancelled, its attempt is within its attempts, and the store holds the Job as it is in memory,
-- whatever the workers, the capacity and the observer do.
pub activate-IsDone :
    (env : Env) (is_analysis : Bool) (w : Waiting) (attempts : ℕ → Attempt) (aborted : Bool)
    (start : ℕ) (r : Run)
    → ((n : ℕ) → env.save n ≡ none)
    → has_ended r.job.status ≡ false
    → r.job.attempt ≤ r.job.max_attempts
    → start ≤ r.job.max_attempts
    → ((activate env is_analysis w attempts aborted start r).1 ≡ ok tt)
      × IsDone r.job.max_attempts (activate env is_analysis w attempts aborted start r).0
unfolding activate IsLive
activate-IsDone env is_analysis w attempts aborted start r saves status attempt first =
    returned_fact _ (
      handled-IsDone env saves r.job.max_attempts aborted _ (
        execute-IsDone env saves r.job.max_attempts is_analysis w attempts start r first
          (status, attempt, refl)))
