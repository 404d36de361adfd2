-- ===== src/Execution/RoundOutcome.antt =====
-- What a round of the loop of `#execute` of src/orchestrator.ts leaves when no save fails.
use agentknot.Common.{
  Bool, Option, arith, err, false, ltb, none, not, ok, refl, some, true, ℕ, ◌&&◌, ◌<◌, ◌==◌, ◌≡◌,
  ◌≤◌,
}
use agentknot.Execution.AttemptOutcome.{
  IsLive, StaysLive, emit-IsLive, is_unbroken, read_only_failure_unbroken, run_attempt_live,
}
use agentknot.Execution.Attempts.{
  Attempt, Failure, WorkerResult, persistence_failure, worker_failure,
}
use agentknot.Execution.Log.{
  Env, EventType, Job, Run, RunError, Status, Step, cancelled, emit, failed, has_failed,
  has_succeeded, invalid_report, is_worker, persistence, push_event, retrying, succeeded,
  was_cancelled, wrong_attempt,
}
use agentknot.Execution.Rounds.{
  Next, again, attempt_round, fail_with, finish, finished, may_retry, not_successful, retried,
  retry, returned, settle_attempt, settle_failure, succeed,
}
use agentknot.Execution.Triples.{
  Never, Outcome, Settles, after-Settles, emit-Settles, fails, gives, if_Settles, never, settles,
  weaken,
}

abbrev pub has_finished : Status → Bool
has_finished has_succeeded = true
has_finished has_failed = true
has_finished was_cancelled = true
has_finished _ = false

abbrev pub is_persistence : RunError → Bool
is_persistence (persistence _ _ _) = true
is_persistence _ = false

-- The Job is in a terminal state, and the store holds it as it is.
unfoldable pub IsDone : ℕ → Run → Type 0
IsDone most r = (has_finished r.job.status ≡ true) × (r.job.attempt ≤ most) × (r.stored ≡ r.job)

unfoldable pub IsStopped : ℕ → Run → RunError → Type 0
IsStopped most r e = IsLive most r.job × (is_persistence e ≡ false)

-- What a round of attempt `n` leaves.
unfoldable pub Goes : ℕ → ℕ → Run → Next → Type 0
Goes most n r finished = IsDone most r
Goes most n r again = (n < most) × IsLive most r.job

module _ (env : Env) (saves : (n : ℕ) → env.save n ≡ none) (most : ℕ) where
  abbrev pub IsFinal : Job → Type 0
  IsFinal j = (has_finished j.status ≡ true) × (j.attempt ≤ most)

  pub emit-IsDone :
      (type : EventType) (r : Run)
      → is_worker type ≡ false
      → IsFinal r.job
      → Settles (λ r' u. IsDone most r') Never (emit env type r)
  unfolding push_event IsDone
  emit-IsDone type r h final =
      weaken (emit-Settles env saves IsFinal (λ t at j holds. holds) type r final)
        (λ r' u kept. (kept.0.0, kept.0.1, kept.1 h))

  finish_done :
      (n : ℕ) (type : EventType) (r : Run)
      → is_worker type ≡ false
      → IsFinal r.job
      → Settles (Goes most n) (IsStopped most) (finish env type r)
  unfolding Goes
  finish_done n type r h final =
      after-Settles _ _ (emit-IsDone type r h final) (never _) (λ r' u done. gives done)

  retried-Goes :
      (b : Bool) (n : ℕ) (s : Step (Unit {0}))
      → n < most
      → Settles (λ r' u. IsLive most r'.job) Never s
      → Settles (Goes most n) (IsStopped most) (retried b n s)
  unfolding retried Goes IsStopped Outcome Never
  retried-Goes true n (r, ok u) h (settles live) = fails (live, refl)
  retried-Goes false n (r, ok u) h (settles live) = gives (h, live)
  retried-Goes b n (r, err e) h (settles impossible) = elim impossible [ ]

  retry-Goes :
      (b : Bool) (n : ℕ) (r : Run)
      → n < most
      → IsLive most r.job
      → Settles (Goes most n) (IsStopped most) (retry env b n r)
  unfolding retry IsLive
  retry-Goes b n r h live =
      retried-Goes b n _ h (emit-IsLive env saves most retrying _ (live.0, omega arith, live.2))

  fail_with-Goes :
      (status : Status) (type : EventType) (n : ℕ) (r : Run)
      → has_finished status ≡ true
      → is_worker type ≡ false
      → IsLive most r.job
      → Settles (Goes most n) (IsStopped most) (fail_with env status type n r)
  unfolding fail_with IsLive
  fail_with-Goes status type n r final h live = finish_done n type _ h (final, live.1)

  succeed-Goes :
      (b : Bool) (n : ℕ) (r : Run)
      → IsLive most r.job
      → Settles (Goes most n) (IsStopped most) (succeed env b n r)
  unfolding succeed IsLive is_worker IsStopped
  succeed-Goes true n r live = fails ((refl, live.1, live.2), refl)
  succeed-Goes false n r live = finish_done n succeeded _ refl (refl, live.1)

  not_successful-Goes :
      (a : Attempt) (n : ℕ) (f : Option Failure) (r : Run)
      → IsLive most r.job
      → Settles (Goes most n) (IsStopped most) (not_successful env a n f r)
  unfolding not_successful is_worker IsLive
  not_successful-Goes a n f r live =
      if_Settles (may_retry f && not a.job_aborted && ltb n r.job.max_attempts) _ _
        (λ h. retry-Goes _ n r (grind arith) live)
        (λ h.
          if_Settles a.job_aborted _ _
            (λ k. fail_with-Goes was_cancelled cancelled n r refl refl live)
            (λ k. fail_with-Goes has_failed failed n r refl refl live))

  returned-Goes :
      (a : Attempt) (n : ℕ) (result : Option WorkerResult) (r : Run)
      → IsLive most r.job
      → Settles (Goes most n) (IsStopped most) (returned env a n result r)
  unfolding returned is_worker IsStopped
  returned-Goes a n none r live = not_successful-Goes a n none r live
  returned-Goes a n (some w) r live =
      if_Settles w.report_throws (r, err invalid_report) _ (λ h. fails (live, refl))
        (λ h.
          if_Settles w.is_blocked _ _ (λ k. fail_with-Goes has_failed failed n r refl refl live)
            (λ k. succeed-Goes _ n r live))

  settle_attempt-Goes :
      (a : Attempt) (n : ℕ) (f : Option Failure) (r : Run)
      → is_unbroken f ≡ true
      → IsLive most r.job
      → Settles (Goes most n) (IsStopped most) (settle_attempt env a n f r)
  unfolding settle_attempt settle_failure
  settle_attempt-Goes a n none r h live = returned-Goes a n a.result r live
  settle_attempt-Goes a n (some (worker_failure f)) r h live = not_successful-Goes a n _ r live
  settle_attempt-Goes a n (some (persistence_failure e)) r h live = cc

  pub attempt_round-Goes :
      (b : Bool) (a : Attempt) (n : ℕ) (r : Run)
      → IsLive most r.job
      → Settles (Goes most n) (IsStopped most) (attempt_round env b a n r)
  unfolding attempt_round StaysLive IsStopped
  attempt_round-Goes b a n r live =
      let ran = run_attempt_live env saves most a n r live in
      if_Settles (r.job.attempt == n) _ (r, err wrong_attempt)
        (λ h. settle_attempt-Goes a n _ _ (read_only_failure_unbroken b a n _ _ ran.1) ran.0)
        (λ h. fails (live, refl))
