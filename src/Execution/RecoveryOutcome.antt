-- ===== src/Execution/RecoveryOutcome.antt =====
-- How a recovery of src/orchestrator.ts ends when no save fails, with the execution that it activates.
use agentknot.Common.{
  Bool, Option, Result, arith, err, false, ltb, none, not, ok, refl, some, subst, sym, true, ℕ, ◌+◌,
  ◌==◌, ◌||◌, ◌≡◌, ◌≤◌,
}
use agentknot.Execution.AttemptOutcome.{IsLive, emit-IsLive}
use agentknot.Execution.Attempts.{Attempt, record_attempt_usage}
use agentknot.Execution.ControlTypes.{owner_lost}
use agentknot.Execution.Log.{
  Env, EventType, Job, Run, SaveError, Status, Step, attempt_lost, cancelled, failed, has_failed,
  has_succeeded, in_queue, is_worker, recovery_started, running, was_cancelled,
}
use agentknot.Execution.Outcome.{activate-IsDone}
use agentknot.Execution.Recovery.{
  Found, RecoverError, Recovery, activate_recovered, activates, after_lost, called_back,
  deliver_callback, fail_recovered, is_live, kept_as_is, not_claimed, note_lost, recover,
  recover_by_status, recover_current, recover_live, recover_queued, recover_running, saved_callback,
  settle_recovered, settled_now, start_recovered, then_recover,
}
use agentknot.Execution.RecoveryLaws.{if_holds, listed, mark_pending_lost_does}
use agentknot.Execution.RoundOutcome.{IsDone, IsFinal, emit-IsDone, has_finished}
use agentknot.Execution.Rounds.{Waiting, activate, has_ended, is_queued}
use agentknot.Execution.Triples.{Never, Outcome, Settles, after-Settles, gives, never, settles}

-- The recovery, and then the execution that it activates.
pub run_recovered :
    Env → Bool → Waiting → (ℕ → Attempt) → Bool → Run × Result RecoverError Recovery → Run
run_recovered env is_analysis w attempts aborted (r, ok (activates n)) =
    (activate env is_analysis w attempts aborted n r).0
run_recovered env is_analysis w attempts aborted (r, ok not_claimed) = r
run_recovered env is_analysis w attempts aborted (r, ok kept_as_is) = r
run_recovered env is_analysis w attempts aborted (r, ok settled_now) = r
run_recovered env is_analysis w attempts aborted (r, err e) = r

-- The recovery has settled the Job, or activates it within its attempts.
unfoldable Completes : ℕ → Run × Result RecoverError Recovery → Type 0
Completes most (r, ok (activates n)) = (n ≤ most) × IsLive most r.job
Completes most (r, ok settled_now) = IsDone most r
Completes most (r, ok not_claimed) = ⊥
Completes most (r, ok kept_as_is) = ⊥
Completes most (r, err e) = ⊥

module _ (env : Env) (saves : (n : ℕ) → env.save n ≡ none) (f : Found) (most : ℕ) where
  abbrev Lives : Step (Unit {0}) → Type 0
  Lives s = Settles (λ r u. IsLive most r.job) Never s

  then-Completes :
      (Q : Run → Type 0) (s : Step (Unit {0})) (next : Run → Run × Result RecoverError Recovery)
      → Settles (λ r u. Q r) Never s
      → ((r : Run) → Q r → Completes most (next r))
      → Completes most (then_recover s next)
  unfolding then_recover Completes Outcome Never
  then-Completes Q (r, ok done) next (settles holds) step = step r holds
  then-Completes Q (r, err e) next (settles impossible) step = elim impossible [ ]

  saved_callback-Completes :
      (o : Option SaveError) (r : Run)
      → o ≡ none
      → IsFinal env saves most r.job
      → Completes most (saved_callback r o)
  unfolding saved_callback Completes IsDone
  saved_callback-Completes none r saved final = (final.0, final.1, refl)
  saved_callback-Completes (some e) r saved final = cc

  deliver_callback-Completes :
      (r : Run) → IsDone most r → Completes most (deliver_callback env f.has_callback r)
  unfolding deliver_callback Completes IsDone
  deliver_callback-Completes r done =
      if_holds (Completes most) f.has_callback
        (saved_callback (called_back env r) (env.save r.calls)) (r, ok settled_now)
        (λ k. saved_callback-Completes _ (called_back env r) (saves r.calls) (done.0, done.1))
        (λ k. done)

  settle_recovered-Completes :
      (status : Status) (type : EventType) (r : Run)
      → has_finished status ≡ true
      → is_worker type ≡ false
      → IsLive most r.job
      → Completes most (settle_recovered env f status type r)
  unfolding settle_recovered IsLive
  settle_recovered-Completes status type r final plain live =
      then-Completes (IsDone most) _ (deliver_callback env f.has_callback)
        (emit-IsDone env saves most type _ plain (final, live.1)) deliver_callback-Completes

  fail_recovered-Completes : (r : Run) → IsLive most r.job → Completes most (fail_recovered env f r)
  unfolding is_worker
  fail_recovered-Completes r live = settle_recovered-Completes has_failed failed r refl refl live

  activate_recovered-Completes :
      (start : ℕ)
      → start ≤ most
      → (r : Run) → IsLive most r.job
      → Completes most (activate_recovered start r)
  unfolding activate_recovered Completes
  activate_recovered-Completes start within r live = (within, live)

  start_recovered-Completes :
      (start : ℕ) (r : Run)
      → start ≤ most
      → IsLive most r.job
      → Completes most (start_recovered env f start r)
  unfolding start_recovered IsLive
  start_recovered-Completes start r within live =
      if_holds (Completes most) _ _ _ (λ k. fail_recovered-Completes r live)
        (λ k.
          then-Completes (λ r. IsLive most r.job) _ (activate_recovered start)
            (emit-IsLive env saves most recovery_started
              (record r { job = record r.job { attempt = start } }) (live.0, within, live.2))
            (activate_recovered-Completes start within))

  after_lost-Completes : (r : Run) → IsLive most r.job → Completes most (after_lost env f r)
  unfolding after_lost IsLive
  after_lost-Completes r live =
      let same = live.2 in
      if_holds (Completes most) (ltb r.job.attempt r.job.max_attempts) _ _
        (λ less. start_recovered-Completes (r.job.attempt + 1) r (ground (arith, same, less)) live)
        (λ k. fail_recovered-Completes r live)

  recover_by_status-Completes :
      1 ≤ most → (r : Run) → IsLive most r.job → Completes most (recover_by_status env f r)
  unfolding recover_by_status recover_queued recover_running is_worker IsLive
  recover_by_status-Completes some_attempt r live =
      if_holds (Completes most) f.is_cancelled _ _
        (λ k. settle_recovered-Completes was_cancelled cancelled r refl refl live)
        (λ k.
          if_holds (Completes most) (is_queued r.job.status) _ _
            (λ q.
              if_holds (Completes most) (r.job.attempt == 0) _ _
                (λ k. start_recovered-Completes 1 r some_attempt live)
                (λ k. fail_recovered-Completes r live))
            (λ q.
              then-Completes (λ r. IsLive most r.job) _ (after_lost env f)
                (emit-IsLive env saves most attempt_lost _ live) after_lost-Completes))

  recover_live-Completes :
      1 ≤ most → (r : Run) → IsLive most r.job → Completes most (recover_live env f r)
  unfolding recover_live note_lost record_attempt_usage IsLive
  recover_live-Completes some_attempt r live =
      if_holds (Completes most) (is_queued r.job.status) _ _
        (λ k. recover_by_status-Completes some_attempt r live)
        (λ k.
          then-Completes (λ r. IsLive most r.job) _ (note_lost env f)
            (mark_pending_lost_does env (λ r. IsLive most r.job) Lives (λ r k. gives k)
              (λ s next holds step. after-Settles s next holds (never _) step)
              (λ type r plain k. emit-IsLive env saves most type r k) r.job.attempt owner_lost r
              live)
            (λ x k. recover_by_status-Completes some_attempt _ k))

not_ended : (status : Status) → is_live status ≡ true → has_ended status ≡ false
not_ended in_queue live = refl
not_ended running live = refl
not_ended has_succeeded live = cc
not_ended has_failed live = cc
not_ended was_cancelled live = cc

completed :
    (env : Env) (is_analysis : Bool) (w : Waiting) (attempts : ℕ → Attempt) (aborted : Bool)
    (most : ℕ) (s : Run × Result RecoverError Recovery)
    → ((n : ℕ) → env.save n ≡ none)
    → Completes most s
    → IsDone most (run_recovered env is_analysis w attempts aborted s)
unfolding Completes run_recovered IsLive
completed env is_analysis w attempts aborted most (r, ok (activates n)) saves (within, live) =
    let (status, attempt, same) = live in
    subst (λ (m : ℕ). IsDone m (activate env is_analysis w attempts aborted n r).0) same
      (activate-IsDone env is_analysis w attempts aborted n r saves status
        (ground (arith, attempt, same)) (ground (arith, within, same))).1
completed env is_analysis w attempts aborted most (r, ok settled_now) saves done = done
completed env is_analysis w attempts aborted most (r, ok not_claimed) saves impossible =
    elim impossible [ ]
completed env is_analysis w attempts aborted most (r, ok kept_as_is) saves impossible =
    elim impossible [ ]
completed env is_analysis w attempts aborted most (r, err e) saves impossible = elim impossible [ ]

-- When no save fails, a recovery of a queued or running Job that this process does not run, and whose
-- lease it gets, settles the Job or activates it, and after that execution the Job is succeeded, failed
-- or cancelled with its attempt within its attempts, and the store holds it as it is in memory. The
-- stored attempt is within the attempts of the Job, of which there is at least one.
pub recover-IsDone :
    (env : Env) (is_analysis : Bool) (w : Waiting) (attempts : ℕ → Attempt) (aborted : Bool)
    (f : Found) (j : Job)
    → ((n : ℕ) → env.save n ≡ none)
    → f.current ≡ some j
    → f.is_active ≡ false
    → f.gets_lease ≡ true
    → is_live j.status ≡ true
    → 1 ≤ j.max_attempts
    → j.attempt ≤ j.max_attempts
    → IsDone j.max_attempts
        (run_recovered env is_analysis w attempts aborted (recover env f (listed j)).0)
unfolding recover recover_current IsLive
recover-IsDone env is_analysis w attempts aborted f j saves found idle leased live some_attempt
      within =
    let P : (Run × Result RecoverError Recovery) × Bool → Type 0 =
      λ s. IsDone j.max_attempts (run_recovered env is_analysis w attempts aborted s.0) in
    if_holds P (not (is_live j.status) || f.is_active) _ _ (λ k. ground arith)
      (λ k.
        if_holds P (not f.gets_lease) _ _ (λ k. ground arith)
          (λ k. completed env is_analysis w attempts aborted j.max_attempts _ saves (
            subst
              (λ (o : Option Job). Completes j.max_attempts (recover_current env f o (listed j)))
              (sym found)
              (if_holds (Completes j.max_attempts) (is_live j.status) _ _
                (λ k.
                  recover_live-Completes env saves f j.max_attempts some_attempt (listed j)
                    (not_ended j.status live, within, refl))
                (λ k. cc)))))
