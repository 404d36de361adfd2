-- ===== src/Execution/Activated.antt =====
-- A recovery of src/orchestrator.ts activates a Job only from a new attempt on.
use agentknot.Common.{
  Bool, Option, Result, arith, err, false, ltb, none, not, ok, refl, some, subst, sym, ℕ, ◌+◌, ◌<◌,
  ◌==◌, ◌||◌, ◌≡◌, ◌≤◌,
}
use agentknot.Execution.Attempts.{record_attempt_usage}
use agentknot.Execution.ControlTypes.{owner_lost}
use agentknot.Execution.EmitRule.{Ends, after_rule, ends}
use agentknot.Execution.Log.{
  Env, EventType, Job, Run, SaveError, Status, Step, attempt_lost, cancelled, failed, has_failed,
  is_truncation, is_worker, recovery_started, was_cancelled,
}
use agentknot.Execution.Recovery.{
  Found, RecoverError, Recovery, activate_recovered, activates, after_lost, called_back,
  deliver_callback, fail_recovered, is_live, kept_as_is, not_claimed, note_lost, recover,
  recover_by_status, recover_current, recover_live, recover_queued, recover_running, saved_callback,
  settle_recovered, settled_now, start_recovered, then_recover,
}
use agentknot.Execution.RecoveryLaws.{
  IsReserved, Saved, emit-IsReserved, emit-Saved, if_holds, listed, mark_pending_lost_does,
  renumbered,
}
use agentknot.Execution.Rounds.{is_queued}

-- If the recovery activates the Job, its first attempt comes after `attempt`, is one of its attempts,
-- and is in memory and in the store. No recovery takes an attempt back.
unfoldable pub Activated : ℕ → ℕ → Run × Result RecoverError Recovery → Type 0
Activated attempt most (r, ok (activates n)) = (attempt < n) × (n ≤ most) × IsReserved n most r
Activated attempt most (r, ok not_claimed) = IsReserved attempt most r
Activated attempt most (r, ok kept_as_is) = IsReserved attempt most r
Activated attempt most (r, ok settled_now) = IsReserved attempt most r
Activated attempt most (r, err e) = IsReserved attempt most r

module _ (env : Env) (f : Found) (attempt most : ℕ) where
  then-Activated :
      (s : Step (Unit {0})) (next : Run → Run × Result RecoverError Recovery)
      → Ends (IsReserved attempt most) s
      → ((r : Run) → IsReserved attempt most r → Activated attempt most (next r))
      → Activated attempt most (then_recover s next)
  unfolding then_recover Activated
  then-Activated (r, ok done) next (ends holds) step = step r holds
  then-Activated (r, err e) next (ends holds) step = holds

  noted :
      (r r' : Run)
      → r.job.max_attempts ≡ r'.job.max_attempts
      → r.stored ≡ r'.stored
      → r.job.attempt ≡ r'.job.attempt
      → IsReserved attempt most r
      → IsReserved attempt most r'
  noted r r' most_same stored same kept =
      renumbered attempt most r r' most_same stored
        (subst (λ (n : ℕ). attempt ≤ n) same kept.in_memory) kept

  saved_callback-Activated :
      (o : Option SaveError) (r : Run)
      → IsReserved attempt most r
      → Activated attempt most (saved_callback r o)
  unfolding saved_callback Activated
  saved_callback-Activated none r kept = record {
    in_memory = kept.in_memory;
    in_store = kept.in_memory;
    of_job = kept.of_job;
    of_stored = kept.of_job;
  }
  saved_callback-Activated (some e) r kept = noted r _ refl refl refl kept

  deliver_callback-Activated :
      (r : Run)
      → IsReserved attempt most r
      → Activated attempt most (deliver_callback env f.has_callback r)
  unfolding deliver_callback Activated
  deliver_callback-Activated r kept =
      if_holds (Activated attempt most) f.has_callback
        (saved_callback (called_back env r) (env.save r.calls)) (r, ok settled_now)
        (λ k. saved_callback-Activated _ (called_back env r) (noted r _ refl refl refl kept))
        (λ k. kept)

  settle_recovered-Activated :
      (status : Status) (type : EventType) (r : Run)
      → is_truncation type ≡ false
      → IsReserved attempt most r
      → Activated attempt most (settle_recovered env f status type r)
  unfolding settle_recovered
  settle_recovered-Activated status type r plain kept =
      then-Activated _ (deliver_callback env f.has_callback)
        (emit-IsReserved env attempt most type _ plain (noted r _ refl refl refl kept))
        deliver_callback-Activated

  fail_recovered-Activated :
      (r : Run) → IsReserved attempt most r → Activated attempt most (fail_recovered env f r)
  unfolding is_truncation
  fail_recovered-Activated r kept = settle_recovered-Activated has_failed failed r refl kept

  reserved :
      (start : ℕ) (r : Run) (s : Step (Unit {0}))
      → attempt < start
      → start ≤ most
      → r.job.attempt ≡ start
      → r.job.max_attempts ≡ most
      → Saved r s
      → Ends (IsReserved attempt most) s
      → Activated attempt most (then_recover s (activate_recovered start))
  unfolding then_recover activate_recovered Activated Saved
  reserved start r (r', err e) later within a m saved (ends kept) = kept
  reserved start r (r', ok done) later within a m (stored, same, most_same) (ends kept) = (
    later,
    within,
    record {
      in_memory = ground (arith, a, same);
      in_store = ground (arith, a, same, stored);
      of_job = kept.of_job;
      of_stored = kept.of_stored;
    },
  )

  start_recovered-Activated :
      (start : ℕ) (r : Run)
      → attempt < start
      → start ≤ most
      → IsReserved attempt most r
      → Activated attempt most (start_recovered env f start r)
  unfolding start_recovered is_worker is_truncation
  start_recovered-Activated start r later within kept =
      if_holds (Activated attempt most) _ _ _ (λ k. fail_recovered-Activated r kept)
        (λ k.
          reserved start (record r { job = record r.job { attempt = start } }) _ later within refl
            kept.of_job (emit-Saved env recovery_started _ refl)
            (emit-IsReserved env attempt most recovery_started _ refl
              (renumbered attempt most r _ refl refl (omega (arith, later)) kept)))

  after_lost-Activated :
      (r : Run) → IsReserved attempt most r → Activated attempt most (after_lost env f r)
  unfolding after_lost
  after_lost-Activated r kept =
      let low = kept.in_memory in
      let m = kept.of_job in
      if_holds (Activated attempt most) (ltb r.job.attempt r.job.max_attempts) _ _
        (λ less.
          start_recovered-Activated (r.job.attempt + 1) r (omega (arith, low))
            (ground (arith, m, less)) kept)
        (λ k. fail_recovered-Activated r kept)

  recover_by_status-Activated :
      1 ≤ most
      → (r : Run) → IsReserved attempt most r
      → Activated attempt most (recover_by_status env f r)
  unfolding recover_by_status recover_queued recover_running is_truncation
  recover_by_status-Activated some_attempt r kept =
      let low = kept.in_memory in
      if_holds (Activated attempt most) f.is_cancelled _ _
        (λ k. settle_recovered-Activated was_cancelled cancelled r refl kept)
        (λ k.
          if_holds (Activated attempt most) (is_queued r.job.status) _ _
            (λ q.
              if_holds (Activated attempt most) (r.job.attempt == 0) _ _
                (λ zero_yet.
                  start_recovered-Activated 1 r (ground (arith, low, zero_yet)) some_attempt kept)
                (λ k. fail_recovered-Activated r kept))
            (λ q.
              then-Activated _ (after_lost env f)
                (emit-IsReserved env attempt most attempt_lost _ refl
                  (noted r _ refl refl refl kept))
                after_lost-Activated))

  recover_live-Activated :
      1 ≤ most
      → (r : Run) → IsReserved attempt most r
      → Activated attempt most (recover_live env f r)
  unfolding recover_live note_lost record_attempt_usage
  recover_live-Activated some_attempt r kept =
      if_holds (Activated attempt most) (is_queued r.job.status) _ _
        (λ k. recover_by_status-Activated some_attempt r kept)
        (λ k.
          then-Activated _ (note_lost env f)
            (mark_pending_lost_does env (IsReserved attempt most) (Ends (IsReserved attempt most))
              (λ r k. ends k) (after_rule (IsReserved attempt most))
              (emit-IsReserved env attempt most) r.job.attempt owner_lost r kept)
            (λ x k. recover_by_status-Activated some_attempt _ (noted x _ refl refl refl k)))

-- A recovery of a stored Job that activates it does so from an attempt on that comes after the stored
-- one and is one of its attempts, and has stored that attempt.
pub recover-Activated :
    (env : Env) (f : Found) (j : Job)
    → f.current ≡ some j
    → 1 ≤ j.max_attempts
    → Activated j.attempt j.max_attempts (recover env f (listed j)).0
unfolding recover recover_current Activated
recover-Activated env f j found some_attempt =
    let kept : IsReserved j.attempt j.max_attempts (listed j) = record {
      in_memory = omega arith;
      in_store = omega arith;
      of_job = refl;
      of_stored = refl;
    } in
    let P : (Run × Result RecoverError Recovery) × Bool → Type 0 =
      λ s. Activated j.attempt j.max_attempts s.0 in
    if_holds P (not (is_live j.status) || f.is_active) _ _ (λ k. kept)
      (λ k.
        if_holds P (not f.gets_lease) _ _ (λ k. kept)
          (λ k.
            subst
              (λ (o : Option Job).
                Activated j.attempt j.max_attempts (recover_current env f o (listed j)))
              (sym found)
              (if_holds (Activated j.attempt j.max_attempts) (is_live j.status) _ _
                (λ k. recover_live-Activated env f _ _ some_attempt (listed j) kept) (λ k. kept))))
