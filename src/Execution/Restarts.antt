-- ===== src/Execution/Restarts.antt =====
-- How often the recoveries of src/orchestrator.ts activate a Job again.
use agentknot.Common.{Bool, Result, arith, err, ok, some, subst, suc, ℕ, ◌-◌, ◌≡◌, ◌≤◌}
use agentknot.Execution.Activated.{Activated, recover-Activated}
use agentknot.Execution.Attempts.{Attempt}
use agentknot.Execution.EmitRule.{ended}
use agentknot.Execution.Log.{Env, Job, Run}
use agentknot.Execution.Recovery.{
  Found, RecoverError, Recovery, activates, kept_as_is, not_claimed, recover, settled_now,
}
use agentknot.Execution.RecoveryLaws.{IsReserved, emit-IsReserved, listed, renumbered}
use agentknot.Execution.Rounds.{Waiting, activate}
use agentknot.Execution.Rule.{activate_rule}

-- `Restarts k j`: from the stored Job `j` on, recoveries activate it `k` times. A recovery may end in
-- any way, and so may the execution that it activates. A process that stops at some call is one whose
-- saves fail from that call on. The next recovery finds what is then in the store.
pub data Restarts : ℕ → Job → Type 0 where
  no_more : (j : Job) → Restarts 0 j
  not_activated :
      (env : Env) (f : Found) (j : Job) (k : ℕ)
      → f.current ≡ some j
      → Restarts k (recover env f (listed j)).0.0.stored
      → Restarts k j
  activated :
      (env : Env) (f : Found) (j : Job) (k n : ℕ) (r : Run)
      → f.current ≡ some j
      → (recover env f (listed j)).0 ≡ (r, ok (activates n))
      → (env' : Env) (is_analysis : Bool) (w : Waiting) (attempts : ℕ → Attempt) (aborted : Bool)
      → Restarts k (activate env' is_analysis w attempts aborted n r).0.stored
      → Restarts (suc k) j

activate-IsReserved :
    (env : Env) (is_analysis : Bool) (w : Waiting) (attempts : ℕ → Attempt) (aborted : Bool)
    (n most : ℕ) (r : Run)
    → IsReserved n most r
    → IsReserved n most (activate env is_analysis w attempts aborted n r).0
activate-IsReserved env is_analysis w attempts aborted n most r kept = ended (
    activate_rule env n (IsReserved n most) (λ r k. k.in_memory)
      (λ r r' events stored same later k. renumbered n most r r' same stored later k)
      (emit-IsReserved env n most) is_analysis w attempts aborted n r (omega arith) kept)

-- However a recovery ends, the stored attempt does not go back.
kept :
    (attempt most : ℕ) (s : Run × Result RecoverError Recovery)
    → Activated attempt most s
    → IsReserved attempt most s.0
unfolding Activated
kept attempt most (r, ok (activates n)) (later, within, k) =
    let low = k.in_memory in
    let stored_low = k.in_store in
    record {
      in_memory = omega (arith, low, later);
      in_store = omega (arith, stored_low, later);
      of_job = k.of_job;
      of_stored = k.of_stored;
    }
kept attempt most (r, ok not_claimed) k = k
kept attempt most (r, ok kept_as_is) k = k
kept attempt most (r, ok settled_now) k = k
kept attempt most (r, err e) k = k

-- From a stored Job on, its recoveries activate it no more often than it has attempts left, however
-- they and the executions end, at failing saves included. The Job may have at least one attempt.
pub restarts_bound :
    (k : ℕ) (j : Job) → 1 ≤ j.max_attempts → Restarts k j → k ≤ j.max_attempts - j.attempt
unfolding Activated
restarts_bound _ _ some_attempt (no_more j) = omega arith
restarts_bound _ _ some_attempt (not_activated env f j k found rest) =
    let after = kept _ _ _ (recover-Activated env f j found some_attempt) in
    let low = after.in_store in
    let same = after.of_stored in
    let most = restarts_bound k _ (ground (arith, same, some_attempt)) rest in
    omega (arith, low, same, most)
restarts_bound _ _ some_attempt
      (activated env f j k n r found is env' is_analysis w attempts aborted rest) =
    let (later, within, reserved) =
      subst (Activated j.attempt j.max_attempts) is
        (recover-Activated env f j found some_attempt) in
    let after = activate-IsReserved env' is_analysis w attempts aborted n _ r reserved in
    let low = after.in_store in
    let same = after.of_stored in
    let most = restarts_bound k _ (ground (arith, same, some_attempt)) rest in
    omega (arith, low, same, most, later, within)
