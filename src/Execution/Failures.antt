-- ===== src/Execution/Failures.antt =====
-- What a failing save does to an execution of src/orchestrator.ts.
use agentknot.Common.{some, true, ◌+◌, ◌≡◌}
use agentknot.Execution.Log.{Env, EventType, Run, RunError, SaveError, persistence, phase}
use agentknot.Execution.RoundOutcome.{is_persistence}

-- The event is off the log again, and the error names it.
unfoldable pub IsRolledBack : Env → Run → Run → RunError → Type 0
IsRolledBack env r r' e =
    (r'.job ≡ r.job)
    × (r'.stored ≡ r.stored)
    × (r'.calls ≡ r.calls + 1)
    × ((t : EventType) × (s : SaveError) × (e ≡ persistence (phase t) t s)
        × (env.save r.calls ≡ some s))

-- Every error of `#emit` is one of the store.
abbrev Returned : {A : Type 0} → Run → A → Type 0
Returned r a = Unit {0}

abbrev Thrown : Run → RunError → Type 0
Thrown r e = is_persistence e ≡ true
