-- ===== src/Execution/LogLaws.antt =====
-- What an execution of src/orchestrator.ts makes of the log of its Job.
use mathlib.Core.List.{append-nil, append_assoc}
use agentknot.Common.{
  Bool, List, [], ap, arith, length, refl, subst, sym, ℕ, ◌++◌, ◌+◌, ◌∙◌, ◌∷◌, ◌≡◌,
}
use agentknot.Execution.Attempts.{Attempt}
use agentknot.Execution.EmitRule.{emit_rule, ended}
use agentknot.Execution.Log.{Env, Event, EventType, Job, Run, new_event, push_event}
use agentknot.Execution.Rounds.{Waiting, activate}
use agentknot.Execution.Rule.{activate_rule}

-- The events carry the numbers after `n`, in order.
unfoldable pub Numbered : ℕ → List Event → Type 0
Numbered n [] = Unit {0}
Numbered n (e ∷ es) = (e.sequence ≡ n + 1) × Numbered (n + 1) es

Numbered-append :
    (n : ℕ) (es : List Event) (e : Event)
    → Numbered n es
    → e.sequence ≡ n + length es + 1
    → Numbered n (es ++ e ∷ [])
unfolding Numbered
Numbered-append n [] e numbered h = (omega arith, tt)
Numbered-append n (x ∷ es) e numbered h =
    (numbered.0, Numbered-append (n + 1) es e numbered.1 (omega arith))

-- The log is numbered from 1 on, and the store holds the same.
unfoldable pub IsLogged : Run → Type 0
IsLogged r = Numbered 0 r.job.events × (r.job.events ≡ r.stored.events)

IsLogged-changes :
    (r r' : Run) → r.job.events ≡ r'.job.events → r.stored ≡ r'.stored → IsLogged r → IsLogged r'
unfolding IsLogged
IsLogged-changes r r' events stored logged = (subst (Numbered 0) events logged.0, cc)

IsLogged-push_event :
    (t : EventType) (at : ℕ) (r : Run)
    → IsLogged r
    → IsLogged (record {
      job = push_event t at r.job;
      calls = r.calls + 1;
      stored = push_event t at r.job;
    })
unfolding IsLogged push_event
IsLogged-push_event t at r logged = (Numbered-append 0 r.job.events _ logged.0 (omega arith), refl)

-- From a log whose events are numbered from 1 on, with the same events in the store, an execution
-- comes to such a log, whatever the store, the workers and the observer do.
pub activate-IsLogged :
    (env : Env) (is_analysis : Bool) (w : Waiting) (attempts : ℕ → Attempt) (aborted : Bool)
    (start : ℕ) (r : Run)
    → IsLogged r
    → IsLogged (activate env is_analysis w attempts aborted start r).0
activate-IsLogged env is_analysis w attempts aborted start r logged =
    let emits =
      emit_rule env IsLogged (λ r r' j. IsLogged-changes r r' (ap (λ (k : Job). k.events) j))
        (λ type t at r h e logged. IsLogged-push_event _ at r logged) in
    ended (
      activate_rule env 0 IsLogged (λ r k. omega arith) (λ r r' e s m l. IsLogged-changes r r' e s)
        emits is_analysis w attempts aborted start r (omega arith) logged)

unfoldable Extends : List Event → Run → Type 0
Extends old r = (new : List Event) × (r.job.events ≡ old ++ new)

Extends-changes :
    (old : List Event) (r r' : Run)
    → r.job.events ≡ r'.job.events
    → r.stored ≡ r'.stored
    → Extends old r
    → Extends old r'
unfolding Extends
Extends-changes old r r' events stored (new, e) = (new, sym events ∙ e)

Extends-push_event :
    (old : List Event) (t : EventType) (at : ℕ) (r : Run)
    → Extends old r
    → Extends old (record {
      job = push_event t at r.job;
      calls = r.calls + 1;
      stored = push_event t at r.job;
    })
unfolding Extends push_event new_event
Extends-push_event old t at r (new, e) =
    let last = new_event t at r.job ∷ [] in
    (new ++ last, ap (λ es. es ++ last) e ∙ append_assoc old new last)

-- An execution takes no event away: the log that it comes to goes on from the one that it finds.
pub activate_extends :
    (env : Env) (is_analysis : Bool) (w : Waiting) (attempts : ℕ → Attempt) (aborted : Bool)
    (start : ℕ) (r : Run)
    → (new : List Event) × ((activate env is_analysis w attempts aborted start r).0.job.events
        ≡ r.job.events ++ new)
unfolding Extends
activate_extends env is_analysis w attempts aborted start r =
    let old = Extends r.job.events in
    let changes = Extends-changes r.job.events in
    let emits =
      emit_rule env old (λ r r' j. changes r r' (ap (λ (k : Job). k.events) j))
        (λ type t at r' h e k. Extends-push_event r.job.events _ at r' k) in
    ended (
      activate_rule env 0 old (λ r k. omega arith) (λ r r' e s m l. changes r r' e s) emits
        is_analysis w attempts aborted start r (omega arith) ([], sym (append-nil _)))
