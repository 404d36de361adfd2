-- ===== src/Execution/Bounds.antt =====
-- How many events of a worker an execution of src/orchestrator.ts keeps.
use agentknot.Common.{
  Bool, Bool-cases, List, [], any, any-false, ap, arith, count, count-append, false, if◌then◌else◌,
  inl, inr, leb, length, some, subst, true, ℕ, ◌&&◌, ◌+◌, ◌<◌, ◌∷◌, ◌≡◌, ◌≤◌,
}
use agentknot.Execution.Attempts.{Attempt}
use agentknot.Execution.EmitRule.{emit_rule, ended, limit_data-is_truncation, limit_data-is_worker}
use agentknot.Execution.Log.{
  Env, Event, EventType, Job, Run, appended_type, is_truncation, is_worker, limit_data,
  max_worker_events, push_event, truncations, worker_events,
}
use agentknot.Execution.Rounds.{Waiting, activate}
use agentknot.Execution.Rule.{activate_rule}

unfoldable pub IsBounded : Run → Type 0
IsBounded r = (worker_events r.job.events ≤ max_worker_events) × (truncations r.job.events ≤ 1)

IsBounded-changes :
    (r r' : Run) → r.job.events ≡ r'.job.events → r.stored ≡ r'.stored → IsBounded r → IsBounded r'
unfolding IsBounded
IsBounded-changes r r' events stored bounded = (
  subst (λ es. worker_events es ≤ 512) events bounded.0,
  subst (λ es. truncations es ≤ 1) events bounded.1,
)

-- What `appended_type` leaves room for.
room :
    (es : List Event) (type t : EventType)
    → is_truncation type ≡ false
    → appended_type es type ≡ some t
    → (is_worker t ≡ true → worker_events es < 512)
      × (is_truncation t ≡ true → any (λ e. is_truncation e.type) es ≡ false)
unfolding appended_type is_worker is_truncation
room es type t h appended =
    elim (Bool-cases (is_worker type && leb max_worker_events (worker_events es))) [
      | inl full ↦ elim (Bool-cases (any (λ e. is_truncation e.type) es)) [
        | inl e ↦ ground arith
        | inr e ↦ ground arith
      ]
      | inr spare ↦ (λ is. ground arith, λ is. ground arith)
    ]

count-push_event :
    (p : EventType → Bool) (t : EventType) (at : ℕ) (j : Job)
    → count (λ e. p e.type) (push_event t at j).events
      ≡ count (λ e. p e.type) j.events + (if p t then 1 else 0)
unfolding push_event
count-push_event p t at j =
    let pushed =
      count-append (λ e. p e.type) j.events
        (record { sequence = length j.events + 1; at = at; type = t } ∷ []) in
    ground (arith, pushed)

IsBounded-push_event :
    (over : EventType → Bool) (type t : EventType) (at : ℕ) (r : Run)
    → is_truncation type ≡ false
    → appended_type r.job.events type ≡ some t
    → IsBounded r
    → IsBounded (record {
      job = push_event (limit_data (over t) t) at r.job;
      calls = r.calls + 1;
      stored = push_event (limit_data (over t) t) at r.job;
    })
unfolding IsBounded
IsBounded-push_event over type t at r h appended bounded =
    let workers = count-push_event is_worker (limit_data (over t) t) at r.job in
    let truncated = count-push_event is_truncation (limit_data (over t) t) at r.job in
    let of_worker = limit_data-is_worker (over t) t in
    let of_truncation = limit_data-is_truncation (over t) t in
    let untruncated = any-false (λ e. is_truncation e.type) r.job.events in
    let (few, once) = room r.job.events type t h appended in
    (
      ground (arith, workers, of_worker, few),
      ground (arith, truncated, of_truncation, untruncated, once),
    )

-- From a log that keeps at most 512 events of workers and at most one event that says that some were
-- dropped, an execution comes to such a log, whatever the store, the workers and the observer do.
pub activate-IsBounded :
    (env : Env) (is_analysis : Bool) (w : Waiting) (attempts : ℕ → Attempt) (aborted : Bool)
    (start : ℕ) (r : Run)
    → IsBounded r
    → IsBounded (activate env is_analysis w attempts aborted start r).0
activate-IsBounded env is_analysis w attempts aborted start r bounded =
    let emits =
      emit_rule env IsBounded (λ r r' j. IsBounded-changes r r' (ap (λ (k : Job). k.events) j))
        (IsBounded-push_event env.exceeds) in
    ended (
      activate_rule env 0 IsBounded (λ r k. omega arith)
        (λ r r' e s m l. IsBounded-changes r r' e s) emits is_analysis w attempts aborted start r
        (omega arith) bounded)
