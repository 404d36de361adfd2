-- ===== src/Execution/ControlCounts.antt =====
-- How the events of src/orchestrator.ts change the number of the requests in the log.
use agentknot.Common.{
  Bool, List, Option, Option-cases, String, [], arith, count, count-append, err, false, inl, inr,
  ok, refl, sym, text_eq, true, ℕ, ◌+◌, ◌∙◌, ◌∷◌, ◌≡◌, ◌≤◌,
}
use agentknot.Execution.Control.{receive}
use agentknot.Execution.ControlReceipts.{ControlError, requests_id, settling}
use agentknot.Execution.ControlTypes.{
  ControlReason, ControlRequest, ControlStatus, Receipt, accepted, adapter_rejected, lost,
  stale_attempt, unsupported,
}
use agentknot.Execution.EmitRule.{undo_push-push_event}
use agentknot.Execution.Log.{
  Env, Event, EventType, Run, RunError, Step, append_event, append_typed, appended_type, emit,
  is_worker, limit_data, new_event, notify, notify_observer, observer_failed, persist, persisted,
  push_event,
}

abbrev pub of_type : (EventType → Bool) → Run → ℕ
of_type p r = count (λ (e : Event). p e.type) r.job.events

abbrev pub tally : Bool → ℕ
tally true = 1
tally false = 0

-- How `#emit` of one event changes the number of the events with `p`.
abbrev pub Counted : (EventType → Bool) → EventType → Run → Step (Unit {0}) → Type 0
Counted p type r (r', ok done) = of_type p r' ≡ of_type p r + tally (p type)
Counted p type r (r', err e) =
    (of_type p r ≤ of_type p r') × (of_type p r' ≤ of_type p r + tally (p type))

pub emit-Counted :
    (env : Env) (p : EventType → Bool) (type : EventType) (r : Run)
    → p observer_failed ≡ false
    → p (limit_data (env.exceeds type) type) ≡ p type
    → is_worker type ≡ false
    → Counted p type r (emit env type r)
unfolding emit append_event append_typed appended_type persist persisted notify notify_observer
    push_event new_event is_worker limit_data
emit-Counted env p type r quiet kept plain = elim (Option-cases (env.save r.calls)) [
  | inr (e, is) ↦
      let undone =
        undo_push-push_event (limit_data (env.exceeds type) type) (env.now r.calls) r.job in
      ground (arith, is, plain, undone)
  | inl saved ↦
      let at = env.now r.calls in
      let first =
        count-append (λ (e : Event). p e.type) r.job.events
          (new_event (limit_data (env.exceeds type) type) at r.job ∷ []) in
      let j = push_event (limit_data (env.exceeds type) type) at r.job in
      let then_failed = env.now (r.calls + 1) in
      let second =
        count-append (λ (e : Event). p e.type) j.events
          (new_event observer_failed then_failed j ∷ []) in
      elim (Option-cases (env.save (r.calls + 1))) [
        | inl noted ↦ ground (arith, saved, plain, noted, first, second, quiet, kept)
        | inr (e, is) ↦
            let undone = undo_push-push_event observer_failed then_failed j in
            ground (arith, saved, plain, is, first, second, quiet, kept, undone)
      ]
]

abbrev pub times_given : String → List String → ℕ
times_given id given = count (λ (k : String). text_eq k id) given

abbrev pub times_requested : String → Run → ℕ
times_requested id r = of_type (requests_id id) r

pub settling-plain :
    (id : String) (q : ControlRequest) (status : ControlStatus) (reason : Option ControlReason)
    → (requests_id id (settling q status reason) ≡ false)
      × (is_worker (settling q status reason) ≡ false)
unfolding settling requests_id is_worker
settling-plain id q accepted reason = (refl, refl)
settling-plain id q unsupported reason = (refl, refl)
settling-plain id q stale_attempt reason = (refl, refl)
settling-plain id q adapter_rejected reason = (refl, refl)
settling-plain id q lost reason = (refl, refl)

settled_data :
    (b : Bool) (id : String) (q : ControlRequest) (status : ControlStatus)
    (reason : Option ControlReason)
    → requests_id id (limit_data b (settling q status reason)) ≡ false
unfolding settling requests_id limit_data
settled_data b id q accepted reason = ground arith
settled_data b id q unsupported reason = ground arith
settled_data b id q stale_attempt reason = ground arith
settled_data b id q adapter_rejected reason = ground arith
settled_data b id q lost reason = ground arith

same_count :
    (id : String) (type : EventType) (r : Run) (s : Step (Unit {0}))
    → requests_id id type ≡ false
    → Counted (requests_id id) type r s
    → times_requested id s.0 ≡ times_requested id r
same_count id type r (r', ok done) quiet counted = ground (arith, quiet, counted)
same_count id type r (r', err e) quiet counted = ground (arith, quiet, counted)

pub emit-same_count :
    (env : Env) (id : String) (q : ControlRequest) (status : ControlStatus)
    (reason : Option ControlReason) (r : Run)
    → times_requested id (emit env (settling q status reason) r).0 ≡ times_requested id r
unfolding requests_id
emit-same_count env id q status reason r =
    let type = settling q status reason in
    let (quiet, plain) = settling-plain id q status reason in
    same_count id type r (emit env type r) quiet (
      emit-Counted env (requests_id id) type r refl
        (settled_data (env.exceeds type) id q status reason ∙ sym quiet) plain)

pub receive-state :
    (given : List String) (failure : RunError → ControlError) (rc : Receipt) (s : Step (Unit {0}))
    → ((receive given failure rc s).0.run ≡ s.0) × ((receive given failure rc s).0.given ≡ given)
unfolding receive
receive-state given failure rc (run, ok done) = (refl, refl)
receive-state given failure rc (run, err e) = (refl, refl)
