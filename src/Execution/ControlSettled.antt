-- ===== src/Execution/ControlSettled.antt =====
-- `#markPendingControlsLost` of src/orchestrator.ts leaves no control of the attempt open.
use agentknot.Common.{
  Bool, List, [], arith, false, if◌then◌else◌, keep, length, ok, refl, some, subst, true, ℕ, ◌∷◌,
  ◌≡◌,
}
use agentknot.Execution.ControlLoss.{mark_pending_lost, request_of, requests_in}
use agentknot.Execution.ControlMarks.{
  AreSettled, KeepsLost, MarksAll, are_known, mark_each-MarksAll,
}
use agentknot.Execution.ControlTypes.{ControlReason, ControlRequest}
use agentknot.Execution.Log.{Env, Event, EventType, Run, Step}

requests_in_of :
    (attempt : ℕ) (type : EventType) (q : ControlRequest)
    → request_of type ≡ some q
    → q.attempt ≡ attempt
    → requests_in attempt type ≡ true
unfolding request_of requests_in
requests_in_of attempt type q is same = ground (arith, is, same)

are_known-keep :
    (n : ℕ) (p : Event → Bool) (es : List Event)
    → are_known n es ≡ true
    → are_known n (keep p es) ≡ true
are_known-keep n p [] known = refl
are_known-keep n p (e ∷ es) known = ground (arith, known, are_known-keep n p es)

of_kept :
    (attempt : ℕ) (r : Run) (e : Event) (es rest : List Event) (test : Bool)
    → requests_in attempt e.type ≡ test
    → AreSettled attempt r (if test then e ∷ rest else rest)
    → (AreSettled attempt r rest → AreSettled attempt r es)
    → AreSettled attempt r (e ∷ es)
of_kept attempt r e es rest true is (settled, others) go_on = (settled, go_on others)
of_kept attempt r e es rest false is others go_on = (
  (λ q so same. absurd (ground (arith, is, requests_in_of attempt e.type q so same))),
  go_on others,
)

keep-AreSettled :
    (attempt : ℕ) (r : Run) (es : List Event)
    → AreSettled attempt r (keep (λ (e : Event). requests_in attempt e.type) es)
    → AreSettled attempt r es
keep-AreSettled attempt r [] settled = tt
keep-AreSettled attempt r (e ∷ es) settled =
    of_kept attempt r e es (keep (λ (x : Event). requests_in attempt x.type) es)
      (requests_in attempt e.type) refl settled (keep-AreSettled attempt r es)

module _ (env : Env) (reason : ControlReason) (keeps : KeepsLost env) where
  -- When the controls of an attempt have been given up without an error, each of its requests whose
  -- data the log has kept has an event further on in the log that settles it, if the events are
  -- numbered within the log and the data of the events that settle them is within the limit.
  pub mark_pending_lost-AreSettled :
      (attempt : ℕ) (r r' : Run) (done : Unit {0})
      → are_known (length r.job.events) r.job.events ≡ true
      → mark_pending_lost env attempt reason r ≡ (r', ok done)
      → AreSettled attempt r' r.job.events
  unfolding mark_pending_lost
  mark_pending_lost-AreSettled attempt r r' done known h =
      let kept = keep (λ (e : Event). requests_in attempt e.type) r.job.events in
      let marks =
        mark_each-MarksAll env reason keeps attempt kept r
          (are_known-keep (length r.job.events) _ r.job.events known) in
      keep-AreSettled attempt r' r.job.events
        (subst (λ (s : Step (Unit {0})). MarksAll env reason keeps attempt kept r s) h marks).0
