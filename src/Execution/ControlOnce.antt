-- ===== src/Execution/ControlOnce.antt =====
-- A worker control reaches its handler at most once: `control` of src/orchestrator.ts.
use agentknot.Common.{
  Bool, Bool-cases, List, Option, String, ap, arith, err, false, find-none, if◌then◌else◌, inl, inr,
  none, ok, refl, some, subst, text_eq, text_eq_iff, true, ℕ, ◌+◌, ◌∙◌, ◌≡◌, ◌≤◌,
}
use agentknot.Execution.Channel.{Part}
use agentknot.Execution.Control.{
  ControlOutcome, after_first, after_second, control, control_by, deliver_control, fresh_control,
  give, is_open_for, known_control, receive, record_lost, record_outcome, settle_untracked,
  try_delivery, visible_events,
}
use agentknot.Execution.ControlCounts.{
  Counted, emit-Counted, emit-same_count, receive-state, tally, times_given, times_requested,
}
use agentknot.Execution.ControlReceipts.{
  Active, ControlError, Controlled, Controls, Moment, find_request, requests_id, same_request,
  settling, uncertain_delivery,
}
use agentknot.Execution.ControlTypes.{
  ControlReason, ControlRequest, ControlStatus, Receipt, delivery_unsettled, lost,
  receipt_persistence_failed,
}
use agentknot.Execution.Log.{
  Env, Event, Run, RunError, Step, control_requested, emit, is_worker, limit_data,
}

-- A handler has been given an id no more often than the log has a request with it, which is at most
-- once.
abbrev pub IsGivenOnce : String → Controls → Type 0
IsGivenOnce id c =
    (times_given id c.given ≤ times_requested id c.run) × (times_requested id c.run ≤ 1)

-- The call leaves `given` and the number of requests in `run`.
Leaves : String → List String → Run → Controls → Type 0
Leaves id given run c = (c.given ≡ given) × (times_requested id c.run ≡ times_requested id run)

-- The log keeps the data of each request with the id.
abbrev pub KeepsData : Env → String → Type 0
KeepsData env id =
    (q : ControlRequest) → q.control_id ≡ id → env.exceeds (control_requested q) ≡ false

kept_id :
    (env : Env) (id : String) (q : ControlRequest)
    → KeepsData env id
    → requests_id id (limit_data (env.exceeds (control_requested q)) (control_requested q))
      ≡ requests_id id (control_requested q)
unfolding requests_id limit_data
kept_id env id q keeps = elim (Bool-cases (text_eq q.control_id id)) [
  | inl is ↦ let small = keeps q ((text_eq_iff q.control_id id).0 is) in ground (arith, is, small)
  | inr other ↦ ground (arith, other)
]

module _ (env : Env) (id : String) (keeps : KeepsData env id) where
  emits-Leaves :
      (q : ControlRequest) (status : ControlStatus) (reason : Option ControlReason)
      (given : List String) (failure : RunError → ControlError) (rc : Receipt) (run : Run)
      → Leaves id given run (receive given failure rc (emit env (settling q status reason) run)).0
  unfolding Leaves
  emits-Leaves q status reason given failure rc run =
      let type = settling q status reason in
      let (one, two) = receive-state given failure rc (emit env type run) in
      (two, ap (times_requested id) one ∙ emit-same_count env id q status reason run)

  if-Leaves :
      (test : Bool) (given : List String) (run : Run) (x y : Controlled)
      → Leaves id given run x.0
      → Leaves id given run y.0
      → Leaves id given run (if test then x else y).0
  if-Leaves true given run x y left right = left
  if-Leaves false given run x y left right = right

  after_second-Leaves :
      (q : ControlRequest) (requested settled : ℕ) (given : List String) (o : ControlOutcome)
      (s : Step (Unit {0}))
      → Leaves id given s.0 (after_second env q requested settled given o s).0
  unfolding after_second record_lost
  after_second-Leaves q requested settled given o (run, ok done) = unfold Leaves in (refl, refl)
  after_second-Leaves q requested settled given o (run, err e) =
      if-Leaves o.delivered given run _ _
        (emits-Leaves q lost (some receipt_persistence_failed) given uncertain_delivery _ run)
        (unfold Leaves in (refl, refl))

  record_outcome-Leaves :
      (q : ControlRequest) (requested : ℕ) (given : List String) (run : Run) (o : ControlOutcome)
      → Leaves id (give q o.delivered given) run (record_outcome env q requested given run (ok o)).0
  unfolding record_outcome Leaves
  record_outcome-Leaves q requested given run o =
      let type = settling q o.status o.reason in
      let (one, two) =
        after_second-Leaves q requested (env.now run.calls) (give q o.delivered given) o
          (emit env type run) in
      (one, two ∙ emit-same_count env id q o.status o.reason run)

  times_given-give :
      (q : ControlRequest) (delivered : Bool) (given : List String)
      → times_given id (give q delivered given)
        ≤ times_given id given + tally (text_eq q.control_id id)
  unfolding give
  times_given-give q true given = ground arith
  times_given-give q false given = omega arith

  -- A delivery gives the handler the id of the request, once.
  record_outcome-IsGivenOnce :
      (q : ControlRequest) (requested : ℕ) (given : List String) (run : Run)
      (o : Part ControlOutcome)
      → times_given id given + tally (text_eq q.control_id id) ≤ times_requested id run
      → times_requested id run ≤ 1
      → IsGivenOnce id (record_outcome env q requested given run o).0
  unfolding Leaves
  record_outcome-IsGivenOnce q requested given run (err e) fewer once =
      unfold record_outcome in (ground arith, once)
  record_outcome-IsGivenOnce q requested given run (ok o) fewer once =
      let (one, two) = record_outcome-Leaves q requested given run o in
      let most = times_given-give q o.delivered given in
      (ground (arith, one, two, most, fewer), ground (arith, two, once))

  after_first-IsGivenOnce :
      (active : Active) (q : ControlRequest) (m : Moment) (requested : ℕ) (c : Controls)
      (s : Step (Unit {0}))
      → IsGivenOnce id c
      → times_requested id c.run + tally (text_eq q.control_id id) ≤ 1
      → Counted (requests_id id) (control_requested q) c.run s
      → IsGivenOnce id (after_first env active q m requested c.given s).0
  unfolding after_first requests_id
  after_first-IsGivenOnce active q m requested c (run, err e) (fewer, once) fresh (more, most) =
      (omega (arith, fewer, more), omega (arith, most, fresh))
  after_first-IsGivenOnce active q m requested c (run, ok done) (fewer, once) fresh counted =
      record_outcome-IsGivenOnce q requested c.given run (try_delivery active q m)
        (omega (arith, fewer, counted)) (omega (arith, counted, fresh))

  deliver_control-IsGivenOnce :
      (active : Active) (q : ControlRequest) (m : Moment) (c : Controls)
      → IsGivenOnce id c
      → times_requested id c.run + tally (text_eq q.control_id id) ≤ 1
      → IsGivenOnce id (deliver_control env active q m c).0
  unfolding deliver_control requests_id is_worker
  deliver_control-IsGivenOnce active q m c once fresh =
      after_first-IsGivenOnce active q m (env.now c.run.calls) c _ once fresh (
        emit-Counted env (requests_id id) (control_requested q) c.run refl (kept_id env id q keeps)
          refl)

  if-IsGivenOnce :
      (test : Bool) (x y : Controlled)
      → IsGivenOnce id x.0
      → IsGivenOnce id y.0
      → IsGivenOnce id (if test then x else y).0
  if-IsGivenOnce true x y left right = left
  if-IsGivenOnce false x y left right = right

  Leaves-IsGivenOnce :
      (c c' : Controls) → Leaves id c.given c.run c' → IsGivenOnce id c → IsGivenOnce id c'
  unfolding Leaves
  Leaves-IsGivenOnce c c' (one, two) (fewer, once) =
      (ground (arith, one, two, fewer), ground (arith, two, once))

  known_control-IsGivenOnce :
      (active : Option Active) (q : ControlRequest) (requested : Event) (o : Option Event)
      (c : Controls)
      → IsGivenOnce id c
      → IsGivenOnce id (known_control env active q requested o c).0
  unfolding known_control settle_untracked
  known_control-IsGivenOnce active q requested (some settled) c once = once
  known_control-IsGivenOnce active q requested none c once =
      if-IsGivenOnce (is_open_for q.attempt active) _ _
        (Leaves-IsGivenOnce c _
          (emits-Leaves q lost (some delivery_unsettled) c.given uncertain_delivery _ c.run) once)
        once

  unrequested :
      (q : ControlRequest) (c : Controls)
      → find_request q.control_id c.run.job.events ≡ none
      → IsGivenOnce id c
      → times_requested id c.run + tally (text_eq q.control_id id) ≤ 1
  unfolding find_request
  unrequested q c absent once = elim (Bool-cases (text_eq q.control_id id)) [
    | inl is ↦
        let zero =
          find-none (λ (e : Event). requests_id q.control_id e.type) c.run.job.events absent in
        let same = (text_eq_iff q.control_id id).0 is in
        let free : times_requested id c.run ≡ 0 =
          subst (λ (k : String). times_requested k c.run ≡ 0) same zero in
        ground (arith, is, free)
    | inr other ↦ ground (arith, other, once.1)
  ]

  fresh_control-IsGivenOnce :
      (active : Option Active) (q : ControlRequest) (m : Moment) (c : Controls)
      → find_request q.control_id (visible_events active c.run) ≡ none
      → IsGivenOnce id c
      → IsGivenOnce id (fresh_control env active q m c).0
  unfolding fresh_control visible_events
  fresh_control-IsGivenOnce none q m c absent once = once
  fresh_control-IsGivenOnce (some active) q m c absent once =
      if-IsGivenOnce active.is_closing _ _ once
        (deliver_control-IsGivenOnce active q m c once (unrequested q c absent once))

  control_by-IsGivenOnce :
      (active : Option Active) (q : ControlRequest) (m : Moment) (o : Option Event) (c : Controls)
      → find_request q.control_id (visible_events active c.run) ≡ o
      → IsGivenOnce id c
      → IsGivenOnce id (control_by env active q m (visible_events active c.run) o c).0
  unfolding control_by
  control_by-IsGivenOnce active q m none c is once = fresh_control-IsGivenOnce active q m c is once
  control_by-IsGivenOnce active q m (some requested) c is once =
      if-IsGivenOnce (same_request q requested.type) _ _
        (known_control-IsGivenOnce active q requested _ c once) once

  pub control-IsGivenOnce :
      (active : Option Active) (q : ControlRequest) (m : Moment) (c : Controls)
      → IsGivenOnce id c
      → IsGivenOnce id (control env active q m c).0
  unfolding control
  control-IsGivenOnce active q m c once = control_by-IsGivenOnce active q m _ c refl once
