-- ===== src/Execution/ControlHistory.antt =====
-- Worker controls of one Job one after another, for src/orchestrator.ts.
use agentknot.Common.{
  List, Option, String, [], arith, err, none, ok, refl, some, ℕ, ◌∙◌, ◌∷◌, ◌≡◌, ◌≤◌,
}
use agentknot.Execution.Control.{control}
use agentknot.Execution.ControlCounts.{emit-same_count, times_given, times_requested}
use agentknot.Execution.ControlLoss.{
  mark_each, mark_lost, mark_pending_lost, mark_unsettled, request_of,
}
use agentknot.Execution.ControlOnce.{IsGivenOnce, KeepsData, control-IsGivenOnce}
use agentknot.Execution.ControlReceipts.{Active, Controls, Moment}
use agentknot.Execution.ControlTypes.{ControlReason, ControlRequest, lost}
use agentknot.Execution.Log.{Env, Event, Run, Step, after}

module _ (env : Env) where
  mark_unsettled-same_count :
      (id : String) (reason : ControlReason) (q : ControlRequest) (o : Option Event) (run : Run)
      → times_requested id (mark_unsettled env reason q o run).0 ≡ times_requested id run
  unfolding mark_unsettled
  mark_unsettled-same_count id reason q (some settled) run = refl
  mark_unsettled-same_count id reason q none run = emit-same_count env id q lost (some reason) run

  mark_lost-same_count :
      (id : String) (reason : ControlReason) (o : Option ControlRequest) (sequence : ℕ) (run : Run)
      → times_requested id (mark_lost env reason o sequence run).0 ≡ times_requested id run
  unfolding mark_lost
  mark_lost-same_count id reason none sequence run = refl
  mark_lost-same_count id reason (some q) sequence run = mark_unsettled-same_count id reason q _ run

  -- A step that leaves the number of the requests.
  data KeepsCount (id : String) (run : Run) (s : Step (Unit {0})) : Type 0 where
    keeps_count : times_requested id s.0 ≡ times_requested id run → KeepsCount id run s

  after-KeepsCount :
      (id : String) (run : Run) (s : Step (Unit {0})) (next : Run → Unit {0} → Step (Unit {0}))
      → KeepsCount id run s
      → ((r : Run) → (a : Unit {0}) → KeepsCount id r (next r a))
      → KeepsCount id run (after s next)
  after-KeepsCount id run (r, err e) next (keeps_count same) step = keeps_count same
  after-KeepsCount id run (r, ok a) next (keeps_count same) step = elim (step r a) [
    | keeps_count then_same ↦ keeps_count (then_same ∙ same)
  ]

  mark_each-KeepsCount :
      (id : String) (reason : ControlReason) (es : List Event) (run : Run)
      → KeepsCount id run (mark_each env reason es run)
  unfolding mark_each
  mark_each-KeepsCount id reason [] run = keeps_count refl
  mark_each-KeepsCount id reason (e ∷ es) run =
      after-KeepsCount id run (mark_lost env reason (request_of e.type) e.sequence run) _
        (keeps_count (mark_lost-same_count id reason (request_of e.type) e.sequence run))
        (λ r a. mark_each-KeepsCount id reason es r)

  mark_pending_lost-same_count :
      (id : String) (attempt : ℕ) (reason : ControlReason) (run : Run)
      → times_requested id (mark_pending_lost env attempt reason run).0 ≡ times_requested id run
  unfolding mark_pending_lost
  mark_pending_lost-same_count id attempt reason run = elim (mark_each-KeepsCount id reason _ run) [
    | keeps_count same ↦ same
  ]

  -- A call of `control`, the controls of an attempt that are given up, or any other change of the
  -- Job, which adds no request of a control.
  pub data Acts : Controls → Controls → Type 0 where
    controls :
        {c : Controls} (active : Option Active) (q : ControlRequest) (m : Moment)
        → Acts c (control env active q m c).0
    gives_up :
        {c : Controls} (attempt : ℕ) (reason : ControlReason)
        → Acts c (record c { run = (mark_pending_lost env attempt reason c.run).0 })
    proceeds :
        {c : Controls} (run : Run)
        → ((id : String) → times_requested id run ≡ times_requested id c.run)
        → Acts c (record c { run = run })

  pub data History : Controls → Controls → Type 0 where
    stops : {c : Controls} → History c c
    goes_on : {c c' c'' : Controls} → Acts c c' → History c' c'' → History c c''

  Acts-IsGivenOnce :
      (id : String) (c c' : Controls)
      → KeepsData env id
      → Acts c c'
      → IsGivenOnce id c
      → IsGivenOnce id c'
  Acts-IsGivenOnce id c c' keeps (controls active q m) once =
      control-IsGivenOnce env id keeps active q m c once
  Acts-IsGivenOnce id c c' keeps (gives_up attempt reason) (fewer, once) =
      let same = mark_pending_lost-same_count id attempt reason c.run in
      (ground (arith, fewer, same), ground (arith, once, same))
  Acts-IsGivenOnce id c c' keeps (proceeds run same) (fewer, once) =
      let is = same id in (ground (arith, fewer, is), ground (arith, once, is))

  History-IsGivenOnce :
      (id : String) (c c' : Controls)
      → KeepsData env id
      → History c c'
      → IsGivenOnce id c
      → IsGivenOnce id c'
  History-IsGivenOnce id c c' keeps stops once = once
  History-IsGivenOnce id c c' keeps (goes_on {c' = middle} act history) once =
      History-IsGivenOnce id middle c' keeps history (Acts-IsGivenOnce id c middle keeps act once)

  -- However often a control is asked for, by whatever requests, with failing saves and over several
  -- attempts, no handler is given its id a second time, if at the start a handler was given it no
  -- more often than the log has a request with it, and the log has at most one. The data of no request
  -- with the id is over the limit for the data of an event, beyond which the log does not keep it.
  pub given_once :
      (id : String) (c c' : Controls)
      → KeepsData env id
      → History c c'
      → IsGivenOnce id c
      → times_given id c'.given ≤ 1
  given_once id c c' keeps history once =
      let (fewer, requested) = History-IsGivenOnce id c c' keeps history once in
      omega (arith, fewer, requested)
