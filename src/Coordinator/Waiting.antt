-- ===== src/Coordinator/Waiting.antt =====
-- `waitForCapacity` of src/durable-execution.ts.
use agentknot.Common.{
  Bool, List, Result, String, [], err, false, if◌then◌else◌, lookup, none, not, ok, some, text_key,
  true, ℕ, ◌&&◌, ◌+◌, ◌∷◌,
}
use agentknot.Coordinator.Operations.{Coordinator, durable_limit}
use agentknot.Store.Capacity.{CapacityStatus, acquired, try_acquire_capacity, waiting}
use agentknot.Store.Sql.{Database}
use agentknot.Store.Types.{ExecutionLease, StoreError}

-- One round of the loop: whether the signal is aborted before it and in the delay behind it, whether
-- the report that the execution waits throws, the clock, and the database as the round finds it.
pub record Round : Type 0 where
  pub aborted : Bool
  pub delay_aborted : Bool
  pub report_throws : Bool
  pub now : ℕ
  pub db : Database

-- How the wait stands after its rounds.
pub data Wait : Type 0 where
  got_capacity : Database → Wait
  not_limited no_lease was_aborted report_failed still_waiting : Wait
  wait_failed : StoreError → Wait

-- What follows a round without capacity, with the number of reports and how the rest of the rounds ends.
unfoldable pub after_waiting : Bool → Round → ℕ × Wait → ℕ × Wait
after_waiting reported round rest =
    if not reported && round.report_throws then (1, report_failed) else (
      (if reported then 0 else 1) + (if round.delay_aborted then 0 else rest.0),
      if round.delay_aborted then was_aborted else rest.1,
    )

unfoldable pub settle_round :
    Bool → Round → ℕ × Wait → Result StoreError (CapacityStatus × Database) → ℕ × Wait
settle_round reported round rest (err e) = (0, wait_failed e)
settle_round reported round rest (ok (acquired, db)) = (0, got_capacity db)
settle_round reported round rest (ok (waiting, db)) = after_waiting reported round rest

unfoldable pub wait_rounds : Coordinator → ExecutionLease → ℕ → Bool → List Round → ℕ × Wait
wait_rounds c lease limit reported [] = (0, still_waiting)
wait_rounds c lease limit reported (round ∷ rounds) =
    let rest = wait_rounds c lease limit true rounds in
    if round.aborted
    then (0, was_aborted)
    else settle_round reported round rest
        (try_acquire_capacity c.store lease limit round.now round.db)

-- The number of calls of `onWaiting`, and the wait.
unfoldable pub wait_for_capacity : Coordinator → String → List Round → ℕ × Wait
wait_for_capacity c id rounds = elim (durable_limit c) [
  | none ↦ (0, not_limited)
  | some limit ↦ elim (lookup id c.leases) [
    | none ↦ (0, no_lease)
    | some lease ↦ wait_rounds c lease limit false rounds
  ]
]
