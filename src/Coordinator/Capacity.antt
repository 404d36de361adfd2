-- ===== src/Coordinator/Capacity.antt =====
-- What the end of `waitForCapacity` of src/durable-execution.ts means.
use agentknot.Common.{
  >>=-eq-ok, Bool, Bool-cases, List, Option-cases, Result, String, Table, [], any, ap, arith, count,
  err, expect-eq-ok, false, guard-eq-ok, if◌then◌else◌, inl, inr, keep, lookup, ok, refl, some,
  subst, text_key, true, ℕ, ◌&&◌, ◌∙◌, ◌∷◌, ◌≡◌, ◌≤◌,
}
use agentknot.Coordinator.Operations.{Coordinator, durable_limit}
use agentknot.Coordinator.Waiting.{
  Round, Wait, after_waiting, got_capacity, settle_round, wait_for_capacity, wait_rounds,
}
use agentknot.Store.Capacity.{
  CapacityStatus, acquired, enqueue_capacity, grant_capacity, has_acquired, is_acquired, is_job,
  is_leased, is_waiting_row, of_record, try_acquire_capacity, try_acquire_capacity_in_transaction,
  waiting,
}
use agentknot.Store.Records.{is_current}
use agentknot.Store.Sql.{CapacityRow, Database, LeaseRow, update_capacity}
use agentknot.Store.Types.{
  ExecutionLease, Store, StoreError, assert_capacity_limit, assert_open, lease_lost,
  unsupported_operation,
}

-- Some row of the record holds capacity.
unfoldable pub holds_capacity : String → List CapacityRow → Bool
holds_capacity id rows = any (λ r. of_record id r && is_acquired r) rows

has_acquired-holds_capacity :
    (id : String) (rows : List CapacityRow)
    → has_acquired id rows ≡ true
    → holds_capacity id rows ≡ true
unfolding has_acquired holds_capacity
has_acquired-holds_capacity id [] h = ground arith
has_acquired-holds_capacity id (r ∷ rs) h = ground (arith, has_acquired-holds_capacity id rs)

update_capacity-holds_capacity :
    (lease : ExecutionLease) (now : ℕ) (rows : List CapacityRow)
    → 1 ≤ count (is_waiting_row lease) rows
    → holds_capacity lease.record_id
        (update_capacity (is_waiting_row lease) (λ r. record r { acquired_at = some now }) rows)
      ≡ true
unfolding update_capacity holds_capacity is_waiting_row of_record
update_capacity-holds_capacity lease now [] h = ground arith
update_capacity-holds_capacity lease now (r ∷ rs) h =
    ground (arith, update_capacity-holds_capacity lease now rs)

grant_capacity-holds_capacity :
    (lease : ExecutionLease) (limit now : ℕ) (leases : Table String LeaseRow)
    (rows rows' : List CapacityRow)
    → grant_capacity lease limit now leases rows ≡ ok (acquired, rows')
    → holds_capacity lease.record_id rows' ≡ true
unfolding grant_capacity
grant_capacity-holds_capacity lease limit now leases rows rows' h =
    let had = has_acquired-holds_capacity lease.record_id rows in
    let granted = update_capacity-holds_capacity lease now rows in ground (arith, had, granted)

returned_rows :
    CapacityStatus × List CapacityRow
    → Result StoreError (CapacityStatus × Database)
    → CapacityStatus × List CapacityRow
returned_rows default (err e) = default
returned_rows default (ok (status, db)) = (status, db.execution_capacity)

try_acquire_capacity-holds_capacity :
    (s : Store) (lease : ExecutionLease) (limit now : ℕ) (db db' : Database)
    → try_acquire_capacity s lease limit now db ≡ ok (acquired, db')
    → holds_capacity lease.record_id db'.execution_capacity ≡ true
unfolding try_acquire_capacity try_acquire_capacity_in_transaction returned_rows
try_acquire_capacity-holds_capacity s lease limit now db db' h =
    let (_, _, h₁) = >>=-eq-ok (assert_open s) _ h in
    let (_, h₂) = guard-eq-ok (is_job s.kind) unsupported_operation _ h₁ in
    let (_, _, h₃) = >>=-eq-ok (assert_capacity_limit limit) _ h₂ in
    let (row, _, h₄) = expect-eq-ok (lookup lease.record_id db.execution_leases) lease_lost _ h₃ in
    let (_, h₅) = guard-eq-ok (is_current lease now row) lease_lost _ h₄ in
    let live =
      keep (is_leased db.execution_leases now) (enqueue_capacity lease db.execution_capacity) in
    let (t, granted, h₆) =
      >>=-eq-ok (grant_capacity lease limit now db.execution_leases live) _ h₅ in
    let got : t ≡ (acquired, db'.execution_capacity) = ap (returned_rows t) h₆ in
    grant_capacity-holds_capacity lease limit now db.execution_leases live _ (granted ∙ ap ok got)

settle_round-reports :
    (reported : Bool) (round : Round) (rest : ℕ × Wait)
    (call : Result StoreError (CapacityStatus × Database))
    → rest.0 ≡ 0
    → (settle_round reported round rest call).0 ≤ (if reported then 0 else 1)
unfolding settle_round after_waiting
settle_round-reports reported round rest (err e) h = ground arith
settle_round-reports reported round rest (ok (acquired, db)) h = ground arith
settle_round-reports reported round rest (ok (waiting, db)) h = ground arith

wait_rounds-reports :
    (c : Coordinator) (lease : ExecutionLease) (limit : ℕ) (reported : Bool) (rounds : List Round)
    → (wait_rounds c lease limit reported rounds).0 ≤ (if reported then 0 else 1)
unfolding wait_rounds
wait_rounds-reports c lease limit reported [] = ground arith
wait_rounds-reports c lease limit reported (round ∷ rounds) =
    let rest = wait_rounds-reports c lease limit true rounds in
    let settled =
      settle_round-reports reported round (wait_rounds c lease limit true rounds)
        (try_acquire_capacity c.store lease limit round.now round.db) (omega arith) in
    ground arith

settle_round-got :
    (c : Coordinator) (lease : ExecutionLease) (limit : ℕ) (reported : Bool) (round : Round)
    (rest : ℕ × Wait) (d : Database) (call : Result StoreError (CapacityStatus × Database))
    → try_acquire_capacity c.store lease limit round.now round.db ≡ call
    → (rest.1 ≡ got_capacity d → holds_capacity lease.record_id d.execution_capacity ≡ true)
    → (settle_round reported round rest call).1 ≡ got_capacity d
    → holds_capacity lease.record_id d.execution_capacity ≡ true
unfolding settle_round after_waiting
settle_round-got c lease limit reported round rest d (err e) made step h = ground arith
settle_round-got c lease limit reported round rest d (ok (acquired, db)) made step h =
    let same : db ≡ d = cc in
    subst (λ x. holds_capacity lease.record_id x.execution_capacity ≡ true) same
      (try_acquire_capacity-holds_capacity c.store lease limit round.now round.db db made)
settle_round-got c lease limit reported round rest d (ok (waiting, db)) made step h = ground arith

wait_rounds-got :
    (c : Coordinator) (lease : ExecutionLease) (limit : ℕ) (reported : Bool) (rounds : List Round)
    (d : Database)
    → (wait_rounds c lease limit reported rounds).1 ≡ got_capacity d
    → holds_capacity lease.record_id d.execution_capacity ≡ true
unfolding wait_rounds
wait_rounds-got c lease limit reported [] d h = ground arith
wait_rounds-got c lease limit reported (round ∷ rounds) d h = elim (Bool-cases round.aborted) [
  | inl stop ↦ ground arith
  | inr go ↦
      settle_round-got c lease limit reported round (wait_rounds c lease limit true rounds) d _ refl
        (wait_rounds-got c lease limit true rounds d) (cc)
]

-- A wait under a lease that ends with capacity, however many rounds it takes and whatever others do in
-- between, has reported at most once that the execution waits, and leaves a database in which a row
-- of the lease's record holds capacity.
pub wait_for_capacity_lem :
    (c : Coordinator) (id : String) (lease : ExecutionLease) (rounds : List Round) (d : Database)
    → lookup id c.leases ≡ some lease
    → (wait_for_capacity c id rounds).1 ≡ got_capacity d
    → ((wait_for_capacity c id rounds).0 ≤ 1)
      × (holds_capacity lease.record_id d.execution_capacity ≡ true)
unfolding wait_for_capacity
wait_for_capacity_lem c id lease rounds d held got = elim (Option-cases (durable_limit c)) [
  | inl unlimited ↦ cc
  | inr (limit, limited) ↦
      (let reports = wait_rounds-reports c lease limit false rounds in
        (ground arith, wait_rounds-got c lease limit false rounds d cc))
]
