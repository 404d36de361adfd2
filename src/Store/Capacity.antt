-- ===== src/Store/Capacity.antt =====
-- Durable execution capacity: `tryAcquireCapacity`, `releaseCapacity` of
-- src/durable-record-store.ts. The rows stand in the order of their sequence.
use agentknot.Common.{
  Bool, List, Result, String, Table, [], count, expect, false, find, guard, if◌then◌else◌, is_some,
  keep, leb, lookup, ltb, none, not, ok, some, text_eq, text_key, true, ℕ, ◌&&◌, ◌==◌, ◌>>=◌, ◌>>◌,
  ◌||◌, ◌∷◌,
}
use agentknot.Store.Records.{is_current}
use agentknot.Store.Sql.{CapacityRow, Database, LeaseRow, update_capacity}
use agentknot.Store.Types.{
  ExecutionLease, RecordKind, Store, StoreError, assert_capacity_limit, assert_open, job,
  lease_lost, unsupported_operation,
}

-- INSERT ... ON CONFLICT(record_id) DO UPDATE SET owner_id, fence
unfoldable pub enqueue_capacity : ExecutionLease → List CapacityRow → List CapacityRow
enqueue_capacity lease [] =
    record {
      record_id = lease.record_id;
      owner_id = lease.owner_id;
      fence = lease.fence;
      acquired_at = none;
    }
    ∷ []
enqueue_capacity lease (r ∷ rs) =
    if text_eq r.record_id lease.record_id
    then record r { owner_id = lease.owner_id; fence = lease.fence } ∷ rs
    else r ∷ enqueue_capacity lease rs

-- The row's lease is still there, under the same owner and fence, and has not run out.
unfoldable pub is_leased : Table String LeaseRow → ℕ → CapacityRow → Bool
is_leased leases now r = elim (lookup r.record_id leases) [
  | none ↦ false
  | some row ↦ text_eq row.owner_id r.owner_id && row.fence == r.fence && ltb now row.expires_at
]

abbrev pub is_acquired : CapacityRow → Bool
is_acquired r = is_some r.acquired_at

unfoldable pub of_record : String → CapacityRow → Bool
of_record id r = text_eq r.record_id id

-- The record has a row with `acquired_at_ms` set.
unfoldable pub has_acquired : String → List CapacityRow → Bool
has_acquired id rows = elim (find (of_record id) rows) [ none ↦ false | some r ↦ is_acquired r ]

unfoldable pub is_next : Table String LeaseRow → ℕ → String → List CapacityRow → Bool
is_next leases now id rows = elim (find (λ r. not (is_acquired r) && is_leased leases now r) rows) [
  | none ↦ false
  | some r ↦ text_eq r.record_id id
]

unfoldable pub is_waiting_row : ExecutionLease → CapacityRow → Bool
is_waiting_row lease r =
    text_eq r.record_id lease.record_id
    && text_eq r.owner_id lease.owner_id
    && r.fence == lease.fence
    && not (is_acquired r)

pub data CapacityStatus : Type 0 where
  acquired waiting : CapacityStatus

-- The part of `#tryAcquireCapacityInTransaction` behind the clean-up of the table.
unfoldable pub grant_capacity :
    ExecutionLease
    → ℕ
    → ℕ
    → Table String LeaseRow
    → List CapacityRow
    → Result StoreError (CapacityStatus × List CapacityRow)
grant_capacity lease limit now leases rows =
    if has_acquired lease.record_id rows
    then ok (acquired, rows)
    else if leb limit (count (λ r. is_acquired r && is_leased leases now r) rows)
        || not (is_next leases now lease.record_id rows)
    then ok (waiting, rows)
    else (guard (count (is_waiting_row lease) rows == 1) lease_lost
        >> ok (
          acquired,
          update_capacity (is_waiting_row lease) (λ r. record r { acquired_at = some now }) rows,
        ))

-- `#tryAcquireCapacityInTransaction`
unfoldable pub try_acquire_capacity_in_transaction :
    ExecutionLease → ℕ → ℕ → Database → Result StoreError (CapacityStatus × Database)
try_acquire_capacity_in_transaction lease limit now db = do
  row ← expect (lookup lease.record_id db.execution_leases) lease_lost
  guard (is_current lease now row) lease_lost
  let queued = enqueue_capacity lease db.execution_capacity
  let live = keep (is_leased db.execution_leases now) queued
  (status, rows) ← grant_capacity lease limit now db.execution_leases live
  ok (status, record db { execution_capacity = rows })

unfoldable pub is_job : RecordKind → Bool
is_job job = true
is_job _ = false

unfoldable pub try_acquire_capacity :
    Store → ExecutionLease → ℕ → ℕ → Database → Result StoreError (CapacityStatus × Database)
try_acquire_capacity s lease limit now db = do
  assert_open s
  guard (is_job s.kind) unsupported_operation
  assert_capacity_limit limit
  try_acquire_capacity_in_transaction lease limit now db

unfoldable pub is_lease_row : ExecutionLease → CapacityRow → Bool
is_lease_row lease r =
    text_eq r.record_id lease.record_id
    && text_eq r.owner_id lease.owner_id
    && r.fence == lease.fence

unfoldable pub release_capacity :
    Store → ExecutionLease → Database → Result StoreError (Bool × Database)
release_capacity s lease db = do
  assert_open s
  guard (is_job s.kind) unsupported_operation
  ok (
    count (is_lease_row lease) db.execution_capacity == 1,
    record db { execution_capacity = keep (λ r. not (is_lease_row lease r)) db.execution_capacity },
  )

-- The rows that hold capacity, whatever became of their leases.
abbrev pub holders : List CapacityRow → ℕ
holders = count is_acquired
