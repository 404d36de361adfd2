-- ===== src/Store/CapacityBound.antt =====
-- How many rows of `execution_capacity` hold capacity, under each statement on that table.
use agentknot.Common.{
  Bool, Ensures, List, String, Table, [], arith, count, keep, ok, refl, some, ℕ, ◌&&◌, ◌+◌, ◌∷◌,
  ◌≡◌, ◌≤◌,
}
use agentknot.Store.Capacity.{
  CapacityStatus, enqueue_capacity, grant_capacity, holders, is_acquired, is_leased, is_waiting_row,
  try_acquire_capacity_in_transaction,
}
use agentknot.Store.Leases.{hand_over_capacity}
use agentknot.Store.Sql.{CapacityRow, Database, LeaseRow, update_capacity}
use agentknot.Store.Types.{ExecutionLease, RecordKind, job}

pub holders-enqueue_capacity :
    (lease : ExecutionLease) (rows : List CapacityRow)
    → holders (enqueue_capacity lease rows) ≡ holders rows
unfolding enqueue_capacity
holders-enqueue_capacity lease [] = refl
holders-enqueue_capacity lease (r ∷ rs) = ground (arith, holders-enqueue_capacity lease rs)

pub holders-keep-le :
    (p : CapacityRow → Bool) (rows : List CapacityRow) → holders (keep p rows) ≤ holders rows
holders-keep-le p [] = omega arith
holders-keep-le p (r ∷ rs) = ground (arith, holders-keep-le p rs)

pub holders-update_capacity :
    (p : CapacityRow → Bool) (f : CapacityRow → CapacityRow) (rows : List CapacityRow)
    → ((r : CapacityRow) → is_acquired (f r) ≡ is_acquired r)
    → holders (update_capacity p f rows) ≡ holders rows
unfolding update_capacity
holders-update_capacity p f [] h = refl
holders-update_capacity p f (r ∷ rs) h = ground (arith, h r, holders-update_capacity p f rs h)

pub holders-hand_over_capacity :
    (kind : RecordKind) (id : String) (old : LeaseRow) (lease : ExecutionLease)
    (rows : List CapacityRow)
    → holders (hand_over_capacity kind id old lease rows) ≡ holders rows
unfolding hand_over_capacity
holders-hand_over_capacity job id old lease rows = holders-update_capacity _ _ rows (λ r. refl)
holders-hand_over_capacity _ id old lease rows = refl

-- Behind the clean-up every holder has a current lease.
live_holders :
    (leases : Table String LeaseRow) (now : ℕ) (rows : List CapacityRow)
    → count (λ r. is_acquired r && is_leased leases now r) (keep (is_leased leases now) rows)
      ≡ holders (keep (is_leased leases now) rows)
live_holders leases now [] = refl
live_holders leases now (r ∷ rs) = ground (arith, live_holders leases now rs)

holders-grant :
    (lease : ExecutionLease) (now : ℕ) (rows : List CapacityRow)
    → holders
        (update_capacity (is_waiting_row lease) (λ r. record r { acquired_at = some now }) rows)
      ≡ holders rows + count (is_waiting_row lease) rows
unfolding update_capacity is_waiting_row
holders-grant lease now [] = omega arith
holders-grant lease now (r ∷ rs) = ground (arith, holders-grant lease now rs)

-- Grants only below the limit.
grant_capacity-bound :
    (lease : ExecutionLease) (limit bound now : ℕ) (leases : Table String LeaseRow)
    (rows : List CapacityRow)
    → limit ≤ bound
    → holders (keep (is_leased leases now) rows) ≤ bound
    → Ensures
        (λ r. holders r.1 ≤ bound)
        (grant_capacity lease limit now leases (keep (is_leased leases now) rows))
unfolding grant_capacity
grant_capacity-bound lease limit bound now leases rows le b = ground (
  arith,
  live_holders leases now rows,
  holders-grant lease now (keep (is_leased leases now) rows),
)

pub try_acquire-bound :
    (lease : ExecutionLease) (limit bound now : ℕ) (db : Database) {status : CapacityStatus}
    {db' : Database}
    → limit ≤ bound
    → try_acquire_capacity_in_transaction lease limit now db ≡ ok (status, db')
    → holders db.execution_capacity ≤ bound
    → holders db'.execution_capacity ≤ bound
unfolding try_acquire_capacity_in_transaction
try_acquire-bound lease limit bound now db le h b =
    let leases = db.execution_leases in
    let queued = enqueue_capacity lease db.execution_capacity in
    ground (
      arith,
      grant_capacity-bound lease limit bound now leases queued le,
      holders-keep-le (is_leased leases now) queued,
      holders-enqueue_capacity lease db.execution_capacity,
    )
