-- ===== src/Store/Fairness.antt =====
-- Who gets execution capacity next.
use agentknot.Common.{
  Bool, List, String, Table, [], any, arith, false, keep, none, ok, refl, text_eq_iff, true, ℕ,
  ◌&&◌, ◌++◌, ◌∷◌, ◌≡◌, ◌≢◌,
}
use agentknot.Store.Capacity.{
  CapacityStatus, enqueue_capacity, grant_capacity, has_acquired, is_acquired, is_leased, is_next,
  of_record, try_acquire_capacity, try_acquire_capacity_in_transaction, waiting,
}
use agentknot.Store.Sql.{CapacityRow, Database, LeaseRow}
use agentknot.Store.Types.{ExecutionLease, Store}

module _ (lease : ExecutionLease) (now : ℕ) (leases : Table String LeaseRow) (a : CapacityRow) where
  -- The first waiting row behind the clean-up is not the caller's, if another waits before it.
  blocked :
      (xs ys : List CapacityRow)
      → a.acquired_at ≡ none
      → is_leased leases now a ≡ true
      → a.record_id ≢ lease.record_id
      → any (of_record lease.record_id) xs ≡ false
      → is_next leases now lease.record_id
          (keep (is_leased leases now) (enqueue_capacity lease (xs ++ a ∷ ys)))
        ≡ false
  unfolding is_next enqueue_capacity of_record
  blocked [] ys w l other h = ground (arith, text_eq_iff a.record_id lease.record_id)
  blocked (x ∷ xs) ys w l other h =
      ground (arith, text_eq_iff x.record_id lease.record_id, blocked xs ys w l other)

abbrev pub holds : String → CapacityRow → Bool
holds id r = of_record id r && is_acquired r

holds-has_acquired :
    (id : String) (rows : List CapacityRow)
    → any (holds id) rows ≡ false
    → has_acquired id rows ≡ false
unfolding has_acquired
holds-has_acquired id [] h = refl
holds-has_acquired id (r ∷ rs) h = ground (arith, holds-has_acquired id rs)

holds-keep :
    (id : String) (p : CapacityRow → Bool) (rows : List CapacityRow)
    → any (holds id) rows ≡ false
    → any (holds id) (keep p rows) ≡ false
holds-keep id p [] h = refl
holds-keep id p (r ∷ rs) h = ground (arith, holds-keep id p rs)

holds-enqueue :
    (lease : ExecutionLease) (rows : List CapacityRow)
    → any (holds lease.record_id) rows ≡ false
    → any (holds lease.record_id) (enqueue_capacity lease rows) ≡ false
unfolding enqueue_capacity of_record
holds-enqueue lease [] h = ground arith
holds-enqueue lease (r ∷ rs) h = ground (arith, holds-enqueue lease rs)

-- First come, first served: while a row that stands before every row of the caller's record waits
-- under a lease that has not run out, the caller's record, if it holds no capacity, gets none from a
-- call that does not throw.
pub no_overtaking :
    (s : Store) (lease : ExecutionLease) (limit now : ℕ) (db : Database) (xs ys : List CapacityRow)
    (a : CapacityRow) (r : CapacityStatus × Database)
    → db.execution_capacity ≡ xs ++ a ∷ ys
    → a.acquired_at ≡ none
    → is_leased db.execution_leases now a ≡ true
    → a.record_id ≢ lease.record_id
    → any (of_record lease.record_id) xs ≡ false
    → any (holds lease.record_id) db.execution_capacity ≡ false
    → try_acquire_capacity s lease limit now db ≡ ok r
    → r.0 ≡ waiting
unfolding try_acquire_capacity try_acquire_capacity_in_transaction grant_capacity
no_overtaking s lease limit now db xs ys a r rows w l other later free h =
    let leases = db.execution_leases in
    let queued = enqueue_capacity lease db.execution_capacity in
    let live = keep (is_leased leases now) queued in
    let fresh = holds-has_acquired lease.record_id live (
      holds-keep lease.record_id (is_leased leases now) queued
        (holds-enqueue lease db.execution_capacity free)) in
    let behind : is_next leases now lease.record_id live ≡ false =
      rw rows (blocked lease now leases a xs ys w l other later) in
    ground arith
