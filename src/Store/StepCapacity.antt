-- ===== src/Store/StepCapacity.antt =====
-- The bound on capacity over whole histories.
use agentknot.Common.{Ensures, Option, String, arith, none, ok, some, ℕ, ◌≡◌, ◌≤◌}
use agentknot.Store.Admission.{
  AdmissionOptions, Idempotency, admit, admit_capacity, admit_new, existing_record,
  insert_idempotency,
}
use agentknot.Store.Capacity.{
  CapacityStatus, holders, release_capacity, try_acquire_capacity,
  try_acquire_capacity_in_transaction,
}
use agentknot.Store.CapacityBound.{holders-hand_over_capacity, holders-keep-le, try_acquire-bound}
use agentknot.Store.Leases.{
  claim_existing, claim_first, claim_lease, claim_lease_in_transaction, release_lease, renew_lease,
}
use agentknot.Store.Records.{
  bind_executor_job, bind_unbound, create, insert_cancellation, insert_new, request_cancellation,
  save, write_snapshot,
}
use agentknot.Store.RoutePool.{admit_chosen, admit_route_pool}
use agentknot.Store.Sql.{Database}
use agentknot.Store.Steps.{
  IsWithin, Reach, Step, admits, admits_pool, binds, cancels, claims, creates, extended, releases,
  releases_capacity, renews, saves, tries_capacity, unmoved,
}
use agentknot.Store.Types.{ExecutionLease, RecordKind, Store, StoredRecord}

module _ (bound : ℕ) where
  abbrev pub IsBounded : Database → Type 0
  IsBounded db = holders db.execution_capacity ≤ bound

  claim-IsBounded :
      (kind : RecordKind) (id owner : String) (ttl now : ℕ) (db : Database)
      → IsBounded db
      → Ensures (λ r. IsBounded r.1) (claim_lease_in_transaction kind id owner ttl now db)
  unfolding claim_lease_in_transaction claim_first claim_existing
  claim-IsBounded kind id owner ttl now db b = grind (arith, holders-hand_over_capacity)

  insert_new-IsBounded :
      (s : Store) (r : StoredRecord) (db db' : Database)
      → insert_new s r db ≡ ok db'
      → IsBounded db
      → IsBounded db'
  unfolding insert_new
  insert_new-IsBounded s r db db' h b = ground arith

  insert_idempotency-IsBounded :
      (i : Option Idempotency) (r : StoredRecord) (db db' : Database)
      → insert_idempotency i r db ≡ ok db'
      → IsBounded db
      → IsBounded db'
  unfolding insert_idempotency
  insert_idempotency-IsBounded i r db db' h b = ground arith

  claimed-IsBounded :
      (kind : RecordKind) (id owner : String) (ttl now : ℕ) (db : Database)
      (r : Option ExecutionLease × Database)
      → claim_lease_in_transaction kind id owner ttl now db ≡ ok r
      → IsBounded db
      → IsBounded r.1
  claimed-IsBounded kind id owner ttl now db r h b =
      ground (arith, claim-IsBounded kind id owner ttl now db)

  claim_lease-IsBounded :
      (s : Store) (id owner : String) (ttl now : ℕ) (db : Database)
      (r : Option ExecutionLease × Database)
      → claim_lease s id owner ttl now db ≡ ok r
      → IsBounded db
      → IsBounded r.1
  unfolding claim_lease
  claim_lease-IsBounded s id owner ttl now db r h b = grind (arith, claimed-IsBounded)

  tried-IsBounded :
      (lease : ExecutionLease) (limit now : ℕ) (db : Database) (r : CapacityStatus × Database)
      → limit ≤ bound
      → try_acquire_capacity_in_transaction lease limit now db ≡ ok r
      → IsBounded db
      → IsBounded r.1
  tried-IsBounded lease limit now db (status, db') w h b =
      try_acquire-bound lease limit bound now db w h b

  try_acquire_capacity-IsBounded :
      (s : Store) (lease : ExecutionLease) (limit now : ℕ) (db : Database)
      (r : CapacityStatus × Database)
      → limit ≤ bound
      → try_acquire_capacity s lease limit now db ≡ ok r
      → IsBounded db
      → IsBounded r.1
  unfolding try_acquire_capacity
  try_acquire_capacity-IsBounded s lease limit now db r w h b = grind (arith, tried-IsBounded)

  admit_capacity-IsBounded :
      (limit : Option ℕ) (lease : ExecutionLease) (now : ℕ) (db db' : Database)
      → IsWithin bound limit
      → admit_capacity limit lease now db ≡ ok db'
      → IsBounded db
      → IsBounded db'
  unfolding admit_capacity
  admit_capacity-IsBounded none lease now db db' w h b = ground arith
  admit_capacity-IsBounded (some limit) lease now db db' w h b = grind (arith, tried-IsBounded)

  admit_new-IsBounded :
      (s : Store) (r : StoredRecord) (options : AdmissionOptions) (db : Database)
      (a : ExecutionLease × Database)
      → IsWithin bound options.capacity_limit
      → admit_new s r options db ≡ ok a
      → IsBounded db
      → IsBounded a.1
  unfolding admit_new
  admit_new-IsBounded s r options db a w h b = grind (
    arith, insert_new-IsBounded, insert_idempotency-IsBounded, claimed-IsBounded,
    admit_capacity-IsBounded,
  )

  Step-capacity_bound : {db db' : Database} → Step bound db db' → IsBounded db → IsBounded db'
  unfolding create save write_snapshot bind_executor_job bind_unbound admit admit_route_pool
      admit_chosen existing_record renew_lease release_lease release_capacity request_cancellation
      insert_cancellation claim_lease try_acquire_capacity
  Step-capacity_bound (creates s r h) b = grind (arith, insert_new-IsBounded)
  Step-capacity_bound (admits s r options w h) b = grind (arith, admit_new-IsBounded)
  Step-capacity_bound (admits_pool s key candidates create_record options w h) b =
      grind (arith, admit_new-IsBounded)
  Step-capacity_bound (saves s r lease now h) b = ground arith
  Step-capacity_bound (binds s id expected executor at h) b = ground arith
  Step-capacity_bound (claims s id owner ttl now h) b =
      claim_lease-IsBounded s id owner ttl now _ _ h b
  Step-capacity_bound (renews s lease ttl now h) b = ground arith
  Step-capacity_bound (releases s lease h) b = ground arith
  Step-capacity_bound (tries_capacity s lease limit now w h) b =
      try_acquire_capacity-IsBounded s lease limit now _ _ w h b
  Step-capacity_bound (releases_capacity s lease h) b = grind (arith, holders-keep-le)
  Step-capacity_bound (cancels s id source now h) b = ground arith

  -- From a database in which at most `bound` rows hold capacity, no sequence of calls that each pass
  -- a limit of at most `bound` leads to one in which more do, whatever leases run out in between and
  -- whatever the clocks say.
  pub Reach-capacity_bound : {db db' : Database} → Reach bound db db' → IsBounded db → IsBounded db'
  Reach-capacity_bound unmoved b = b
  Reach-capacity_bound (extended r st) b = Step-capacity_bound st (Reach-capacity_bound r b)
