-- ===== src/Store/Steps.antt =====
-- Histories of one database of src/durable-record-store.ts: any store objects, in any number of
-- processes, each call one transaction. `bound` is the largest capacity limit that a call passes.
use agentknot.Common.{Bool, List, Option, String, none, ok, some, ℕ, ◌≡◌, ◌≤◌}
use agentknot.Store.Admission.{AdmissionOptions, AdmissionResult, admit}
use agentknot.Store.Capacity.{CapacityStatus, release_capacity, try_acquire_capacity}
use agentknot.Store.Leases.{claim_lease, release_lease, renew_lease}
use agentknot.Store.Records.{bind_executor_job, create, request_cancellation, save}
use agentknot.Store.RoutePool.{Choice, admit_route_pool}
use agentknot.Store.Sql.{Database}
use agentknot.Store.Types.{CancellationRequest, ExecutionLease, Store, StoredRecord}

abbrev pub IsWithin : ℕ → Option ℕ → Type 0
IsWithin bound none = Unit
IsWithin bound (some limit) = limit ≤ bound

-- One call that changes the database, or may.
pub data Step (bound : ℕ) (db db' : Database) : Type 0 where
  creates :
      (s : Store) (r : StoredRecord) {r' : StoredRecord}
      → create s r db ≡ ok (r', db')
      → Step bound db db'
  admits :
      (s : Store) (r : StoredRecord) (options : AdmissionOptions) {a : AdmissionResult}
      → IsWithin bound options.capacity_limit
      → admit s r options db ≡ ok (a, db')
      → Step bound db db'
  admits_pool :
      (s : Store) (key : String) (candidates : List String) (create_record : Choice → StoredRecord)
      (options : AdmissionOptions) {a : AdmissionResult}
      → IsWithin bound options.capacity_limit
      → admit_route_pool s key candidates create_record options db ≡ ok (a, db')
      → Step bound db db'
  saves :
      (s : Store) (r : StoredRecord) (lease : Option ExecutionLease) (now : ℕ) {r' : StoredRecord}
      → save s r lease now db ≡ ok (r', db')
      → Step bound db db'
  binds :
      (s : Store) (id : String) (expected : ℕ) (executor : String) (at : ℕ) {r' : StoredRecord}
      → bind_executor_job s id expected executor at db ≡ ok (r', db')
      → Step bound db db'
  claims :
      (s : Store) (id owner : String) (ttl now : ℕ) {l : Option ExecutionLease}
      → claim_lease s id owner ttl now db ≡ ok (l, db')
      → Step bound db db'
  renews :
      (s : Store) (lease : ExecutionLease) (ttl now : ℕ) {b : Bool}
      → renew_lease s lease ttl now db ≡ ok (b, db')
      → Step bound db db'
  releases :
      (s : Store) (lease : ExecutionLease) {b : Bool}
      → release_lease s lease db ≡ ok (b, db')
      → Step bound db db'
  tries_capacity :
      (s : Store) (lease : ExecutionLease) (limit now : ℕ) {status : CapacityStatus}
      → limit ≤ bound
      → try_acquire_capacity s lease limit now db ≡ ok (status, db')
      → Step bound db db'
  releases_capacity :
      (s : Store) (lease : ExecutionLease) {b : Bool}
      → release_capacity s lease db ≡ ok (b, db')
      → Step bound db db'
  cancels :
      (s : Store) (id source : String) (now : ℕ) {c : Option CancellationRequest}
      → request_cancellation s id source now db ≡ ok (c, db')
      → Step bound db db'

pub data Reach (bound : ℕ) (db : Database) : Database → Type 0 where
  unmoved : Reach bound db db
  extended : {d d' : Database} → Reach bound db d → Step bound d d' → Reach bound db d'
