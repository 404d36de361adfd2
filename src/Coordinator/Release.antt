-- ===== src/Coordinator/Release.antt =====
-- What `release` of src/durable-execution.ts leaves in the database.
use agentknot.Common.{
  Bool, Option, false, if◌then◌else◌, is_some, keep, lookup, none, not, some, text_eq, text_key,
  ◌&&◌, ◌==◌,
}
use agentknot.Coordinator.Operations.{Coordinator, durable_limit}
use agentknot.Store.Capacity.{is_job, is_lease_row}
use agentknot.Store.Sql.{Database, update_lease}
use agentknot.Store.Types.{ExecutionLease, StoreError, store_closed, unsupported_operation}

-- The lease row of a record is under the owner and the fence of the lease.
unfoldable pub holds : ExecutionLease → Database → Bool
holds lease db = elim (lookup lease.record_id db.execution_leases) [
  | none ↦ false
  | some row ↦ text_eq row.owner_id lease.owner_id && row.fence == lease.fence
]

-- The table of leases without this one.
unfoldable freed : ExecutionLease → Database → Database
freed lease db = record db {
  execution_leases =
      (update_lease lease.record_id
        (λ row. text_eq row.owner_id lease.owner_id && row.fence == lease.fence)
        (λ row. record row { owner_id = ""; acquired_at = 0; heartbeat_at = 0; expires_at = 0 })
        db.execution_leases).0;
}

unfoldable pub dropped : ExecutionLease → Database → Database
dropped lease db = record db {
  execution_capacity = keep (λ r. not (is_lease_row lease r)) db.execution_capacity;
}

-- What a release throws: nothing unless the store is closed, or keeps no capacity though there is a
-- limit.
abbrev pub thrown_by : Coordinator → Option StoreError
thrown_by c =
    if c.store.closed
    then some store_closed
    else if is_some (durable_limit c) && not (is_job c.store.kind)
    then some unsupported_operation
    else none

-- Whether a release frees the capacity.
abbrev pub frees_capacity : Coordinator → Bool
frees_capacity c = not c.store.closed && is_some (durable_limit c) && is_job c.store.kind

released_as : Coordinator → ExecutionLease → Database → Database
released_as c lease db =
    if c.store.closed then db else freed lease (if frees_capacity c then dropped lease db else db)
