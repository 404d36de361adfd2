-- ===== src/Store/Leases.antt =====
-- Fenced leases: `claimLease`, `renewLease`, `releaseLease`, `getLease` of
-- src/durable-record-store.ts.
use agentknot.Common.{
  Bool, List, Option, Result, String, Table, expect, guard, if◌then◌else◌, is_some, leb, lookup,
  ltb, none, ok, some, text_eq, text_key, ℕ, ◌&&◌, ◌+◌, ◌==◌, ◌>>=◌, ◌>>◌,
}
use agentknot.Store.Sql.{CapacityRow, Database, LeaseRow, insert_row, update_capacity, update_lease}
use agentknot.Store.Types.{
  ExecutionLease, RecordKind, Store, StoreError, assert_identifier, assert_open, assert_ttl, job,
  lease_not_observable, missing_record,
}

-- `#lease`: a released row has no owner.
unfoldable pub read_lease : String → Database → Option ExecutionLease
read_lease id db = elim (lookup id db.execution_leases) [
  | none ↦ none
  | some row ↦
      if text_eq row.owner_id ""
      then none
      else some (record {
        record_id = id;
        owner_id = row.owner_id;
        fence = row.fence;
        acquired_at = row.acquired_at;
        heartbeat_at = row.heartbeat_at;
        expires_at = row.expires_at;
      })
]

unfoldable pub renew_statement :
    String → String → ℕ → ℕ → ℕ → Table String LeaseRow → Table String LeaseRow × ℕ
renew_statement id owner fence now expires =
    update_lease id
      (λ row. text_eq row.owner_id owner && row.fence == fence && ltb now row.expires_at)
      (λ row. record row { heartbeat_at = now; expires_at = expires })

unfoldable pub claim_expired_statement :
    String → String → ℕ → ℕ → Table String LeaseRow → Table String LeaseRow × ℕ
claim_expired_statement id owner now expires =
    update_lease id (λ row. leb row.expires_at now)
      (λ row. record row {
        owner_id = owner;
        fence = row.fence + 1;
        acquired_at = now;
        heartbeat_at = now;
        expires_at = expires;
      })

-- The capacity row of the lease that ran out goes to the new one.
unfoldable pub hand_over_capacity :
    RecordKind → String → LeaseRow → ExecutionLease → List CapacityRow → List CapacityRow
hand_over_capacity job id old lease rows =
    update_capacity
      (λ r. text_eq r.record_id id && text_eq r.owner_id old.owner_id && r.fence == old.fence)
      (λ r. record r { owner_id = lease.owner_id; fence = lease.fence }) rows
hand_over_capacity _ id old lease rows = rows

-- The first lease of a record.
unfoldable pub claim_first :
    String → String → ℕ → ℕ → Database → Result StoreError (Option ExecutionLease × Database)
claim_first id owner ttl now db = do
  leases ←
      insert_row id
        (record {
          owner_id = owner;
          fence = 1;
          acquired_at = now;
          heartbeat_at = now;
          expires_at = now + ttl;
        })
        db.execution_leases
  let db' = record db { execution_leases = leases }
  inserted ← expect (read_lease id db') lease_not_observable
  ok (some inserted, db')

-- The claim of a record whose lease row is `current`.
unfoldable pub claim_existing :
    RecordKind
    → String
    → String
    → ℕ
    → ℕ
    → LeaseRow
    → Database
    → Result StoreError (Option ExecutionLease × Database)
claim_existing kind id owner ttl now current db =
    if text_eq current.owner_id owner && ltb now current.expires_at
    then (let renewed =
          renew_statement id owner current.fence now (now + ttl) db.execution_leases in
        let db' = record db { execution_leases = renewed.0 } in
        ok (if renewed.1 == 1 then read_lease id db' else none, db'))
    else if ltb now current.expires_at
    then ok (none, db)
    else (let claimed = claim_expired_statement id owner now (now + ttl) db.execution_leases in
        let db' = record db { execution_leases = claimed.0 } in
        if claimed.1 == 1
        then (expect (read_lease id db') lease_not_observable >>= λ lease. ok (
          some lease,
          record db' {
            execution_capacity = hand_over_capacity kind id current lease db'.execution_capacity;
          },
        ))
        else ok (none, db'))

-- `#claimLeaseInTransaction`
unfoldable pub claim_lease_in_transaction :
    RecordKind
    → String
    → String
    → ℕ
    → ℕ
    → Database
    → Result StoreError (Option ExecutionLease × Database)
claim_lease_in_transaction kind id owner ttl now db = elim (lookup id db.execution_leases) [
  | none ↦ claim_first id owner ttl now db
  | some current ↦ claim_existing kind id owner ttl now current db
]

unfoldable pub claim_lease :
    Store
    → String
    → String
    → ℕ
    → ℕ
    → Database
    → Result StoreError (Option ExecutionLease × Database)
claim_lease s id owner ttl now db = do
  assert_open s
  assert_identifier owner
  assert_ttl ttl
  guard (is_some (lookup id db.records)) missing_record
  claim_lease_in_transaction s.kind id owner ttl now db

unfoldable pub renew_lease :
    Store → ExecutionLease → ℕ → ℕ → Database → Result StoreError (Bool × Database)
renew_lease s lease ttl now db = do
  assert_open s
  assert_ttl ttl
  let renewed =
      renew_statement lease.record_id lease.owner_id lease.fence now (now + ttl) db.execution_leases
  ok (renewed.1 == 1, record db { execution_leases = renewed.0 })

unfoldable pub release_lease :
    Store → ExecutionLease → Database → Result StoreError (Bool × Database)
release_lease s lease db = do
  assert_open s
  let released =
      update_lease lease.record_id
        (λ row. text_eq row.owner_id lease.owner_id && row.fence == lease.fence)
        (λ row. record row { owner_id = ""; acquired_at = 0; heartbeat_at = 0; expires_at = 0 })
        db.execution_leases
  ok (released.1 == 1, record db { execution_leases = released.0 })

unfoldable pub get_lease : Store → String → Database → Result StoreError (Option ExecutionLease)
get_lease s id db = assert_open s >> ok (read_lease id db)
