-- ===== src/Store/Records.antt =====
-- Records and events: `create`, `save`, `bindWorkOrderExecutorJob`, `get`, `eventsAfter` and
-- cancellation of src/durable-record-store.ts. An error leaves the database as it was (ROLLBACK).
use agentknot.Common.{
  Bool, List, Option, Result, String, [], drop, expect, false, get_or, guard, if◌then◌else◌, leb,
  length, lookup, ltb, none, not, ok, put, some, text_eq, text_key, true, ℕ, ◌&&◌, ◌++◌, ◌+◌, ◌==◌,
  ◌>>=◌, ◌>>◌, ◌||◌, ◌∷◌,
}
use agentknot.Store.Sql.{
  Database, LeaseRow, RecordRow, event_rows, insert_events, insert_row, select_events,
  update_record,
}
use agentknot.Store.Types.{
  CancellationRequest, ExecutionLease, RecordKind, Store, StoreError, StoredEvent, StoredRecord,
  assert_append_only, assert_events, assert_identifier, assert_open, attach_revision,
  binding_conflict, cancellation_requested, candidate, disposition, invalid_argument, job,
  lease_lost, materialize, materialize_version, max_safe_integer, missing_record, not_issued,
  orchestration, review, sequence_mismatch, serialize_bounded, stale_revision,
  unsupported_operation, work_order,
}

-- `#parse`
unfoldable pub parse : RecordRow → Result StoreError StoredRecord
parse row = do
  r ← materialize_version row.record_json
  assert_events r.events
  guard (length r.events == row.event_sequence) sequence_mismatch
  ok (attach_revision r row.revision)

-- `#insertNew`
unfoldable pub insert_new : Store → StoredRecord → Database → Result StoreError Database
insert_new s r db = do
  json ← serialize_bounded s r
  records ←
      insert_row r.id
        (record {
          created_at = r.created_at;
          updated_at = get_or r.updated_at r.created_at;
          revision = 1;
          event_sequence = length r.events;
          record_json = json;
        })
        db.records
  rows ← insert_events r.events (event_rows r.id db)
  ok (record db { records = records; events = put r.id rows db.events })

unfoldable pub create :
    Store → StoredRecord → Database → Result StoreError (StoredRecord × Database)
create s r db = do
  assert_open s
  normalized ← materialize s r
  db' ← insert_new s normalized db
  ok (attach_revision r 1, db')

-- The kinds that `save` does not refuse.
unfoldable pub supports_save : RecordKind → Bool
supports_save job = true
supports_save orchestration = true
supports_save work_order = false
supports_save candidate = false
supports_save review = false
supports_save disposition = false

-- The lease row is the caller's, and has not run out.
unfoldable pub is_current : ExecutionLease → ℕ → LeaseRow → Bool
is_current lease now row =
    text_eq row.owner_id lease.owner_id && row.fence == lease.fence && ltb now row.expires_at

unfoldable pub assert_lease_current :
    ExecutionLease → String → ℕ → Database → Result StoreError (Unit {0})
assert_lease_current lease id now db = do
  row ← expect (lookup id db.execution_leases) lease_lost
  guard (is_current lease now row) lease_lost

-- `if (lease !== undefined) ...` of `save`.
unfoldable pub assert_lease :
    Option ExecutionLease → String → ℕ → Database → Result StoreError (Unit {0})
assert_lease none id now db = ok tt
assert_lease (some lease) id now db = assert_lease_current lease id now db

unfoldable pub has_status : String → StoredRecord → Bool
has_status status r = elim r.status [ none ↦ false | some t ↦ text_eq t status ]

unfoldable pub assert_not_cancelled : StoredRecord → Database → Result StoreError (Unit {0})
assert_not_cancelled r db = elim (lookup r.id db.cancellation_requests) [
  | none ↦ ok tt
  | some request ↦ guard (not (has_status "succeeded" r)) (cancellation_requested request)
]

-- The event suffix and the new snapshot, in one transaction.
unfoldable pub write_snapshot :
    Store → StoredRecord → StoredRecord → ℕ → Database → Result StoreError Database
write_snapshot s previous next expected db = do
  assert_append_only previous.events next.events
  rows ← insert_events (drop (length previous.events) next.events) (event_rows next.id db)
  json ← serialize_bounded s next
  let updated =
      update_record next.id (get_or next.updated_at next.created_at) (length next.events) json
        expected db.records
  guard (updated.1 == 1) stale_revision
  ok (record db { records = updated.0; events = put next.id rows db.events })

unfoldable pub save :
    Store
    → StoredRecord
    → Option ExecutionLease
    → ℕ
    → Database
    → Result StoreError (StoredRecord × Database)
save s r lease now db = do
  assert_open s
  guard (supports_save s.kind) unsupported_operation
  expected ← expect r.revision stale_revision
  next ← materialize s r
  row ← expect (lookup next.id db.records) missing_record
  guard (row.revision == expected) stale_revision
  assert_lease lease next.id now db
  assert_not_cancelled next db
  previous ← parse row
  db' ← write_snapshot s previous next expected db
  ok (attach_revision r (expected + 1), db')

abbrev bound_event : String → ℕ → String → ℕ → StoredEvent
bound_event id at executor sequence = record {
  sequence = sequence;
  at = at;
  type = "work-order.executor-job.bound";
  body = executor;
}

unfoldable pub is_work_order : RecordKind → Bool
is_work_order work_order = true
is_work_order _ = false

-- The transition of a WorkOrder that has no executor Job yet.
unfoldable pub bind_unbound :
    Store
    → String
    → ℕ
    → String
    → ℕ
    → RecordRow
    → StoredRecord
    → Database
    → Result StoreError (StoredRecord × Database)
bind_unbound s id expected executor at row current db = do
  guard (row.event_sequence == expected) stale_revision
  updated ← materialize s (record current {
    executor_job_id = some executor;
    updated_at = some at;
    events = current.events ++ bound_event id at executor (row.event_sequence + 1) ∷ [];
  })
  db' ← write_snapshot s current updated row.revision db
  ok (attach_revision updated (row.revision + 1), db')

unfoldable pub bind_executor_job :
    Store → String → ℕ → String → ℕ → Database → Result StoreError (StoredRecord × Database)
bind_executor_job s id expected executor at db = do
  assert_open s
  guard (is_work_order s.kind) unsupported_operation
  assert_identifier id
  assert_identifier executor
  guard (leb 1 expected && leb expected max_safe_integer) invalid_argument
  row ← expect (lookup id db.records) missing_record
  current ← parse row
  guard (has_status "issued" current) not_issued
  elim current.executor_job_id [
    | none ↦ bind_unbound s id expected executor at row current db
    | some bound ↦ guard (text_eq bound executor) binding_conflict >> ok (current, db)
  ]

unfoldable pub get : Store → String → Database → Result StoreError (Option StoredRecord)
get s id db = do
  assert_open s
  elim (lookup id db.records) [ none ↦ ok none | some row ↦ (parse row >>= λ r. ok (some r)) ]

unfoldable pub events_after : Store → String → ℕ → Database → Result StoreError (List StoredEvent)
events_after s id sequence db = do
  assert_open s
  guard (leb sequence max_safe_integer) invalid_argument
  ok (select_events id sequence db)

unfoldable pub is_terminal : StoredRecord → Bool
is_terminal r = has_status "succeeded" r || has_status "failed" r || has_status "cancelled" r

-- INSERT ... ON CONFLICT DO NOTHING
unfoldable pub insert_cancellation : String → CancellationRequest → Database → Database
insert_cancellation id request db = elim (lookup id db.cancellation_requests) [
  | none ↦ record db { cancellation_requests = put id request db.cancellation_requests }
  | some _ ↦ db
]

unfoldable pub request_cancellation :
    Store
    → String
    → String
    → ℕ
    → Database
    → Result StoreError (Option CancellationRequest × Database)
request_cancellation s id source now db = do
  assert_open s
  assert_identifier source
  row ← expect (lookup id db.records) missing_record
  let request : CancellationRequest = record { record_id = id; requested_at = now; source = source }
  let db' = insert_cancellation id request db
  ok (
      if is_terminal row.record_json
      then (none, db)
      else (lookup id db'.cancellation_requests, db'))

unfoldable pub get_cancellation :
    Store → String → Database → Result StoreError (Option CancellationRequest)
get_cancellation s id db = assert_open s >> ok (lookup id db.cancellation_requests)
