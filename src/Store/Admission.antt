-- ===== src/Store/Admission.antt =====
-- `admit` of src/durable-record-store.ts: a record, its idempotency key, its first lease and its
-- place in the capacity queue, in one transaction.
use agentknot.Common.{
  Option, Result, String, expect, guard, is_some, lookup, none, not, ok, pair_key, put, some,
  text_eq, text_key, ℕ, ◌>>=◌, ◌>>◌,
}
use agentknot.Store.Capacity.{is_job, try_acquire_capacity_in_transaction}
use agentknot.Store.Leases.{claim_lease_in_transaction}
use agentknot.Store.Records.{get, insert_new}
use agentknot.Store.Sql.{Database}
use agentknot.Store.Types.{
  ExecutionLease, RecordKind, Store, StoreError, StoredRecord, assert_capacity_limit,
  assert_identifier, assert_open, assert_ttl, attach_revision, constraint_failed,
  idempotency_conflict, invalid_argument, is_digest, materialize, missing_idempotent_record,
  no_admission_lease, unsupported_operation,
}

pub record Idempotency : Type 0 where
  pub scope : String
  pub key : String
  pub request_hash : String

pub record AdmissionOptions : Type 0 where
  pub owner_id : String
  pub ttl : ℕ
  pub capacity_limit : Option ℕ
  pub now : ℕ
  pub idempotency : Option Idempotency

pub data AdmissionResult : Type 0 where
  created : StoredRecord → ExecutionLease → AdmissionResult
  existing : StoredRecord → AdmissionResult

unfoldable pub assert_capacity_option : RecordKind → Option ℕ → Result StoreError (Unit {0})
assert_capacity_option kind none = ok tt
assert_capacity_option kind (some limit) =
    guard (is_job kind) unsupported_operation >> assert_capacity_limit limit

unfoldable pub assert_idempotency : Option Idempotency → Result StoreError (Unit {0})
assert_idempotency none = ok tt
assert_idempotency (some i) = do
  assert_identifier i.scope
  assert_identifier i.key
  guard (is_digest i.request_hash) invalid_argument

-- The record that an earlier admission stored under the key, if there is one.
unfoldable pub admitted_before : Option Idempotency → Database → Result StoreError (Option String)
admitted_before none db = ok none
admitted_before (some i) db = elim (lookup (i.scope, i.key) db.idempotency_keys) [
  | none ↦ ok none
  | some row ↦
      guard (text_eq row.request_hash i.request_hash) idempotency_conflict
      >> ok (some row.record_id)
]

unfoldable pub insert_idempotency :
    Option Idempotency → StoredRecord → Database → Result StoreError Database
insert_idempotency none r db = ok db
insert_idempotency (some i) r db = do
  guard (not (is_some (lookup (i.scope, i.key) db.idempotency_keys))) constraint_failed
  ok (record db {
    idempotency_keys =
        put (i.scope, i.key)
          (record { request_hash = i.request_hash; record_id = r.id; created_at = r.created_at })
          db.idempotency_keys;
  })

unfoldable pub admit_capacity :
    Option ℕ → ExecutionLease → ℕ → Database → Result StoreError Database
admit_capacity none lease now db = ok db
admit_capacity (some limit) lease now db =
    try_acquire_capacity_in_transaction lease limit now db >>= λ t. ok t.1

-- The inserts that `admit` and `admitRoutePool` share.
unfoldable pub admit_new :
    Store
    → StoredRecord
    → AdmissionOptions
    → Database
    → Result StoreError (ExecutionLease × Database)
admit_new s r options db = do
  inserted ← insert_new s r db
  keyed ← insert_idempotency options.idempotency r inserted
  (claimed, leased) ←
      claim_lease_in_transaction s.kind r.id options.owner_id options.ttl options.now keyed
  lease ← expect claimed no_admission_lease
  queued ← admit_capacity options.capacity_limit lease options.now leased
  ok (lease, queued)

unfoldable pub existing_record :
    Store → String → Database → Result StoreError (AdmissionResult × Database)
existing_record s id db = do
  found ← get s id db
  r ← expect found missing_idempotent_record
  ok (existing r, db)

-- The checks of `admit` on its arguments.
unfoldable pub check_admission : Store → AdmissionOptions → Result StoreError (Unit {0})
check_admission s options = do
  assert_open s
  assert_identifier options.owner_id
  assert_ttl options.ttl
  assert_capacity_option s.kind options.capacity_limit
  assert_idempotency options.idempotency

unfoldable pub admit :
    Store
    → StoredRecord
    → AdmissionOptions
    → Database
    → Result StoreError (AdmissionResult × Database)
admit s r options db = do
  checked ← check_admission s options
  normalized ← materialize s r
  before ← admitted_before options.idempotency db
  elim before [
    | some id ↦ existing_record s id db
    | none ↦
        (admit_new s normalized options db >>= λ a. ok (created (attach_revision r 1) a.0, a.1))
  ]

unfoldable pub find_idempotent :
    Store → String → String → Database → Result StoreError (Option StoredRecord)
find_idempotent s scope key db = do
  assert_open s
  assert_identifier scope
  assert_identifier key
  elim (lookup (scope, key) db.idempotency_keys) [
    | none ↦ ok none
    | some row ↦
        (get s row.record_id db >>= λ found.
        expect found missing_idempotent_record >>= λ r. ok (some r))
  ]
