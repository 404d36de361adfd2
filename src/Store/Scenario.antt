-- ===== src/Store/Scenario.antt =====
-- A small database of src/durable-record-store.ts, and how a few calls change it.
use agentknot.Common.{List, Option, String, [], false, none, pair_key, some, text_key, ℕ, ◌+◌, ◌∷◌}
use agentknot.Store.Admission.{AdmissionOptions, Idempotency}
use agentknot.Store.Sql.{CapacityRow, Database, IdempotencyRow, LeaseRow, RecordRow}
use agentknot.Store.Types.{
  CancellationRequest, ExecutionLease, Store, StoredEvent, StoredRecord, attach_revision, job,
}

abbrev pub job_store : Store
job_store = record { kind = job; closed = false; record_bytes = λ r. 1000 }

abbrev pub started : ℕ → StoredEvent
started n = record { sequence = n; at = 10; type = "job.started"; body = "" }

abbrev pub job_record : String → Option String → List StoredEvent → Option ℕ → StoredRecord
job_record id status events revision = record {
  id = id;
  schema_version = some 1;
  status = status;
  created_at = 10;
  updated_at = some 10;
  events = events;
  executor_job_id = none;
  route_name = some "fast";
  body = "";
  revision = revision;
}

abbrev pub digest : String
digest = "0123456789abcdef0123456789abcdef0123456789abcdef0123456789abcdef"

abbrev pub keyed : String → Idempotency
keyed key = record { scope = "jobs"; key = key; request_hash = digest }

abbrev pub admission : String → String → Option ℕ → AdmissionOptions
admission owner key limit = record {
  owner_id = owner;
  ttl = 100;
  capacity_limit = limit;
  now = 10;
  idempotency = some (keyed key);
}

abbrev pub lease : String → String → ℕ → ExecutionLease
lease id owner at = record {
  record_id = id;
  owner_id = owner;
  fence = 1;
  acquired_at = at;
  heartbeat_at = at;
  expires_at = at + 100;
}

abbrev pub first : StoredRecord
first = job_record "job_1" (some "queued") (started 1 ∷ []) none

abbrev pub second : StoredRecord
second = job_record "job_2" (some "queued") (started 1 ∷ []) none

abbrev pub third : StoredRecord
third = job_record "job_3" (some "queued") [] none

abbrev pub read : StoredRecord → StoredRecord
read r = attach_revision r 1

abbrev pub running : StoredRecord
running = job_record "job_1" (some "running") (started 1 ∷ started 2 ∷ []) (some 1)

abbrev pub done : StoredRecord
done = job_record "job_1" (some "succeeded") (started 1 ∷ started 2 ∷ []) (some 2)

abbrev pub cancellation : CancellationRequest
cancellation = record { record_id = "job_1"; requested_at = 30; source = "http" }

abbrev pub record_row : StoredRecord → ℕ → ℕ → RecordRow
record_row r revision events = record {
  created_at = 10;
  updated_at = 10;
  revision = revision;
  event_sequence = events;
  record_json = record r { revision = none };
}

abbrev pub lease_row : String → ℕ → ℕ → LeaseRow
lease_row owner fence at = record {
  owner_id = owner;
  fence = fence;
  acquired_at = at;
  heartbeat_at = at;
  expires_at = at + 100;
}

abbrev pub key_row : String → IdempotencyRow
key_row id = record { request_hash = digest; record_id = id; created_at = 10 }

abbrev pub capacity_row : String → String → Option ℕ → CapacityRow
capacity_row id owner at = record { record_id = id; owner_id = owner; fence = 1; acquired_at = at }

-- The database after each call of `calls`.
abbrev pub db_1 : Database
db_1 = record {
  records = ("job_1", record_row first 1 1) ∷ [];
  events = ("job_1", started 1 ∷ []) ∷ [];
  idempotency_keys = (("jobs", "one"), key_row "job_1") ∷ [];
  execution_leases = ("job_1", lease_row "alice" 1 10) ∷ [];
  cancellation_requests = [];
  route_pool_cursors = [];
  execution_capacity = capacity_row "job_1" "alice" (some 10) ∷ [];
}

abbrev pub db_2 : Database
db_2 = record {
  records = ("job_1", record_row first 1 1) ∷ ("job_2", record_row second 1 1) ∷ [];
  events = ("job_1", started 1 ∷ []) ∷ ("job_2", started 1 ∷ []) ∷ [];
  idempotency_keys = (("jobs", "one"), key_row "job_1") ∷ (("jobs", "two"), key_row "job_2") ∷ [];
  execution_leases = ("job_1", lease_row "alice" 1 10) ∷ ("job_2", lease_row "bob" 1 10) ∷ [];
  cancellation_requests = [];
  route_pool_cursors = [];
  execution_capacity =
      capacity_row "job_1" "alice" (some 10) ∷ capacity_row "job_2" "bob" none ∷ [];
}

abbrev pub db_3 : Database
db_3 = record db_2 {
  records =
      ("job_1", record_row first 1 1)
      ∷ ("job_2", record_row second 1 1)
      ∷ ("job_3", record_row third 1 0)
      ∷ [];
  events = ("job_1", started 1 ∷ []) ∷ ("job_2", started 1 ∷ []) ∷ ("job_3", []) ∷ [];
  idempotency_keys =
      (("jobs", "one"), key_row "job_1")
      ∷ (("jobs", "two"), key_row "job_2")
      ∷ (("jobs", "three"), key_row "job_3")
      ∷ [];
  execution_leases =
      ("job_1", lease_row "alice" 1 10)
      ∷ ("job_2", lease_row "bob" 1 10)
      ∷ ("job_3", lease_row "carol" 1 10)
      ∷ [];
}

abbrev pub db_3_queued : Database
db_3_queued = record db_3 {
  execution_capacity =
      capacity_row "job_1" "alice" (some 10)
      ∷ capacity_row "job_2" "bob" none
      ∷ capacity_row "job_3" "carol" none
      ∷ [];
}

abbrev pub db_4 : Database
db_4 = record db_3 {
  records =
      ("job_1", record_row running 2 2)
      ∷ ("job_2", record_row second 1 1)
      ∷ ("job_3", record_row third 1 0)
      ∷ [];
  events = ("job_1", started 1 ∷ started 2 ∷ []) ∷ ("job_2", started 1 ∷ []) ∷ ("job_3", []) ∷ [];
}

abbrev pub db_5 : Database
db_5 = record db_4 { cancellation_requests = ("job_1", cancellation) ∷ [] }

abbrev pub db_6 : Database
db_6 = record db_5 {
  execution_leases =
      ("job_1", lease_row "bob" 2 200)
      ∷ ("job_2", lease_row "bob" 1 10)
      ∷ ("job_3", lease_row "carol" 1 10)
      ∷ [];
  execution_capacity =
      record (capacity_row "job_1" "bob" (some 10)) { fence = 2 }
      ∷ capacity_row "job_2" "bob" none
      ∷ [];
}

abbrev pub bob_lease : ExecutionLease
bob_lease = record {
  record_id = "job_1";
  owner_id = "bob";
  fence = 2;
  acquired_at = 200;
  heartbeat_at = 200;
  expires_at = 300;
}
