-- ===== src/Store/Sql.antt =====
-- The SQLite tables of src/durable-record-store.ts and its prepared statements.
-- A table is kept in the order of its primary key where the program orders by that key: `events`
-- by record and sequence, `execution_capacity` by its AUTOINCREMENT sequence.
use agentknot.Common.{
  Bool, List, Option, Result, String, Table, [], err, get_or, guard, if◌then◌else◌, is_some, keep,
  lookup, ltb, none, not, ok, put, some, text_key, ℕ, ◌+◌, ◌==◌, ◌>>=◌, ◌>>◌, ◌∷◌,
}
use agentknot.Store.Types.{
  CancellationRequest, StoreError, StoredEvent, StoredRecord, constraint_failed,
}

pub record RecordRow : Type 0 where
  pub created_at : ℕ
  pub updated_at : ℕ
  pub revision : ℕ
  pub event_sequence : ℕ
  pub record_json : StoredRecord

pub record LeaseRow : Type 0 where
  pub owner_id : String
  pub fence : ℕ
  pub acquired_at : ℕ
  pub heartbeat_at : ℕ
  pub expires_at : ℕ

pub record IdempotencyRow : Type 0 where
  pub request_hash : String
  pub record_id : String
  pub created_at : ℕ

pub record CapacityRow : Type 0 where
  pub record_id : String
  pub owner_id : String
  pub fence : ℕ
  pub acquired_at : Option ℕ

pub record Database : Type 0 where
  pub records : Table String RecordRow
  pub events : Table String (List StoredEvent)
  pub idempotency_keys : Table (String × String) IdempotencyRow
  pub execution_leases : Table String LeaseRow
  pub cancellation_requests : Table String CancellationRequest
  pub route_pool_cursors : Table String ℕ
  pub execution_capacity : List CapacityRow

unfoldable pub empty_database : Database
empty_database = record {
  records = [];
  events = [];
  idempotency_keys = [];
  execution_leases = [];
  cancellation_requests = [];
  route_pool_cursors = [];
  execution_capacity = [];
}

-- INSERT of a row into a table with a primary key.
unfoldable pub insert_row {ℓ} :
    {V : Type ℓ} → String → V → Table String V → Result StoreError (Table String V)
insert_row k v m = guard (not (is_some (lookup k m))) constraint_failed >> ok (put k v m)

abbrev pub event_rows : String → Database → List StoredEvent
event_rows id db = get_or (lookup id db.events) []

-- INSERT INTO events, within the rows of one record.
unfoldable pub insert_event : StoredEvent → List StoredEvent → Result StoreError (List StoredEvent)
insert_event e [] = ok (e ∷ [])
insert_event e (f ∷ fs) =
    let rest = insert_event e fs in
    if e.sequence == f.sequence
    then err constraint_failed
    else if ltb e.sequence f.sequence
    then ok (e ∷ f ∷ fs)
    else (rest >>= λ es. ok (f ∷ es))

unfoldable pub insert_events :
    List StoredEvent → List StoredEvent → Result StoreError (List StoredEvent)
insert_events [] rows = ok rows
insert_events (e ∷ es) rows = insert_event e rows >>= insert_events es

-- SELECT event_json FROM events WHERE record_id = ? AND sequence > ? ORDER BY sequence
unfoldable pub select_events : String → ℕ → Database → List StoredEvent
select_events id sequence db = keep (λ e. ltb sequence e.sequence) (event_rows id db)

-- UPDATE records SET ..., revision = revision + 1 WHERE id = ? AND revision = ?
unfoldable pub update_record :
    String → ℕ → ℕ → StoredRecord → ℕ → Table String RecordRow → Table String RecordRow × ℕ
update_record id updated sequence json expected rows = elim (lookup id rows) [
  | none ↦ (rows, 0)
  | some row ↦
      if row.revision == expected
      then (
        put id
            (record row {
              updated_at = updated;
              revision = row.revision + 1;
              event_sequence = sequence;
              record_json = json;
            })
            rows,
        1,
      )
      else (rows, 0)
]

-- UPDATE execution_leases SET ... WHERE record_id = ? AND ...
unfoldable pub update_lease :
    String
    → (LeaseRow → Bool)
    → (LeaseRow → LeaseRow)
    → Table String LeaseRow
    → Table String LeaseRow × ℕ
update_lease id test change rows = elim (lookup id rows) [
  | none ↦ (rows, 0)
  | some row ↦ if test row then (put id (change row) rows, 1) else (rows, 0)
]

-- UPDATE execution_capacity SET ... WHERE ...
unfoldable pub update_capacity :
    (CapacityRow → Bool) → (CapacityRow → CapacityRow) → List CapacityRow → List CapacityRow
update_capacity test change [] = []
update_capacity test change (r ∷ rs) =
    (if test r then change r else r) ∷ update_capacity test change rs
