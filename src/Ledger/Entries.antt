-- ===== src/Ledger/Entries.antt =====
-- The records of work orders, candidates, reviews and dispositions in their stores:
-- src/candidate-store.ts, src/review-store.ts and src/disposition-store.ts over
-- src/durable-record-store.ts.
use mathlib.Core.Option.{map}
use agentknot.Common.{List, Option, Result, String, [], none, ok, some, ℕ, ◌>>=◌, ◌∷◌}
use agentknot.Store.Records.{create, get}
use agentknot.Store.Sql.{Database}
use agentknot.Store.Types.{Store, StoreError, StoredEvent, StoredRecord}

-- The JSON text of what a record holds besides its id, time and events, and the way back.
pub record Codec (A : Type 0) : Type 0 where
  pub write : A → String
  pub read : String → A

-- A record of one of the immutable kinds: the fields of its request with an id, a time and events.
pub record Entry (A : Type 0) : Type 0 where
  pub id : String
  pub created_at : ℕ
  pub events : List StoredEvent
  pub input : A

-- The record of a request, with its one event, which names the record.
unfoldable pub new_entry : {A : Type 0} → String → ℕ → String → A → Entry A
new_entry id now type input = record {
  id = id;
  created_at = now;
  events = record { sequence = 1; at = now; type = type; body = id } ∷ [];
  input = input;
}

unfoldable pub to_stored : {A : Type 0} → Codec A → Entry A → StoredRecord
to_stored codec e = record {
  id = e.id;
  schema_version = some 1;
  status = none;
  created_at = e.created_at;
  updated_at = none;
  events = e.events;
  executor_job_id = none;
  route_name = none;
  body = codec.write e.input;
  revision = none;
}

unfoldable pub of_stored : {A : Type 0} → Codec A → StoredRecord → Entry A
of_stored codec r = record {
  id = r.id;
  created_at = r.created_at;
  events = r.events;
  input = codec.read r.body;
}

-- An open store with its database.
pub record Shelf : Type 0 where
  pub handle : Store
  pub rows : Database

-- `create` of the store of one kind
unfoldable pub create_entry : {A : Type 0} → Codec A → Entry A → Shelf → Result StoreError Shelf
create_entry codec e shelf = do
  (_, rows) ← create shelf.handle (to_stored codec e) shelf.rows
  ok (record shelf { rows = rows })

-- `get` of the store of one kind
unfoldable pub get_entry :
    {A : Type 0} → Codec A → String → Shelf → Result StoreError (Option (Entry A))
get_entry codec id shelf = do
  stored ← get shelf.handle id shelf.rows
  ok (map (of_stored codec) stored)
