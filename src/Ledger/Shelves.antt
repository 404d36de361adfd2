-- ===== src/Ledger/Shelves.antt =====
-- What the tables of the durable record store hold after a creation in src/durable-record-store.ts,
-- read back as `get` reads them.
use agentknot.Common.{
  >>=-eq-ok, Option, Result, String, arith, err, false, get_or, guard-eq-ok, if◌then◌else◌, is_some,
  length, lookup, lookup-put, none, not, ok, some, subst, text_eq, text_key, ◌>>=◌, ◌↔◌, ◌≡◌,
}
use agentknot.Store.Records.{create, get, insert_new, parse}
use agentknot.Store.Sql.{Database, RecordRow, event_rows, insert_events, insert_row}
use agentknot.Store.Types.{
  Store, StoreError, StoredRecord, assert_events, assert_open, attach_revision, materialize,
  materialize_version, serialize_bounded,
}

abbrev pub to_option : {A : Type 0} → Result StoreError A → Option A
to_option (ok a) = some a
to_option (err e) = none

abbrev pub parsed : Option RecordRow → Option StoredRecord
parsed none = none
parsed (some row) = to_option (parse row)

-- The record that a database has under an id, if it can be read.
unfoldable pub stands : String → Database → Option StoredRecord
stands id db = parsed (lookup id db.records)

of_parse : Result StoreError StoredRecord → Result StoreError (Option StoredRecord)
of_parse call = call >>= λ (r : StoredRecord). ok (some r)

of_get : Option RecordRow → Result StoreError (Option StoredRecord)
of_get none = ok none
of_get (some row) = of_parse (parse row)

of_parse-eq-some :
    (call : Result StoreError StoredRecord) (r : StoredRecord)
    → (of_parse call ≡ ok (some r)) ↔ (to_option call ≡ some r)
unfolding of_parse
of_parse-eq-some (ok q) r = (λ h. ground (arith, h), λ h. ground (arith, h))
of_parse-eq-some (err e) r = (λ h. cc, λ h. cc)

of_get-eq-some :
    (o : Option RecordRow) (r : StoredRecord) → (of_get o ≡ ok (some r)) ↔ (parsed o ≡ some r)
unfolding of_get
of_get-eq-some none r = (λ h. cc, λ h. cc)
of_get-eq-some (some row) r = of_parse-eq-some (parse row) r

module _ (s : Store) where
  pub get-stands :
      (id : String) (db : Database) (r : StoredRecord)
      → get s id db ≡ ok (some r)
      → (s.closed ≡ false) × (stands id db ≡ some r)
  unfolding get stands assert_open of_get of_parse
  get-stands id db r h =
      let (o, p) = guard-eq-ok (not s.closed) _ _ h in
      (ground arith, (of_get-eq-some (lookup id db.records) r).0 (ground (arith, p)))

  pub stands-get :
      (id : String) (db : Database) (r : StoredRecord)
      → s.closed ≡ false
      → stands id db ≡ some r
      → get s id db ≡ ok (some r)
  unfolding get stands assert_open of_get of_parse
  stands-get id db r o h =
      let p = (of_get-eq-some (lookup id db.records) r).1 h in ground (arith, o, p)

  -- The row that `#insertNew` writes.
  abbrev pub new_row : StoredRecord → RecordRow
  new_row r = record {
    created_at = r.created_at;
    updated_at = get_or r.updated_at r.created_at;
    revision = 1;
    event_sequence = length r.events;
    record_json = record r { revision = none };
  }

  pub insert_new-lookup :
      (r : StoredRecord) (db db' : Database)
      → insert_new s r db ≡ ok db'
      → (lookup r.id db.records ≡ none)
        × ((k : String)
            → lookup k db'.records
              ≡ (if text_eq r.id k then some (new_row r) else lookup k db.records))
  unfolding insert_new insert_row
  insert_new-lookup r db db' h =
      let (json, z, h₁) = >>=-eq-ok (serialize_bounded s r) _ h in
      let (records, i, h₂) = >>=-eq-ok (insert_row r.id _ db.records) _ h₁ in
      let (rows, e, h₃) = >>=-eq-ok (insert_events r.events (event_rows r.id db)) _ h₂ in
      let (n, w) = guard-eq-ok (not (is_some (lookup r.id db.records))) _ _ i in
      let is : json ≡ record r { revision = none } = unfold serialize_bounded in ground arith in
      let kept : db'.records ≡ records = ground arith in
      (ground arith, λ k. ground (arith, lookup-put r.id k (new_row r) db.records, is, kept, w))

  materialize-same :
      (r n : StoredRecord)
      → r.schema_version ≡ some 1
      → materialize s r ≡ ok n
      → (n ≡ r) × (assert_events r.events ≡ ok tt)
  unfolding materialize
  materialize-same r n v h =
      let (m, w, h₁) = >>=-eq-ok (materialize_version r) _ h in
      let (_, e, h₂) = >>=-eq-ok (assert_events m.events) _ h₁ in
      let (_, z, h₃) = >>=-eq-ok (serialize_bounded s m) _ h₂ in
      let is : m ≡ r = unfold materialize_version in ground (arith, v, w) in
      (ground (arith, h₃, is), subst (λ (q : StoredRecord). assert_events q.events ≡ ok tt) is e)

  parse-new_row :
      (r : StoredRecord)
      → r.schema_version ≡ some 1
      → assert_events r.events ≡ ok tt
      → parse (new_row r) ≡ ok (attach_revision r 1)
  unfolding parse materialize_version attach_revision
  parse-new_row r v e = ground (arith, v, e)

  -- A creation adds one record under a free id.
  pub create-stands :
      (r : StoredRecord) (db : Database) (a : StoredRecord × Database)
      → r.schema_version ≡ some 1
      → create s r db ≡ ok a
      → (stands r.id db ≡ none)
        × ((k : String)
            → stands k a.1 ≡ (if text_eq r.id k then some (attach_revision r 1) else stands k db))
  unfolding create stands
  create-stands r db a v h =
      let (_, o, h₁) = >>=-eq-ok (assert_open s) _ h in
      let (n, m, h₂) = >>=-eq-ok (materialize s r) _ h₁ in
      let (db', i, h₃) = >>=-eq-ok (insert_new s n db) _ h₂ in
      let (same, e) = materialize-same r n v m in
      let (free, rows) = insert_new-lookup n db db' i in
      let stored : a.1 ≡ db' = ground arith in
      let read = parse-new_row r v e in
      (ground (arith, same, free), λ k. ground (arith, same, rows k, stored, read))
