-- ===== src/Ledger/OrderRows.antt =====
-- The rows of work orders under `create` and `bindWorkOrderExecutorJob` of
-- src/durable-record-store.ts.
use agentknot.Common.{
  >>=-eq-ok, Bool-cases, Option-cases, String, ap, arith, expect-eq-ok, get_or, guard-eq-ok,
  if◌then◌else◌, inl, inr, leb, length, lookup, lookup-put, none, ok, put, refl, some, subst,
  text_eq, text_eq_iff, text_key, ℕ, ◌&&◌, ◌+◌, ◌==◌, ◌∙◌, ◌≡◌,
}
use agentknot.Ledger.Services.{found}
use agentknot.Ledger.Shelves.{insert_new-lookup, new_row, stands}
use agentknot.Store.Records.{
  bind_executor_job, bind_unbound, create, has_status, insert_new, is_work_order, parse,
  write_snapshot,
}
use agentknot.Store.Sql.{Database, RecordRow, update_record}
use agentknot.Store.Types.{
  Store, StoredRecord, assert_identifier, assert_open, attach_revision, materialize,
  materialize_version, max_safe_integer, serialize_bounded,
}

-- Every row holds the record of its key.
unfoldable pub Keyed : Database → Type 0
Keyed db = (k : String) (row : RecordRow) → lookup k db.records ≡ some row → row.record_json.id ≡ k

-- A work order that has an executor Job keeps it.
unfoldable pub KeepsJobs : Database → Database → Type 0
KeepsJobs db db' =
    (k executor : String) (o : StoredRecord)
    → stands k db ≡ some o
    → o.executor_job_id ≡ some executor
    → (o' : StoredRecord) × (stands k db' ≡ some o') × (o'.executor_job_id ≡ some executor)

pub KeepsJobs-refl : (db : Database) → KeepsJobs db db
unfolding KeepsJobs
KeepsJobs-refl db k executor o there bound = (o, there, bound)

-- One row, that of `id`, is written.
WritesRow : String → Database → Database → Type 0
WritesRow id db db' =
    (row : RecordRow) × (row.record_json.id ≡ id)
    × ((k : String)
        → lookup k db'.records ≡ (if text_eq id k then some row else lookup k db.records))

WritesRow-Keyed : (id : String) (db db' : Database) → WritesRow id db db' → Keyed db → Keyed db'
unfolding WritesRow Keyed
WritesRow-Keyed id db db' (row, named, rows) keyed k other there =
    ground (arith, rows k, there, named, text_eq_iff id k, keyed k other)

WritesRow-KeepsJobs :
    (id : String) (db db' : Database)
    → WritesRow id db db'
    → ((o : StoredRecord) → stands id db ≡ some o → o.executor_job_id ≡ none)
    → KeepsJobs db db'
unfolding WritesRow KeepsJobs stands
WritesRow-KeepsJobs id db db' (row, named, rows) unbound k executor o there bound =
    elim (Bool-cases (text_eq id k)) [
      | inl is ↦
          let same : id ≡ k = (text_eq_iff id k).0 is in
          let free = unbound o (ap (λ (j : String). stands j db) same ∙ there) in cc
      | inr other ↦ (o, ground (arith, rows k, other, there), bound)
    ]

module _ (s : Store) where
  write_snapshot-WritesRow :
      (previous next : StoredRecord) (expected : ℕ) (db db' : Database)
      → write_snapshot s previous next expected db ≡ ok db'
      → WritesRow next.id db db'
  unfolding write_snapshot WritesRow update_record serialize_bounded
  write_snapshot-WritesRow previous next expected db db' h =
      elim (Option-cases (lookup next.id db.records)) [
        | inl missing ↦ ground (arith, h, missing)
        | inr (row, found) ↦
            let row' : RecordRow = record row {
              updated_at = get_or next.updated_at next.created_at;
              revision = row.revision + 1;
              event_sequence = length next.events;
              record_json = record next { revision = none };
            } in
            let e : db'.records ≡ put next.id row' db.records = ground (arith, h, found) in
            (row', refl, λ k. ground (arith, e, lookup-put next.id k row' db.records))
      ]

  parse-id : (row : RecordRow) (r : StoredRecord) → parse row ≡ ok r → r.id ≡ row.record_json.id
  unfolding parse materialize_version attach_revision
  parse-id row r h = ground arith

  materialize-id : (r n : StoredRecord) → materialize s r ≡ ok n → n.id ≡ r.id
  unfolding materialize materialize_version
  materialize-id r n h = ground arith

  bind_unbound-WritesRow :
      (id : String) (expected : ℕ) (executor : String) (at : ℕ) (row : RecordRow)
      (current : StoredRecord) (db : Database) (a : StoredRecord × Database)
      → current.id ≡ id
      → bind_unbound s id expected executor at row current db ≡ ok a
      → WritesRow id db a.1
  unfolding bind_unbound
  bind_unbound-WritesRow id expected executor at row current db a kept h =
      let (_, h₁) = guard-eq-ok (row.event_sequence == expected) _ _ h in
      let (n, m, h₂) = >>=-eq-ok (materialize s _) _ h₁ in
      let (db', w, h₃) = >>=-eq-ok (write_snapshot s current n row.revision db) _ h₂ in
      let same : db' ≡ a.1 = ground arith in
      subst (WritesRow id db) same (
        subst (λ (k : String). WritesRow k db db') (materialize-id _ n m ∙ kept)
          (write_snapshot-WritesRow current n row.revision db db' w))

  -- A binding keeps the bindings that are there.
  pub bind_executor_job-KeepsJobs :
      (id : String) (expected : ℕ) (executor : String) (at : ℕ) (db : Database)
      (a : StoredRecord × Database)
      → Keyed db
      → bind_executor_job s id expected executor at db ≡ ok a
      → KeepsJobs db a.1 × Keyed a.1
  unfolding bind_executor_job Keyed
  bind_executor_job-KeepsJobs id expected executor at db a keyed h =
      let (_, _, h₁) = >>=-eq-ok (assert_open s) _ h in
      let (_, h₂) = guard-eq-ok (is_work_order s.kind) _ _ h₁ in
      let (_, _, h₃) = >>=-eq-ok (assert_identifier id) _ h₂ in
      let (_, _, h₄) = >>=-eq-ok (assert_identifier executor) _ h₃ in
      let (_, h₅) = guard-eq-ok (leb 1 expected && leb expected max_safe_integer) _ _ h₄ in
      let (row, found, h₆) = expect-eq-ok (lookup id db.records) _ _ h₅ in
      let (current, p, h₇) = >>=-eq-ok (parse row) _ h₆ in
      let (_, h₈) = guard-eq-ok (has_status "issued" current) _ _ h₇ in
      let kept : current.id ≡ id = parse-id row current p ∙ keyed id row found in
      elim (Option-cases current.executor_job_id) [
        | inl none_yet ↦
            let writes =
              bind_unbound-WritesRow id expected executor at row current db a kept
                (ground (arith, h₈, none_yet)) in
            (
              WritesRow-KeepsJobs id db a.1 writes
                  (λ o there. unfold stands in ground (arith, there, found, p, none_yet)),
              WritesRow-Keyed id db a.1 writes keyed,
            )
        | inr (bound, is) ↦
            let same : db ≡ a.1 = ground (arith, h₈, is) in
            subst (λ (x : Database). KeepsJobs db x × Keyed x) same (KeepsJobs-refl db, keyed)
      ]

  -- A creation keeps the bindings that are there.
  pub create-KeepsJobs :
      (r : StoredRecord) (db : Database) (a : StoredRecord × Database)
      → r.schema_version ≡ some 1
      → Keyed db
      → create s r db ≡ ok a
      → KeepsJobs db a.1 × Keyed a.1
  unfolding create
  create-KeepsJobs r db a v keyed h =
      let (_, o, h₁) = >>=-eq-ok (assert_open s) _ h in
      let (n, m, h₂) = >>=-eq-ok (materialize s r) _ h₁ in
      let (db', i, h₃) = >>=-eq-ok (insert_new s n db) _ h₂ in
      let (free, rows) = insert_new-lookup s n db db' i in
      let same : db' ≡ a.1 = ground arith in
      let writes : WritesRow n.id db db' = unfold WritesRow in (new_row s n, refl, rows) in
      subst (λ (x : Database). KeepsJobs db x × Keyed x) same
        (
          WritesRow-KeepsJobs n.id db db' writes
              (λ o there. unfold stands in ground (arith, there, free)),
          WritesRow-Keyed n.id db db' writes keyed,
        )
