-- ===== src/Store/Persistence.antt =====
-- What no call takes back: revisions, cancellation requests and idempotency keys.
use agentknot.Common.{
  >>=-eq-ok, Bool-cases, Option, Option-cases, String, ap, arith, expect-eq-ok, get_or, guard-eq-ok,
  inl, inr, length, lookup, lookup-put, lookup-put_self, none, ok, pair_eq, pair_eq_iff, pair_key,
  put, refl, some, subst, sym, text_eq, text_eq_iff, text_key, ℕ, ◌+◌, ◌==◌, ◌∙◌, ◌≡◌, ◌≤◌,
}
use agentknot.Store.Admission.{Idempotency, insert_idempotency}
use agentknot.Store.History.{materialize-Numbered}
use agentknot.Store.Records.{
  assert_lease, assert_not_cancelled, create, insert_new, parse, save, supports_save,
  write_snapshot,
}
use agentknot.Store.Sql.{Database, IdempotencyRow, RecordRow, insert_row, update_record}
use agentknot.Store.Types.{
  ExecutionLease, Store, StoredRecord, assert_open, materialize, serialize_bounded,
}

-- The record is still there, at the same revision or a later one.
abbrev pub RevisionGrows : Option RecordRow → Option RecordRow → Type 0
RevisionGrows none n = Unit
RevisionGrows (some row) n = (row' : RecordRow) × (n ≡ some row') × (row.revision ≤ row'.revision)

-- A row that is there is there unchanged.
abbrev pub Stays {ℓ} : {V : Type ℓ} → Option V → Option V → Type ℓ
Stays none n = Unit
Stays (some v) n = n ≡ some v

pub record Persists (db db' : Database) : Type 0 where
  pub revisions : (id : String) → RevisionGrows (lookup id db.records) (lookup id db'.records)
  pub cancellations :
      (id : String)
      → Stays (lookup id db.cancellation_requests) (lookup id db'.cancellation_requests)
  pub keys :
      (k : String × String) → Stays (lookup k db.idempotency_keys) (lookup k db'.idempotency_keys)

pub RevisionGrows-refl : (o : Option RecordRow) → RevisionGrows o o
RevisionGrows-refl none = tt
RevisionGrows-refl (some row) = (row, refl, omega arith)

RevisionGrows-trans :
    (o p q : Option RecordRow) → RevisionGrows o p → RevisionGrows p q → RevisionGrows o q
RevisionGrows-trans none p q g h = tt
RevisionGrows-trans (some row) p q (row', e, le) h =
    let (row'', f, le') = subst (λ t. RevisionGrows t q) e h in (row'', f, omega arith)

pub Stays-refl {ℓ} : {V : Type ℓ} (o : Option V) → Stays o o
Stays-refl none = tt
Stays-refl (some v) = refl

Stays-trans {ℓ} : {V : Type ℓ} (o p q : Option V) → Stays o p → Stays p q → Stays o q
Stays-trans none p q g h = tt
Stays-trans (some v) p q g h = subst (λ t. Stays t q) g h

pub Persists-refl : (db : Database) → Persists db db
Persists-refl db = record {
  revisions = λ id. RevisionGrows-refl (lookup id db.records);
  cancellations = λ id. Stays-refl (lookup id db.cancellation_requests);
  keys = λ k. Stays-refl (lookup k db.idempotency_keys);
}

pub Persists-trans : (a b c : Database) → Persists a b → Persists b c → Persists a c
Persists-trans a b c p q = record {
  revisions = λ id. RevisionGrows-trans (lookup id a.records) _ _ (p.revisions id) (q.revisions id);
  cancellations = λ id.
      Stays-trans (lookup id a.cancellation_requests) _ _ (p.cancellations id) (q.cancellations id);
  keys = λ k. Stays-trans (lookup k a.idempotency_keys) _ _ (p.keys k) (q.keys k);
}

-- The three tables are the same.
pub Persists-same :
    (db db' : Database)
    → db'.records ≡ db.records
    → db'.cancellation_requests ≡ db.cancellation_requests
    → db'.idempotency_keys ≡ db.idempotency_keys
    → Persists db db'
Persists-same db db' e f g = record {
  revisions = λ id.
      subst (λ t. RevisionGrows (lookup id db.records) (lookup id t)) (sym e)
        (RevisionGrows-refl _);
  cancellations = λ id.
      subst (λ t. Stays (lookup id db.cancellation_requests) (lookup id t)) (sym f) (Stays-refl _);
  keys = λ k. subst (λ t. Stays (lookup k db.idempotency_keys) (lookup k t)) (sym g) (Stays-refl _);
}

-- Only one record's row is written, as the new row of an absent one or with a later revision.
put_record-Persists :
    (id : String) (row : RecordRow) (db db' : Database)
    → RevisionGrows (lookup id db.records) (some row)
    → db'.records ≡ put id row db.records
    → db'.cancellation_requests ≡ db.cancellation_requests
    → db'.idempotency_keys ≡ db.idempotency_keys
    → Persists db db'
put_record-Persists id row db db' grows e f g = record {
  revisions = λ j. elim (Bool-cases (text_eq id j)) [
    | inl same ↦
        let found : lookup j db'.records ≡ some row =
          ap (lookup j) e ∙ lookup-put id j row db.records ∙ (rw same) in
        subst (RevisionGrows (lookup j db.records)) (sym found) (
          subst (λ k. RevisionGrows (lookup k db.records) (some row)) ((text_eq_iff id j).0 same)
            grows)
    | inr other ↦
        let found : lookup j db'.records ≡ lookup j db.records =
          ap (lookup j) e ∙ lookup-put id j row db.records ∙ (rw other) in
        subst (RevisionGrows (lookup j db.records)) (sym found) (RevisionGrows-refl _)
  ];
  cancellations = (Persists-same db (record db' { records = db.records }) refl f g).cancellations;
  keys = (Persists-same db (record db' { records = db.records }) refl f g).keys;
}

module _ (s : Store) where
  pub insert_new-Persists :
      (r : StoredRecord) (db db' : Database) → insert_new s r db ≡ ok db' → Persists db db'
  unfolding insert_new insert_row serialize_bounded
  insert_new-Persists r db db' h = elim (Option-cases (lookup r.id db.records)) [
    | inr (old, e) ↦ absurd (ground arith)
    | inl e ↦
        let row : RecordRow = record {
          created_at = r.created_at;
          updated_at = get_or r.updated_at r.created_at;
          revision = 1;
          event_sequence = length r.events;
          record_json = record r { revision = none };
        } in
        put_record-Persists r.id row db db' (subst (λ o. RevisionGrows o (some row)) (sym e) tt)
          (ground arith) (ground arith) (ground arith)
  ]

  -- A snapshot is written at the revision that was read, and raises it by one.
  pub write_snapshot-revision :
      (previous next : StoredRecord) (expected : ℕ) (row : RecordRow) (db db' : Database)
      → lookup next.id db.records ≡ some row
      → write_snapshot s previous next expected db ≡ ok db'
      → Persists db db'
        × ((row' : RecordRow) × (lookup next.id db'.records ≡ some row')
            × (row'.revision ≡ expected + 1))
  unfolding write_snapshot update_record serialize_bounded
  write_snapshot-revision previous next expected row db db' found h =
      let row' : RecordRow = record row {
        updated_at = get_or next.updated_at next.created_at;
        revision = row.revision + 1;
        event_sequence = length next.events;
        record_json = record next { revision = none };
      } in
      let e : db'.records ≡ put next.id row' db.records = ground arith in
      let grows : RevisionGrows (lookup next.id db.records) (some row') =
        subst (λ o. RevisionGrows o (some row')) (sym found) (row', refl, omega arith) in
      (
        put_record-Persists next.id row' db db' grows e (ground arith) (ground arith),
        (row', ap (lookup next.id) e ∙ lookup-put_self next.id row' db.records, ground arith),
      )

  pub insert_idempotency-Persists :
      (i : Option Idempotency) (r : StoredRecord) (db db' : Database)
      → insert_idempotency i r db ≡ ok db'
      → Persists db db'
  unfolding insert_idempotency
  insert_idempotency-Persists none r db db' h =
      Persists-same db db' (ground arith) (ground arith) (ground arith)
  insert_idempotency-Persists (some i) r db db' h =
      elim (Option-cases (lookup (i.scope, i.key) db.idempotency_keys)) [
        | inr (old, e) ↦ absurd (ground arith)
        | inl e ↦
            let row : IdempotencyRow = record {
              request_hash = i.request_hash;
              record_id = r.id;
              created_at = r.created_at;
            } in
            let kept =
              Persists-same db (record db' { idempotency_keys = db.idempotency_keys })
                (ground arith) (ground arith) refl in
            let written : db'.idempotency_keys ≡ put (i.scope, i.key) row db.idempotency_keys =
              ground arith in
            record {
              revisions = kept.revisions;
              cancellations = kept.cancellations;
              keys = λ k. elim (Bool-cases (pair_eq (i.scope, i.key) k)) [
                | inl same ↦
                    subst
                      (λ t. Stays (lookup t db.idempotency_keys) (lookup k db'.idempotency_keys))
                      ((pair_eq_iff (i.scope, i.key) k).0 same)
                      (subst (λ o. Stays o (lookup k db'.idempotency_keys)) (sym e) tt)
                | inr other ↦
                    let found : lookup k db'.idempotency_keys ≡ lookup k db.idempotency_keys =
                      ap (lookup k) written
                      ∙ lookup-put (i.scope, i.key) k row db.idempotency_keys
                      ∙ (rw other) in
                    subst (Stays (lookup k db.idempotency_keys)) (sym found) (Stays-refl _)
              ];
            }
      ]

  pub create-Persists :
      (r : StoredRecord) (db : Database) (a : StoredRecord × Database)
      → create s r db ≡ ok a
      → Persists db a.1
  unfolding create
  create-Persists r db a h =
      let (_, _, h₁) = >>=-eq-ok (assert_open s) _ h in
      let (n, _, h₂) = >>=-eq-ok (materialize s r) _ h₁ in
      let (db', i, h₃) = >>=-eq-ok (insert_new s n db) _ h₂ in
      let same : db' ≡ a.1 = ground arith in
      subst (Persists db) same (insert_new-Persists n db db' i)

  -- `save` writes at the caller's revision, and the row's is one more then.
  pub save-revision :
      (r : StoredRecord) (lease : Option ExecutionLease) (now : ℕ) (db : Database)
      (a : StoredRecord × Database)
      → save s r lease now db ≡ ok a
      → Persists db a.1
        × ((row row' : RecordRow) × (lookup r.id db.records ≡ some row)
            × (r.revision ≡ some row.revision)
            × (lookup r.id a.1.records ≡ some row')
            × (row'.revision ≡ row.revision + 1))
  unfolding save
  save-revision r lease now db a h =
      let (_, _, h₁) = >>=-eq-ok (assert_open s) _ h in
      let (_, h₂) = guard-eq-ok (supports_save s.kind) _ _ h₁ in
      let (expected, x, h₃) = expect-eq-ok r.revision _ _ h₂ in
      let (n, m, h₄) = >>=-eq-ok (materialize s r) _ h₃ in
      let (row, found, h₅) = expect-eq-ok (lookup n.id db.records) _ _ h₄ in
      let (current, h₆) = guard-eq-ok (row.revision == expected) _ _ h₅ in
      let (_, _, h₇) = >>=-eq-ok (assert_lease lease n.id now db) _ h₆ in
      let (_, _, h₈) = >>=-eq-ok (assert_not_cancelled n db) _ h₇ in
      let (previous, p, h₉) = >>=-eq-ok (parse row) _ h₈ in
      let (db', w, h₁₀) = >>=-eq-ok (write_snapshot s previous n expected db) _ h₉ in
      let (_, _, named) = materialize-Numbered s r n m in
      let same : db' ≡ a.1 = ground arith in
      let (kept, after) = write_snapshot-revision previous n expected row db db' found w in
      let (row', there, raised) = after in
      (
        subst (Persists db) same kept,
        (
          row,
          row',
          ap (λ (k : String). lookup k db.records) (sym named) ∙ found,
          ground arith,
          ap (λ (k : String). lookup k a.1.records) (sym named)
              ∙ ap (λ (d : Database). lookup n.id d.records) (sym same)
              ∙ there,
          ground arith,
        ),
      )
