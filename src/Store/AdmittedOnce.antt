-- ===== src/Store/AdmittedOnce.antt =====
-- The promise of an idempotency key of src/durable-record-store.ts.
use agentknot.Common.{
  >>=-eq-ok, Option, Option-cases, String, ap, arith, expect-eq-ok, inl, inr, lookup,
  lookup-put_self, ok, pair_key, put, refl, some, subst, sym, text_eq_iff, text_key, ℕ, ◌∙◌, ◌≡◌,
}
use agentknot.Store.Admission.{
  AdmissionOptions, AdmissionResult, Idempotency, admit, admit_capacity, admit_new, admitted_before,
  check_admission, created, existing, existing_record, insert_idempotency,
}
use agentknot.Store.Capacity.{try_acquire_capacity_in_transaction}
use agentknot.Store.EventLog.{IsLogged, IsWellFormed, RowIsLogged}
use agentknot.Store.History.{Reach-LogMoves, Step-LogMoves, materialize-Numbered, parse-events}
use agentknot.Store.Leases.{claim_existing, claim_first, claim_lease_in_transaction}
use agentknot.Store.Permanence.{Reach-Persists}
use agentknot.Store.Persistence.{Stays}
use agentknot.Store.Records.{get, insert_new, parse}
use agentknot.Store.Sql.{Database, IdempotencyRow}
use agentknot.Store.Steps.{IsWithin, Reach, Step}
use agentknot.Store.Types.{
  ExecutionLease, Store, StoredRecord, assert_open, materialize, missing_idempotent_record,
}

keyed_row :
    (i : Idempotency) (r : StoredRecord) (db db' : Database)
    → insert_idempotency (some i) r db ≡ ok db'
    → (row : IdempotencyRow) × (lookup (i.scope, i.key) db'.idempotency_keys ≡ some row)
      × (row.request_hash ≡ i.request_hash)
      × (row.record_id ≡ r.id)
unfolding insert_idempotency
keyed_row i r db db' h =
    let row : IdempotencyRow = record {
      request_hash = i.request_hash;
      record_id = r.id;
      created_at = r.created_at;
    } in
    let written : db'.idempotency_keys ≡ put (i.scope, i.key) row db.idempotency_keys =
      ground arith in
    (
      row,
      ap (lookup (i.scope, i.key)) written
          ∙ lookup-put_self (i.scope, i.key) row db.idempotency_keys,
      refl,
      refl,
    )

admitted_key :
    (s : Store) (r : StoredRecord) (options : AdmissionOptions) (i : Idempotency) (db : Database)
    (a : ExecutionLease × Database)
    → options.idempotency ≡ some i
    → admit_new s r options db ≡ ok a
    → (row : IdempotencyRow) × (lookup (i.scope, i.key) a.1.idempotency_keys ≡ some row)
      × (row.request_hash ≡ i.request_hash)
      × (row.record_id ≡ r.id)
unfolding admit_new claim_lease_in_transaction claim_first claim_existing admit_capacity
    try_acquire_capacity_in_transaction
admitted_key s r options i db a o h =
    let (db₁, _, h₁) = >>=-eq-ok (insert_new s r db) _ h in
    let (db₂, k, h₂) = >>=-eq-ok (insert_idempotency options.idempotency r db₁) _ h₁ in
    let (row, found, hash, named) =
      keyed_row i r db₁ db₂
        (ap (λ (t : Option Idempotency). insert_idempotency t r db₁) (sym o) ∙ k) in
    let same : a.1.idempotency_keys ≡ db₂.idempotency_keys = ground arith in
    (row, ap (lookup (i.scope, i.key)) same ∙ found, hash, named)

repeated :
    (s : Store) (r : StoredRecord) (options : AdmissionOptions) (i : Idempotency)
    (row : IdempotencyRow) (db : Database) (a : AdmissionResult × Database)
    → options.idempotency ≡ some i
    → lookup (i.scope, i.key) db.idempotency_keys ≡ some row
    → admit s r options db ≡ ok a
    → (existing_record s row.record_id db ≡ ok a) × (row.request_hash ≡ i.request_hash)
unfolding admit admitted_before
repeated s r options i row db a o found h =
    ground (arith, text_eq_iff row.request_hash i.request_hash)

got_record :
    (s : Store) (id : String) (db : Database) (e : StoredRecord)
    → IsWellFormed db
    → get s id db ≡ ok (some e)
    → e.id ≡ id
unfolding get
got_record s id db e wf h = elim (Option-cases (lookup id db.records)) [
  | inl absent ↦ ground arith
  | inr (row, found) ↦
      let v : IsLogged db id row = subst (RowIsLogged db id) found (wf id) in
      let (_, _, h₁) = >>=-eq-ok (assert_open s) _ h in
      let p : parse row ≡ ok e = ground arith in (parse-events row e p).1 ∙ v.named
]

found_record :
    (s : Store) (id : String) (db : Database) (a : AdmissionResult × Database)
    → IsWellFormed db
    → existing_record s id db ≡ ok a
    → (e : StoredRecord) × (a ≡ (existing e, db)) × (e.id ≡ id)
unfolding existing_record get
found_record s id db a wf h =
    let (found, g, h₁) = >>=-eq-ok (get s id db) _ h in
    let (e, there, h₂) = expect-eq-ok found missing_idempotent_record _ h₁ in
    (e, ground arith, got_record s id db e wf (g ∙ ap ok there))

admit-created :
    (s : Store) (r c : StoredRecord) (l : ExecutionLease) (options : AdmissionOptions)
    (db d : Database)
    → admit s r options db ≡ ok (created c l, d)
    → (n : StoredRecord) × (b : ExecutionLease × Database) × (materialize s r ≡ ok n)
      × (admit_new s n options db ≡ ok b)
      × (b.1 ≡ d)
unfolding admit existing_record
admit-created s r c l options db d h =
    let (_, _, h₁) = >>=-eq-ok (check_admission s options) _ h in
    let (n, m, h₂) = >>=-eq-ok (materialize s r) _ h₁ in
    let (before, p, h₃) = >>=-eq-ok (admitted_before options.idempotency db) _ h₂ in
    elim (Option-cases before) [
      | inl e ↦
          let (b, q, h₄) = >>=-eq-ok (admit_new s n options db) _ (rw e at h₃) in
          (n, b, m, q, ground arith)
      | inr (id, e) ↦ ground arith
    ]

-- A key admits one record: once an admission under it has created a record in a well-formed
-- database, with a capacity limit within the bound of the history, then whatever is called
-- in between, an admission under the same scope and key that succeeds has the same request hash,
-- writes nothing, and hands back a version of that record.
pub admitted_once :
    {bound : ℕ} {d d' : Database} (s s' : Store) (r r' created_record : StoredRecord)
    (lease : ExecutionLease) (options options' : AdmissionOptions) (i i' : Idempotency)
    (db : Database) (b : AdmissionResult × Database)
    → IsWellFormed db
    → IsWithin bound options.capacity_limit
    → options.idempotency ≡ some i
    → admit s r options db ≡ ok (created created_record lease, d)
    → Reach bound d d'
    → options'.idempotency ≡ some i'
    → i'.scope ≡ i.scope
    → i'.key ≡ i.key
    → admit s' r' options' d' ≡ ok b
    → (i'.request_hash ≡ i.request_hash)
      × ((e : StoredRecord) × (b ≡ (existing e, d')) × (e.id ≡ r.id))
admitted_once {bound} {d} {d'} s s' r r' created_record lease options options' i i' db b wf w o
      first reach o' scope key second =
    let (n, a, m, q, same) = admit-created s r created_record lease options db d first in
    let (_, _, named) = materialize-Numbered s r n m in
    let (row, found, hash, row_named) = admitted_key s n options i db a o q in
    let wf_d = (Step-LogMoves {bound = bound} (Step.admits s r options w first) wf).0 in
    let persists = Reach-Persists reach wf_d in
    let wf_d' = (Reach-LogMoves reach wf_d).0 in
    let at_d : lookup (i.scope, i.key) d.idempotency_keys ≡ some row =
      ap (λ (x : Database). lookup (i.scope, i.key) x.idempotency_keys) (sym same) ∙ found in
    let kept : lookup (i.scope, i.key) d'.idempotency_keys ≡ some row =
      subst (λ t. Stays t (lookup (i.scope, i.key) d'.idempotency_keys)) at_d
        (persists.keys (i.scope, i.key)) in
    let kept' : lookup (i'.scope, i'.key) d'.idempotency_keys ≡ some row =
      ap (λ (k : String). lookup (k, i'.key) d'.idempotency_keys) scope
      ∙ ap (λ (k : String). lookup (i.scope, k) d'.idempotency_keys) key
      ∙ kept in
    let (again, same_hash) = repeated s' r' options' i' row d' b o' kept' second in
    let (e, is, e_named) = found_record s' row.record_id d' b wf_d' again in
    (sym same_hash ∙ hash, (e, is, e_named ∙ row_named ∙ named))
