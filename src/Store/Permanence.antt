-- ===== src/Store/Permanence.antt =====
-- Revisions, cancellation requests and idempotency keys over whole histories.
use agentknot.Common.{
  >>=-eq-ok, Bool-cases, Option, Option-cases, String, Table, ap, arith, expect-eq-ok, guard-eq-ok,
  inl, inr, leb, lookup, lookup-put, none, ok, pair_key, put, refl, some, subst, sym, text_eq,
  text_eq_iff, text_key, ℕ, ◌&&◌, ◌==◌, ◌∙◌, ◌≡◌, ◌⊎◌,
}
use agentknot.Store.Admission.{AdmissionOptions, admit_capacity, admit_new, insert_idempotency}
use agentknot.Store.AdmissionCases.{admit-cases, admit_route_pool-cases}
use agentknot.Store.Capacity.{
  release_capacity, try_acquire_capacity, try_acquire_capacity_in_transaction,
}
use agentknot.Store.EventLog.{IsLogged, IsWellFormed, RowIsLogged}
use agentknot.Store.History.{Reach-LogMoves, materialize-Numbered, parse-events}
use agentknot.Store.Leases.{
  claim_existing, claim_first, claim_lease, claim_lease_in_transaction, release_lease, renew_lease,
}
use agentknot.Store.Persistence.{
  Persists, Persists-refl, Persists-same, Persists-trans, Stays, Stays-refl, create-Persists,
  insert_idempotency-Persists, insert_new-Persists, save-revision, write_snapshot-revision,
}
use agentknot.Store.Records.{
  bind_executor_job, bind_unbound, has_status, insert_cancellation, insert_new, is_work_order,
  parse, request_cancellation, write_snapshot,
}
use agentknot.Store.Sql.{Database, RecordRow}
use agentknot.Store.Steps.{Reach, Step, extended, unmoved}
use agentknot.Store.Types.{
  CancellationRequest, ExecutionLease, Store, StoredRecord, assert_identifier, assert_open,
  materialize, max_safe_integer,
}

put_absent-Stays {ℓ} :
    {V : Type ℓ} (id j : String) (v : V) (m : Table String V)
    → lookup id m ≡ none
    → Stays (lookup j m) (lookup j (put id v m))
put_absent-Stays id j v m e = elim (Bool-cases (text_eq id j)) [
  | inl same ↦
      subst (λ t. Stays (lookup t m) (lookup j (put id v m))) ((text_eq_iff id j).0 same)
        (subst (λ o. Stays o (lookup j (put id v m))) (sym e) tt)
  | inr other ↦
      subst (Stays (lookup j m)) (sym (lookup-put id j v m ∙ (rw other))) (Stays-refl (lookup j m))
]

module _ (s : Store) where
  admit_new-Persists :
      (r : StoredRecord) (options : AdmissionOptions) (db : Database)
      (a : ExecutionLease × Database)
      → admit_new s r options db ≡ ok a
      → Persists db a.1
  unfolding admit_new claim_lease_in_transaction claim_first claim_existing admit_capacity
      try_acquire_capacity_in_transaction
  admit_new-Persists r options db a h =
      let (db₁, i, h₁) = >>=-eq-ok (insert_new s r db) _ h in
      let (db₂, k, h₂) = >>=-eq-ok (insert_idempotency options.idempotency r db₁) _ h₁ in
      let rest = Persists-same db₂ a.1 (ground arith) (ground arith) (ground arith) in
      Persists-trans db db₁ a.1 (insert_new-Persists s r db db₁ i) (
        Persists-trans db₁ db₂ a.1 (insert_idempotency-Persists s options.idempotency r db₁ db₂ k)
          rest)

  bind_unbound-Persists :
      (id : String) (expected : ℕ) (executor : String) (at : ℕ) (row : RecordRow)
      (current : StoredRecord) (db : Database) (a : StoredRecord × Database)
      → lookup id db.records ≡ some row
      → current.id ≡ id
      → bind_unbound s id expected executor at row current db ≡ ok a
      → Persists db a.1
  unfolding bind_unbound
  bind_unbound-Persists id expected executor at row current db a found kept h =
      let (_, h₁) = guard-eq-ok (row.event_sequence == expected) _ _ h in
      let (n, m, h₂) = >>=-eq-ok (materialize s _) _ h₁ in
      let (db', w, h₃) = >>=-eq-ok (write_snapshot s current n row.revision db) _ h₂ in
      let (_, _, named) = materialize-Numbered s _ n m in
      let there : lookup n.id db.records ≡ some row =
        ap (λ (k : String). lookup k db.records) (named ∙ kept) ∙ found in
      let same : db' ≡ a.1 = ground arith in
      subst (Persists db) same
        (write_snapshot-revision s current n row.revision row db db' there w).0

  -- A successful `bindExecutorJob` of a WorkOrder that is bound already writes nothing; of one that
  -- is not, it goes through `bind_unbound`.
  bind_executor_job-cases :
      (id : String) (expected : ℕ) (executor : String) (at : ℕ) (db : Database)
      (a : StoredRecord × Database)
      → bind_executor_job s id expected executor at db ≡ ok a
      → (a.1 ≡ db)
        ⊎ ((row : RecordRow) × (current : StoredRecord) × (lookup id db.records ≡ some row)
            × (parse row ≡ ok current)
            × (bind_unbound s id expected executor at row current db ≡ ok a))
  unfolding bind_executor_job
  bind_executor_job-cases id expected executor at db a h =
      let (_, _, h₁) = >>=-eq-ok (assert_open s) _ h in
      let (_, h₂) = guard-eq-ok (is_work_order s.kind) _ _ h₁ in
      let (_, _, h₃) = >>=-eq-ok (assert_identifier id) _ h₂ in
      let (_, _, h₄) = >>=-eq-ok (assert_identifier executor) _ h₃ in
      let (_, h₅) = guard-eq-ok (leb 1 expected && leb expected max_safe_integer) _ _ h₄ in
      let (row, found, h₆) = expect-eq-ok (lookup id db.records) _ _ h₅ in
      let (current, p, h₇) = >>=-eq-ok (parse row) _ h₆ in
      let (_, h₈) = guard-eq-ok (has_status "issued" current) _ _ h₇ in
      elim (Option-cases current.executor_job_id) [
        | inr (bound, e) ↦ inl (ground (arith, rw e at h₈))
        | inl e ↦ inr (row, current, found, p, rw e at h₈)
      ]

  bind_executor_job-Persists :
      (id : String) (expected : ℕ) (executor : String) (at : ℕ) (db : Database)
      (a : StoredRecord × Database)
      → IsWellFormed db
      → bind_executor_job s id expected executor at db ≡ ok a
      → Persists db a.1
  bind_executor_job-Persists id expected executor at db a wf h =
      elim (bind_executor_job-cases id expected executor at db a h) [
        | inl same ↦ subst (Persists db) (sym same) (Persists-refl db)
        | inr (row, current, found, p, b) ↦
            let v : IsLogged db id row = subst (RowIsLogged db id) found (wf id) in
            bind_unbound-Persists id expected executor at row current db a found
              ((parse-events row current p).1 ∙ v.named) b
      ]

  insert_cancellation-Stays :
      (id : String) (request : CancellationRequest) (db : Database) (j : String)
      → Stays
          (lookup j db.cancellation_requests)
          (lookup j (insert_cancellation id request db).cancellation_requests)
  unfolding insert_cancellation
  insert_cancellation-Stays id request db j =
      let before = db.cancellation_requests in
      let after = (insert_cancellation id request db).cancellation_requests in
      elim (Option-cases (lookup id before)) [
        | inr (old, e) ↦
            let same : after ≡ before = ground arith in
            subst (λ t. Stays (lookup j before) (lookup j t)) (sym same)
              (Stays-refl (lookup j before))
        | inl e ↦
            let same : after ≡ put id request before = ground arith in
            subst (λ t. Stays (lookup j before) (lookup j t)) (sym same)
              (put_absent-Stays id j request before e)
      ]

  request_cancellation-Persists :
      (id source : String) (now : ℕ) (db : Database) (a : Option CancellationRequest × Database)
      → request_cancellation s id source now db ≡ ok a
      → Persists db a.1
  unfolding request_cancellation
  request_cancellation-Persists id source now db a h =
      let request : CancellationRequest = record {
        record_id = id;
        requested_at = now;
        source = source;
      } in
      let written : (a.1 ≡ db) ⊎ (a.1 ≡ insert_cancellation id request db) = ground arith in
      elim written [
        | inl e ↦ subst (Persists db) (sym e) (Persists-refl db)
        | inr e ↦
            let kept : (a.1.records ≡ db.records) × (a.1.idempotency_keys ≡ db.idempotency_keys) =
              unfold insert_cancellation in ground arith in
            let same =
              Persists-same db (record a.1 { cancellation_requests = db.cancellation_requests })
                kept.0 refl kept.1 in
            record {
              revisions = same.revisions;
              cancellations = λ j.
                  subst
                    (λ d.
                      Stays (lookup j db.cancellation_requests) (lookup j d.cancellation_requests))
                    (sym e) (insert_cancellation-Stays id request db j);
              keys = same.keys;
            }
      ]

Step-Persists :
    {bound : ℕ} {db db' : Database} → Step bound db db' → IsWellFormed db → Persists db db'
unfolding renew_lease release_lease claim_lease claim_lease_in_transaction claim_first
    claim_existing release_capacity try_acquire_capacity try_acquire_capacity_in_transaction
Step-Persists (Step.creates s r h) wf = create-Persists s r _ _ h
Step-Persists {db = db} {db' = db'} (Step.admits s r options w h) wf =
    elim (admit-cases s r options db _ h) [
      | inl e ↦ subst (Persists db) (sym e) (Persists-refl db)
      | inr (n, b, m, _, q, e) ↦
          let same : db' ≡ b.1 = ground arith in
          subst (Persists db) (sym same) (admit_new-Persists s n options db b q)
    ]
Step-Persists {db = db} {db' = db'} (Step.admits_pool s key candidates create_record options w h)
      wf =
    elim (admit_route_pool-cases s key candidates create_record options db _ h) [
      | inl e ↦ subst (Persists db) (sym e) (Persists-refl db)
      | inr (choice, n, b, _, m, _, q, e) ↦
          Persists-trans db b.1 db' (admit_new-Persists s n options db b q)
            (Persists-same b.1 db' (ground arith) (ground arith) (ground arith))
    ]
Step-Persists (Step.saves s r lease now h) wf = (save-revision s r lease now _ _ h).0
Step-Persists (Step.binds s id expected executor at h) wf =
    bind_executor_job-Persists s id expected executor at _ _ wf h
Step-Persists {db = db} (Step.claims s id owner ttl now h) wf =
    Persists-same db _ (ground arith) (ground arith) (ground arith)
Step-Persists {db = db} (Step.renews s lease ttl now h) wf =
    Persists-same db _ (ground arith) (ground arith) (ground arith)
Step-Persists {db = db} (Step.releases s lease h) wf =
    Persists-same db _ (ground arith) (ground arith) (ground arith)
Step-Persists {db = db} (Step.tries_capacity s lease limit now w h) wf =
    Persists-same db _ (ground arith) (ground arith) (ground arith)
Step-Persists {db = db} (Step.releases_capacity s lease h) wf =
    Persists-same db _ (ground arith) (ground arith) (ground arith)
Step-Persists (Step.cancels s id source now h) wf =
    request_cancellation-Persists s id source now _ _ h

pub Reach-Persists :
    {bound : ℕ} {db db' : Database} → Reach bound db db' → IsWellFormed db → Persists db db'
Reach-Persists {db = db} unmoved wf = Persists-refl db
Reach-Persists {db = db} {db' = db'} (extended {d = d} r st) wf =
    Persists-trans db d db' (Reach-Persists r wf) (Step-Persists st (Reach-LogMoves r wf).0)
