-- ===== src/Store/History.antt =====
-- The event log over whole histories.
use mathlib.Core.List.{append-nil, append_assoc}
use agentknot.Common.{
  >>=-eq-ok, List, Option, Option-cases, String, Table, [], ap, arith, expect-eq-ok, get_or,
  guard-eq-ok, inl, inr, leb, lookup, ok, some, subst, sym, text_key, ℕ, ◌&&◌, ◌++◌, ◌==◌, ◌∙◌, ◌≡◌,
}
use agentknot.Store.Admission.{AdmissionOptions, admit_capacity, admit_new, insert_idempotency}
use agentknot.Store.AdmissionCases.{admit-cases, admit_route_pool-cases}
use agentknot.Store.Capacity.{
  release_capacity, try_acquire_capacity, try_acquire_capacity_in_transaction,
}
use agentknot.Store.EventLog.{
  IsLogged, IsWellFormed, LogGrows, LogMoves, RowIsLogged, RowIsLogged-same, insert_new-LogMoves,
  write_snapshot-LogMoves,
}
use agentknot.Store.Leases.{
  claim_existing, claim_first, claim_lease, claim_lease_in_transaction, release_lease, renew_lease,
}
use agentknot.Store.Numbering.{Numbered, assert_events-Numbered}
use agentknot.Store.Records.{
  assert_lease, assert_not_cancelled, bind_executor_job, bind_unbound, create, has_status,
  insert_cancellation, insert_new, is_work_order, parse, request_cancellation, save, supports_save,
  write_snapshot,
}
use agentknot.Store.Sql.{Database, RecordRow, event_rows}
use agentknot.Store.Steps.{Reach, Step, extended, unmoved}
use agentknot.Store.Types.{
  ExecutionLease, Store, StoredEvent, StoredRecord, assert_events, assert_events_from,
  assert_identifier, assert_open, attach_revision, materialize, materialize_version,
  max_safe_integer,
}

pub materialize-Numbered :
    (s : Store) (r n : StoredRecord)
    → materialize s r ≡ ok n
    → (n.schema_version ≡ some 1) × Numbered 0 n.events × (n.id ≡ r.id)
unfolding materialize assert_events
materialize-Numbered s r n h =
    let (m, v, h₁) = >>=-eq-ok (materialize_version r) _ h in
    let (u, e, h₂) = >>=-eq-ok (assert_events_from 0 m.events) _ h₁ in
    let same : m ≡ n = ground arith in
    let version : (m.schema_version ≡ some 1) × (m.id ≡ r.id) =
      unfold materialize_version in ground arith in
    subst (λ k. (k.schema_version ≡ some 1) × Numbered 0 k.events × (k.id ≡ r.id)) same
      (version.0, assert_events-Numbered 0 m.events e, version.1)

pub parse-events :
    (row : RecordRow) (r : StoredRecord)
    → parse row ≡ ok r
    → (r.events ≡ row.record_json.events) × (r.id ≡ row.record_json.id)
unfolding parse materialize_version attach_revision
parse-events row r h = ground arith

LogMoves-refl : (db : Database) → IsWellFormed db → LogMoves db db
LogMoves-refl db wf = (wf, λ id. ([], rw append-nil))

LogMoves-trans : (d₁ d₂ d₃ : Database) → LogMoves d₁ d₂ → LogGrows d₂ d₃ → LogGrows d₁ d₃
LogMoves-trans d₁ d₂ d₃ (wf, g) k id =
    let (xs, e) = g id in
    let (ys, f) = k id in
    (xs ++ ys, f ∙ ap (λ (l : List StoredEvent). l ++ ys) e ∙ append_assoc (event_rows id d₁) xs ys)

-- Neither table of the log is written.
LogMoves-same :
    (db d d' : Database)
    → d'.records ≡ d.records
    → d'.events ≡ d.events
    → LogMoves db d
    → LogMoves db d'
LogMoves-same db d d' e f (wf, g) =
    let kept =
      λ (id : String). ap (λ (t : Table String (List StoredEvent)). get_or (lookup id t) []) f in
    (
      λ id.
          RowIsLogged-same d d' id (lookup id d'.records) (kept id)
            (subst (RowIsLogged d id) (ap (lookup id) (sym e)) (wf id)),
      λ id. let (more, h) = g id in (more, kept id ∙ h),
    )

module _ (s : Store) where
  pub create-LogMoves :
      (r : StoredRecord) (db : Database) (a : StoredRecord × Database)
      → create s r db ≡ ok a
      → IsWellFormed db
      → LogMoves db a.1
  unfolding create
  create-LogMoves r db a h wf =
      let (_, _, h₁) = >>=-eq-ok (assert_open s) _ h in
      let (n, m, h₂) = >>=-eq-ok (materialize s r) _ h₁ in
      let (db', i, h₃) = >>=-eq-ok (insert_new s n db) _ h₂ in
      let (ver, num, _) = materialize-Numbered s r n m in
      let same : db' ≡ a.1 = ground arith in
      subst (LogMoves db) same (insert_new-LogMoves s n db db' ver num i wf)

  pub save-LogMoves :
      (r : StoredRecord) (lease : Option ExecutionLease) (now : ℕ) (db : Database)
      (a : StoredRecord × Database)
      → save s r lease now db ≡ ok a
      → IsWellFormed db
      → LogMoves db a.1
  unfolding save
  save-LogMoves r lease now db a h wf =
      let (_, _, h₁) = >>=-eq-ok (assert_open s) _ h in
      let (_, h₂) = guard-eq-ok (supports_save s.kind) _ _ h₁ in
      let (expected, _, h₃) = expect-eq-ok r.revision _ _ h₂ in
      let (n, m, h₄) = >>=-eq-ok (materialize s r) _ h₃ in
      let (row, found, h₅) = expect-eq-ok (lookup n.id db.records) _ _ h₄ in
      let (_, h₆) = guard-eq-ok (row.revision == expected) _ _ h₅ in
      let (_, _, h₇) = >>=-eq-ok (assert_lease lease n.id now db) _ h₆ in
      let (_, _, h₈) = >>=-eq-ok (assert_not_cancelled n db) _ h₇ in
      let (previous, p, h₉) = >>=-eq-ok (parse row) _ h₈ in
      let (db', w, h₁₀) = >>=-eq-ok (write_snapshot s previous n expected db) _ h₉ in
      let (ver, num, _) = materialize-Numbered s r n m in
      let same : db' ≡ a.1 = ground arith in
      subst (LogMoves db) same (
        write_snapshot-LogMoves s previous n expected row db db' ver num found
          (parse-events row previous p).0 w wf)

  pub admit_new-LogMoves :
      (r : StoredRecord) (options : AdmissionOptions) (db : Database)
      (a : ExecutionLease × Database)
      → r.schema_version ≡ some 1
      → Numbered 0 r.events
      → admit_new s r options db ≡ ok a
      → IsWellFormed db
      → LogMoves db a.1
  unfolding admit_new insert_idempotency claim_lease_in_transaction claim_first claim_existing
      admit_capacity try_acquire_capacity_in_transaction
  admit_new-LogMoves r options db a ver num h wf =
      let (db', i, h₁) = >>=-eq-ok (insert_new s r db) _ h in
      let e : (a.1.records ≡ db'.records) × (a.1.events ≡ db'.events) = ground arith in
      LogMoves-same db db' a.1 e.0 e.1 (insert_new-LogMoves s r db db' ver num i wf)

  pub bind_unbound-LogMoves :
      (id : String) (expected : ℕ) (executor : String) (at : ℕ) (row : RecordRow)
      (current : StoredRecord) (db : Database) (a : StoredRecord × Database)
      → lookup id db.records ≡ some row
      → parse row ≡ ok current
      → bind_unbound s id expected executor at row current db ≡ ok a
      → IsWellFormed db
      → LogMoves db a.1
  unfolding bind_unbound
  bind_unbound-LogMoves id expected executor at row current db a found p h wf =
      let v : IsLogged db id row = subst (RowIsLogged db id) found (wf id) in
      let (_, h₁) = guard-eq-ok (row.event_sequence == expected) _ _ h in
      let (n, m, h₂) = >>=-eq-ok (materialize s _) _ h₁ in
      let (db', w, h₃) = >>=-eq-ok (write_snapshot s current n row.revision db) _ h₂ in
      let (ver, num, named) = materialize-Numbered s _ n m in
      let (events, kept) = parse-events row current p in
      let same : db' ≡ a.1 = ground arith in
      let there : lookup n.id db.records ≡ some row =
        ap (λ (k : String). lookup k db.records) (named ∙ kept ∙ v.named) ∙ found in
      subst (LogMoves db) same
        (write_snapshot-LogMoves s current n row.revision row db db' ver num there events w wf)

  pub bind_executor_job-LogMoves :
      (id : String) (expected : ℕ) (executor : String) (at : ℕ) (db : Database)
      (a : StoredRecord × Database)
      → bind_executor_job s id expected executor at db ≡ ok a
      → IsWellFormed db
      → LogMoves db a.1
  unfolding bind_executor_job
  bind_executor_job-LogMoves id expected executor at db a h wf =
      let (_, _, h₁) = >>=-eq-ok (assert_open s) _ h in
      let (_, h₂) = guard-eq-ok (is_work_order s.kind) _ _ h₁ in
      let (_, _, h₃) = >>=-eq-ok (assert_identifier id) _ h₂ in
      let (_, _, h₄) = >>=-eq-ok (assert_identifier executor) _ h₃ in
      let (_, h₅) = guard-eq-ok (leb 1 expected && leb expected max_safe_integer) _ _ h₄ in
      let (row, found, h₆) = expect-eq-ok (lookup id db.records) _ _ h₅ in
      let (current, p, h₇) = >>=-eq-ok (parse row) _ h₆ in
      let (_, h₈) = guard-eq-ok (has_status "issued" current) _ _ h₇ in
      elim (Option-cases current.executor_job_id) [
        | inl e ↦
            bind_unbound-LogMoves id expected executor at row current db a found p (rw e at h₈) wf
        | inr (bound, e) ↦
            let same : a.1 ≡ db = ground (arith, rw e at h₈) in
            subst (LogMoves db) (sym same) (LogMoves-refl db wf)
      ]

-- Every call keeps the log well formed, and only adds to it.
pub Step-LogMoves :
    {bound : ℕ} {db db' : Database} → Step bound db db' → IsWellFormed db → LogMoves db db'
unfolding renew_lease release_lease claim_lease claim_lease_in_transaction claim_first
    claim_existing release_capacity request_cancellation insert_cancellation try_acquire_capacity
    try_acquire_capacity_in_transaction
Step-LogMoves (Step.creates s r h) wf = create-LogMoves s r _ _ h wf
Step-LogMoves {db = db} {db' = db'} (Step.admits s r options w h) wf =
    elim (admit-cases s r options db _ h) [
      | inl e ↦ subst (LogMoves db) (sym e) (LogMoves-refl db wf)
      | inr (n, b, m, _, q, e) ↦
          let (ver, num, _) = materialize-Numbered s r n m in
          let same : db' ≡ b.1 = ground arith in
          subst (LogMoves db) (sym same) (admit_new-LogMoves s n options db b ver num q wf)
    ]
Step-LogMoves {db = db} {db' = db'} (Step.admits_pool s key candidates create_record options w h)
      wf =
    elim (admit_route_pool-cases s key candidates create_record options db _ h) [
      | inl e ↦ subst (LogMoves db) (sym e) (LogMoves-refl db wf)
      | inr (choice, n, b, _, m, _, q, e) ↦
          let (ver, num, _) = materialize-Numbered s (create_record choice) n m in
          let e₁ : db'.records ≡ b.1.records = ground arith in
          let e₂ : db'.events ≡ b.1.events = ground arith in
          LogMoves-same db b.1 db' e₁ e₂ (admit_new-LogMoves s n options db b ver num q wf)
    ]
Step-LogMoves (Step.saves s r lease now h) wf = save-LogMoves s r lease now _ _ h wf
Step-LogMoves (Step.binds s id expected executor at h) wf =
    bind_executor_job-LogMoves s id expected executor at _ _ h wf
Step-LogMoves {db = db} (Step.claims s id owner ttl now h) wf =
    LogMoves-same db db _ (ground arith) (ground arith) (LogMoves-refl db wf)
Step-LogMoves {db = db} (Step.renews s lease ttl now h) wf =
    LogMoves-same db db _ (ground arith) (ground arith) (LogMoves-refl db wf)
Step-LogMoves {db = db} (Step.releases s lease h) wf =
    LogMoves-same db db _ (ground arith) (ground arith) (LogMoves-refl db wf)
Step-LogMoves {db = db} (Step.tries_capacity s lease limit now w h) wf =
    LogMoves-same db db _ (ground arith) (ground arith) (LogMoves-refl db wf)
Step-LogMoves {db = db} (Step.releases_capacity s lease h) wf =
    LogMoves-same db db _ (ground arith) (ground arith) (LogMoves-refl db wf)
Step-LogMoves {db = db} (Step.cancels s id source now h) wf =
    LogMoves-same db db _ (ground arith) (ground arith) (LogMoves-refl db wf)

-- From a well-formed database, whatever is called, in any order and by any process: each record keeps its events numbered from 1
-- and its log equal to its snapshot's, and the log of each record only grows at its end.
pub Reach-LogMoves :
    {bound : ℕ} {db db' : Database} → Reach bound db db' → IsWellFormed db → LogMoves db db'
Reach-LogMoves {db = db} unmoved wf = LogMoves-refl db wf
Reach-LogMoves {db = db} {db' = db'} (extended {d = d} r st) wf =
    let before = Reach-LogMoves r wf in
    let after = Step-LogMoves st before.0 in (after.0, LogMoves-trans db d db' before after.1)
