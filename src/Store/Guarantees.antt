-- ===== src/Store/Guarantees.antt =====
-- The promises of src/durable-record-store.ts to its callers, over whole histories.
use agentknot.Common.{
  Option, String, ap, arith, lookup, ok, pair_key, some, subst, sym, text_eq_refl, text_key, ℕ, ◌∙◌,
  ◌≡◌, ◌≢◌,
}
use agentknot.Store.EventLog.{IsWellFormed}
use agentknot.Store.History.{Step-LogMoves, save-LogMoves}
use agentknot.Store.Permanence.{Reach-Persists}
use agentknot.Store.Persistence.{RevisionGrows, Stays, save-revision}
use agentknot.Store.Records.{assert_not_cancelled, has_status, request_cancellation, save}
use agentknot.Store.Sql.{Database}
use agentknot.Store.Steps.{Reach, Step}
use agentknot.Store.Types.{
  CancellationRequest, ExecutionLease, Store, StoredRecord, materialize, materialize_version,
}

-- In a well-formed database, of the callers that read one revision of a record, at most one saves:
-- once a save has succeeded,
-- then whatever is called in between, no save that starts from the same revision succeeds.
pub no_lost_update :
    {bound : ℕ} {d d' : Database} (s s' : Store) (r r' saved : StoredRecord)
    (lease lease' : Option ExecutionLease) (now now' : ℕ) (db : Database)
    (b : StoredRecord × Database)
    → IsWellFormed db
    → save s r lease now db ≡ ok (saved, d)
    → Reach bound d d'
    → r'.id ≡ r.id
    → r'.revision ≡ r.revision
    → save s' r' lease' now' d' ≢ ok b
no_lost_update {d = d} {d' = d'} s s' r r' saved lease lease' now now' db b wf first reach same_id
      same_revision second =
    let (row₁, row₂, _, x, y, z) = (save-revision s r lease now db (saved, d) first).1 in
    let (row₃, _, found, x', _, _) = (save-revision s' r' lease' now' d' b second).1 in
    let wf' = (save-LogMoves s r lease now db (saved, d) first wf).0 in
    let grown = (Reach-Persists reach wf').revisions r.id in
    let (row₄, found', le) = subst (λ o. RevisionGrows o (lookup r.id d'.records)) y grown in
    let there : lookup r.id d'.records ≡ some row₃ =
      ap (λ (k : String). lookup k d'.records) (sym same_id) ∙ found in
    let bare : row₃.revision ≡ row₁.revision = ground (arith, x, x', same_revision) in
    let same : row₃.revision ≡ row₄.revision = ground (arith, there, found') in
    omega (arith, bare, same, z, le)

cancelled_row :
    (s : Store) (id source : String) (now : ℕ) (db d : Database) (c : CancellationRequest)
    → request_cancellation s id source now db ≡ ok (some c, d)
    → lookup id d.cancellation_requests ≡ some c
unfolding request_cancellation
cancelled_row s id source now db d c h = ground arith

cancelled_save :
    (s : Store) (r : StoredRecord) (lease : Option ExecutionLease) (now : ℕ) (db : Database)
    (c : CancellationRequest) (a : StoredRecord × Database)
    → lookup r.id db.cancellation_requests ≡ some c
    → r.status ≡ some "succeeded"
    → save s r lease now db ≢ ok a
unfolding save materialize materialize_version assert_not_cancelled has_status
cancelled_save s r lease now db c a e t h = ground (arith, text_eq_refl "succeeded")

-- A cancellation that a well-formed database accepted holds: whatever is called afterwards, no save records the same
-- record as succeeded.
pub cancellation_holds :
    {bound : ℕ} {d d' : Database} (s s' : Store) (id source : String) (now later : ℕ)
    (db : Database) (c : CancellationRequest) (r : StoredRecord) (lease : Option ExecutionLease)
    (a : StoredRecord × Database)
    → IsWellFormed db
    → request_cancellation s id source now db ≡ ok (some c, d)
    → Reach bound d d'
    → r.id ≡ id
    → r.status ≡ some "succeeded"
    → save s' r lease later d' ≢ ok a
cancellation_holds {bound} {d} {d'} s s' id source now later db c r lease a wf accepted reach same
      done =
    let wf' = (Step-LogMoves {bound = bound} (Step.cancels s id source now accepted) wf).0 in
    let stays = (Reach-Persists reach wf').cancellations id in
    let kept : lookup id d'.cancellation_requests ≡ some c =
      subst (λ o. Stays o (lookup id d'.cancellation_requests))
        (cancelled_row s id source now db d c accepted) stays in
    cancelled_save s' r lease later d' c a
      (ap (λ (k : String). lookup k d'.cancellation_requests) same ∙ kept) done
