-- ===== src/Coordinator/Superseded.antt =====
-- Two coordinators of src/durable-execution.ts on one record.
use agentknot.Common.{
  >>=-eq-ok, Option, Result, String, ap, err, lookup, ok, some, sym, text_key, true, ℕ, ◌∙◌, ◌≡◌,
  ◌≢◌,
}
use agentknot.Coordinator.Heartbeat.{beat_of-beats}
use agentknot.Coordinator.Operations.{Coordinator, beat, beat_with, beats, claim, save_record}
use agentknot.Store.Capacity.{acquired}
use agentknot.Store.FencedOut.{fenced_out}
use agentknot.Store.Leases.{claim_lease, renew_lease}
use agentknot.Store.Records.{get_cancellation}
use agentknot.Store.Sql.{Database, LeaseRow}
use agentknot.Store.Steps.{Reach}
use agentknot.Store.Types.{CancellationRequest, ExecutionLease, StoreError, StoredRecord}

claimed_result :
    Option ExecutionLease × Database
    → Result StoreError (Option ExecutionLease × Coordinator × Database)
    → Option ExecutionLease × Database
claimed_result default (err e) = default
claimed_result default (ok (lease, c, db)) = (lease, db)

claim-claim_lease :
    (c : Coordinator) (id owner : String) (now : ℕ) (db : Database) (new : Option ExecutionLease)
    (c' : Coordinator) (d : Database)
    → claim c id owner now db ≡ ok (new, c', d)
    → claim_lease c.store id owner c.ttl now db ≡ ok (new, d)
unfolding claim claimed_result
claim-claim_lease c id owner now db new c' d h =
    let (p, e, k) = >>=-eq-ok (claim_lease c.store id owner c.ttl now db) _ h in
    e ∙ ap ok (ap (claimed_result p) k)

beat_with-renewed :
    (c : Coordinator) (lease : ExecutionLease) (now : ℕ) (db : Database)
    (r : Result StoreError (Option CancellationRequest))
    → (beat_with c lease now db r).0 ≡ beats
    → renew_lease c.store lease c.ttl now db ≡ ok (true, (beat_with c lease now db r).1)
unfolding beat_with
beat_with-renewed c lease now db (err e) h = cc
beat_with-renewed c lease now db (ok request) h =
    (beat_of-beats request db _ _ (ap (λ b. (b, (beat_with c lease now db (ok request)).1)) h)).1

-- Once another coordinator has claimed the record of a lease under another owner, then whatever is
-- called afterwards, by anyone and at any time, the coordinator that had the lease saves no version of
-- the record, and its next beat aborts the execution.
pub superseded :
    {bound : ℕ} {d d' : Database} (c other other' : Coordinator) (id owner : String)
    (lease new : ExecutionLease) (row : LeaseRow) (now later : ℕ) (db : Database) (r : StoredRecord)
    (saved : StoredRecord × Database)
    → lookup id c.leases ≡ some lease
    → lease.record_id ≡ id
    → lease.owner_id ≢ ""
    → lookup lease.record_id db.execution_leases ≡ some row
    → row.owner_id ≡ lease.owner_id
    → row.fence ≡ lease.fence
    → owner ≢ lease.owner_id
    → claim other lease.record_id owner now db ≡ ok (some new, other', d)
    → Reach bound d d'
    → r.id ≡ id
    → (save_record c r later d' ≢ ok saved) × ((beat c id later d').0 ≢ beats)
unfolding save_record beat
superseded {d = d} {d' = d'} c other other' id owner lease new row now later db r saved held of
      named found owned fenced differs claimed reach same =
    let ran = beat_with c lease later d' (get_cancellation c.store id d') in
    let claim_made = claim-claim_lease other lease.record_id owner now db _ _ _ claimed in
    let (unsaved, _, unrenewed) =
      fenced_out other.store c.store lease new row owner other.ttl now db later c.ttl 1 r saved
        (acquired, db) ran.1 named found owned fenced differs claim_made reach (same ∙ sym of) in
    let mine : lookup r.id c.leases ≡ some lease = cc in
    (
      λ h. unsaved cc,
      λ h. unrenewed (beat_with-renewed c lease later d' (get_cancellation c.store id d') cc),
    )
