-- ===== src/Ledger/Services.antt =====
-- The services of src/work-order.ts, src/candidate.ts, src/review.ts and src/disposition.ts.
-- Fresh identifiers and the time of a call are arguments.
use Prim.Native.String.{◌++◌ as append}
use agentknot.Common.{
  Bool, Json, List, Option, Result, String, [], any, err, expect, false, guard, none, ok, some,
  text_eq, true, ℕ, ◌&&◌, ◌>>=◌, ◌>>◌, ◌∷◌,
}
use agentknot.Ledger.Entries.{Codec, Entry, Shelf, create_entry, get_entry, new_entry}
use agentknot.Ledger.Requests.{
  Artifact, CandidateRequest, Command, Decision, DispositionRequest, LedgerError, ReviewRequest,
  accept, artifact_not_recorded, bound_elsewhere, discard, disposition_conflict, missing_candidate,
  missing_job, missing_review, missing_work_order, normalize_candidate, normalize_command,
  normalize_disposition, normalize_review, not_bound, not_issued_order, other_candidate,
  store_error, wrong_identity,
}
use agentknot.Store.Records.{bind_executor_job, create, get, has_status}
use agentknot.Store.Types.{StoreError, StoredRecord}

-- The stores that the services share.
pub record Ledger : Type 0 where
  pub jobs : Shelf
  pub orders : Shelf
  pub candidates : Shelf
  pub reviews : Shelf
  pub dispositions : Shelf

-- An artifact that a Job has recorded.
pub record RecordedArtifact : Type 0 where
  pub kind : String
  pub identity : Artifact

-- What the services call: JSON in the bodies of records, `path.resolve`, and the
-- SHA-256 digest of a candidate's id.
pub record Formats : Type 0 where
  pub commands : Codec Command
  pub candidate_codec : Codec CandidateRequest
  pub review_codec : Codec ReviewRequest
  pub disposition_codec : Codec DispositionRequest
  pub artifacts : StoredRecord → List RecordedArtifact
  pub resolve : String → String
  pub digest : String → String

-- `dispositionIdForCandidate`
unfoldable pub disposition_id : Formats → String → String
disposition_id f candidate_id = append "disposition_" (f.digest candidate_id)

abbrev pub in_store {ℓ} : {A : Type ℓ} → Result StoreError A → Result LedgerError A
in_store (ok a) = ok a
in_store (err e) = err (store_error e)

-- `if (record === undefined) throw` behind a `get`
abbrev pub found {ℓ} :
    {A : Type ℓ} → Result StoreError (Option A) → LedgerError → Result LedgerError A
found call missing = in_store call >>= λ (o : Option _). expect o missing

unfoldable pub artifact_eq : Artifact → RecordedArtifact → Bool
artifact_eq a recorded =
    text_eq recorded.kind "git-patch"
    && text_eq recorded.identity.path a.path
    && text_eq recorded.identity.sha256 a.sha256
    && text_eq recorded.identity.base_commit a.base_commit

-- `hasRecordedArtifact`
unfoldable pub has_recorded_artifact : List RecordedArtifact → Artifact → Bool
has_recorded_artifact recorded a = any (artifact_eq a) recorded

unfoldable pub decision_eq : Decision → Decision → Bool
decision_eq accept accept = true
decision_eq discard discard = true
decision_eq _ _ = false

-- `hasSameSemanticInput`
unfoldable pub has_same_input : DispositionRequest → DispositionRequest → Bool
has_same_input d r =
    text_eq d.candidate_id r.candidate_id
    && text_eq d.review_id r.review_id
    && decision_eq d.decision r.decision
    && text_eq d.decided_by r.decided_by
    && text_eq d.rationale r.rationale

-- The work order is bound to no Job, or to this one.
abbrev pub is_free : String → Option String → Bool
is_free executor none = true
is_free executor (some bound) = text_eq bound executor

-- The record of a new work order, whose command is the body.
unfoldable pub issued_order : String → ℕ → String → StoredRecord
issued_order id now body = record {
  id = id;
  schema_version = some 1;
  status = some "issued";
  created_at = now;
  updated_at = some now;
  events = record { sequence = 1; at = now; type = "work-order.issued"; body = id } ∷ [];
  executor_job_id = none;
  route_name = none;
  body = body;
  revision = none;
}

-- A record that stands under the identity after the creation has failed, or none.
unfoldable pub classify :
    DispositionRequest
    → LedgerError
    → Option (Entry DispositionRequest)
    → Ledger
    → Result LedgerError (Entry DispositionRequest × Ledger)
classify request failure none l = err failure
classify request failure (some existing) l =
    guard (has_same_input existing.input request) disposition_conflict >> ok (existing, l)

-- The `catch` of `record`; the error of the second read is dropped.
unfoldable pub read_again :
    DispositionRequest
    → LedgerError
    → Result StoreError (Option (Entry DispositionRequest))
    → Ledger
    → Result LedgerError (Entry DispositionRequest × Ledger)
read_again request failure (err second) l = err failure
read_again request failure (ok existing) l = classify request failure existing l

module _ (f : Formats) where
  -- `WorkOrderService.issue`
  unfoldable pub issue : String → ℕ → Json → Ledger → Result LedgerError (StoredRecord × Ledger)
  issue id now command l = do
    normalized ← normalize_command f.resolve command
    (_, rows) ←
        in_store
          (create l.orders.handle (issued_order id now (f.commands.write normalized)) l.orders.rows)
    ok (
      issued_order id now (f.commands.write normalized),
      record l { orders = record { handle = l.orders.handle; rows = rows } },
    )

  -- `WorkOrderService.bindExecutorJob`
  unfoldable pub bind_order :
      String → ℕ → String → ℕ → Ledger → Result LedgerError (StoredRecord × Ledger)
  bind_order id expected executor now l = do
    order ← found (get l.orders.handle id l.orders.rows) missing_work_order
    guard (has_status "issued" order) not_issued_order
    guard (is_free executor order.executor_job_id) bound_elsewhere
    (bound, rows) ←
        in_store (bind_executor_job l.orders.handle id expected executor now l.orders.rows)
    ok (bound, record l { orders = record { handle = l.orders.handle; rows = rows } })

  -- `CandidateService.create`
  unfoldable pub create_candidate :
      String → ℕ → Json → Ledger → Result LedgerError (Entry CandidateRequest × Ledger)
  create_candidate id now request l = do
    normalized ← normalize_candidate request
    order ← found (get l.orders.handle normalized.work_order_id l.orders.rows) missing_work_order
    executor ← expect order.executor_job_id not_bound
    guard (text_eq executor normalized.executor_job_id) bound_elsewhere
    job ← found (get l.jobs.handle normalized.executor_job_id l.jobs.rows) missing_job
    guard (has_recorded_artifact (f.artifacts job) normalized.artifact) artifact_not_recorded
    let entry = new_entry id now "candidate.created" normalized
    shelf ← in_store (create_entry f.candidate_codec entry l.candidates)
    ok (entry, record l { candidates = shelf })

  -- `ReviewService.create`
  unfoldable pub create_review :
      String → ℕ → Json → Ledger → Result LedgerError (Entry ReviewRequest × Ledger)
  create_review id now request l = do
    normalized ← normalize_review request
    known ←
        found (get_entry f.candidate_codec normalized.candidate_id l.candidates) missing_candidate
    let entry = new_entry id now "review.created" normalized
    shelf ← in_store (create_entry f.review_codec entry l.reviews)
    ok (entry, record l { reviews = shelf })

  -- `SqliteDispositionStore.create`
  unfoldable pub create_disposition : Entry DispositionRequest → Shelf → Result LedgerError Shelf
  create_disposition e shelf = do
    guard (text_eq e.id (disposition_id f e.input.candidate_id)) wrong_identity
    in_store (create_entry f.disposition_codec e shelf)

  -- What `record` checks before it writes.
  unfoldable pub check_sources : Json → Ledger → Result LedgerError DispositionRequest
  check_sources request l = do
    normalized ← normalize_disposition request
    known ←
        found (get_entry f.candidate_codec normalized.candidate_id l.candidates) missing_candidate
    named ← found (get_entry f.review_codec normalized.review_id l.reviews) missing_review
    guard (text_eq named.input.candidate_id normalized.candidate_id) other_candidate
    ok normalized

  -- The end of `record`, by how the creation went.
  unfoldable pub settle_record :
      Entry DispositionRequest
      → Result LedgerError Shelf
      → Ledger
      → Result LedgerError (Entry DispositionRequest × Ledger)
  settle_record entry (ok shelf) l = ok (entry, record l { dispositions = shelf })
  settle_record entry (err failure) l =
      read_again entry.input failure (get_entry f.disposition_codec entry.id l.dispositions) l

  -- `DispositionService.record`
  unfoldable pub record_disposition :
      ℕ → Json → Ledger → Result LedgerError (Entry DispositionRequest × Ledger)
  record_disposition now request l = do
    normalized ← check_sources request l
    let entry =
        new_entry (disposition_id f normalized.candidate_id) now "disposition.recorded" normalized
    settle_record entry (create_disposition entry l.dispositions) l
