-- ===== src/Ledger/Requests.antt =====
-- The requests of src/candidate.ts, src/review.ts and src/disposition.ts, and their validation.
use agentknot.Common.{
  Bool, Fields, Items, Json, List, Option, Result, String, [], all, array, err, get_field, guard,
  has_own, if◌then◌else◌, is_blank, item, keys_among, leb, no_items, none, not, object, ok,
  pair_key, some, suc, text, text_eq, undefined, utf8_bytes, ℕ, ◌&&◌, ◌*◌, ◌>>=◌, ◌>>◌, ◌∷◌,
}
use agentknot.Store.Types.{StoreError}

pub record Command : Type 0 where
  pub objective : String
  pub workspace : String
  pub acceptance_criteria : List String
  pub constraints : List String
  pub base_revision : Option String

pub record Artifact : Type 0 where
  pub path : String
  pub sha256 : String
  pub base_commit : String

pub record CandidateRequest : Type 0 where
  pub work_order_id : String
  pub executor_job_id : String
  pub artifact : Artifact

pub data Severity : Type 0 where
  low medium high : Severity

pub record Finding : Type 0 where
  pub severity : Severity
  pub message : String
  pub evidence : String

pub record ReviewRequest : Type 0 where
  pub candidate_id : String
  pub reviewer : String
  pub summary : String
  pub findings : List Finding

pub data Decision : Type 0 where
  accept discard : Decision

pub record DispositionRequest : Type 0 where
  pub candidate_id : String
  pub review_id : String
  pub decision : Decision
  pub decided_by : String
  pub rationale : String

pub data LedgerError : Type 0 where
  invalid_request : LedgerError
  missing_work_order not_issued_order not_bound bound_elsewhere missing_job artifact_not_recorded :
      LedgerError
  missing_candidate missing_review other_candidate wrong_identity disposition_conflict : LedgerError
  store_error : StoreError → LedgerError

abbrev pub max_prompt_bytes : ℕ
max_prompt_bytes = 64 * 1024

abbrev pub max_identity_bytes : ℕ
max_identity_bytes = 256

abbrev pub max_prose_bytes : ℕ
max_prose_bytes = 2 * 1024

abbrev pub max_review_findings : ℕ
max_review_findings = 10

abbrev pub max_finding_bytes : ℕ
max_finding_bytes = 1024

-- `assertBoundedNonEmptyText`; `assertNonEmptyText` has the limit of a prompt.
unfoldable pub filled_text : ℕ → Json → Result LedgerError String
filled_text limit (text t) =
    guard (not (is_blank t)) invalid_request
    >> (guard (leb (utf8_bytes t) limit) invalid_request >> ok t)
filled_text limit _ = err invalid_request

-- `isRecord`
unfoldable pub object_fields : Json → Result LedgerError Fields
object_fields (object fs) = ok fs
object_fields _ = err invalid_request

-- `hasExactKeys`
unfoldable pub has_exact_keys : List String → Fields → Bool
has_exact_keys keys fs = all (λ (k : String). has_own k fs) keys && keys_among keys fs

-- `Array.isArray(value)`
unfoldable pub array_items : Json → Result LedgerError Items
array_items (array vs) = ok vs
array_items _ = err invalid_request

-- `normalizeTextList`
unfoldable pub normalize_texts : Items → Result LedgerError (List String)
normalize_texts no_items = ok []
normalize_texts (item v vs) = do
  first ← filled_text max_prompt_bytes v
  rest ← normalize_texts vs
  ok (first ∷ rest)

-- A text that may be absent.
unfoldable pub optional_text : Json → Result LedgerError (Option String)
optional_text undefined = ok none
optional_text value = filled_text max_prompt_bytes value >>= λ t. ok (some t)

-- `normalizeWorkOrderCommand`, where `resolve` is that of `node:path`
unfoldable pub normalize_command : (String → String) → Json → Result LedgerError Command
normalize_command resolve value = do
  fs ← object_fields value
  objective ← filled_text max_prompt_bytes (get_field "objective" fs)
  workspace ← filled_text max_prompt_bytes (get_field "workspace" fs)
  criteria ← array_items (get_field "acceptanceCriteria" fs) >>= normalize_texts
  constraints ← array_items (get_field "constraints" fs) >>= normalize_texts
  base ← optional_text (get_field "baseRevision" fs)
  ok (record {
    objective = objective;
    workspace = resolve workspace;
    acceptance_criteria = criteria;
    constraints = constraints;
    base_revision = base;
  })

-- `normalizeArtifact`
unfoldable pub normalize_artifact : Json → Result LedgerError Artifact
normalize_artifact value = do
  fs ← object_fields value
  path ← filled_text max_prompt_bytes (get_field "path" fs)
  sha256 ← filled_text max_prompt_bytes (get_field "sha256" fs)
  base ← filled_text max_prompt_bytes (get_field "baseCommit" fs)
  ok (record { path = path; sha256 = sha256; base_commit = base })

-- `normalizeCreateRequest` of src/candidate.ts
unfoldable pub normalize_candidate : Json → Result LedgerError CandidateRequest
normalize_candidate value = do
  fs ← object_fields value
  order ← filled_text max_prompt_bytes (get_field "workOrderId" fs)
  executor ← filled_text max_prompt_bytes (get_field "executorJobId" fs)
  artifact ← normalize_artifact (get_field "artifact" fs)
  ok (record { work_order_id = order; executor_job_id = executor; artifact = artifact })

unfoldable pub read_severity : Json → Result LedgerError Severity
read_severity (text t) =
    if text_eq t "low"
    then ok low
    else if text_eq t "medium"
    then ok medium
    else if text_eq t "high"
    then ok high
    else err invalid_request
read_severity _ = err invalid_request

-- `normalizeFinding`
unfoldable pub normalize_finding : Json → Result LedgerError Finding
normalize_finding value = do
  fs ← object_fields value
  guard (has_exact_keys ("severity" ∷ "message" ∷ "evidence" ∷ []) fs) invalid_request
  severity ← read_severity (get_field "severity" fs)
  message ← filled_text max_finding_bytes (get_field "message" fs)
  evidence ← filled_text max_finding_bytes (get_field "evidence" fs)
  ok (record { severity = severity; message = message; evidence = evidence })

abbrev pub item_count : Items → ℕ
item_count no_items = 0
item_count (item v vs) = suc (item_count vs)

unfoldable pub normalize_findings : Items → Result LedgerError (List Finding)
normalize_findings no_items = ok []
normalize_findings (item v vs) = do
  first ← normalize_finding v
  rest ← normalize_findings vs
  ok (first ∷ rest)

-- `normalizeCreateRequest` of src/review.ts
unfoldable pub normalize_review : Json → Result LedgerError ReviewRequest
normalize_review value = do
  fs ← object_fields value
  guard (has_exact_keys ("candidateId" ∷ "reviewer" ∷ "summary" ∷ "findings" ∷ []) fs)
      invalid_request
  candidate ← filled_text max_prompt_bytes (get_field "candidateId" fs)
  reviewer ← filled_text max_identity_bytes (get_field "reviewer" fs)
  summary ← filled_text max_prose_bytes (get_field "summary" fs)
  items ← array_items (get_field "findings" fs)
  guard (leb (item_count items) max_review_findings) invalid_request
  findings ← normalize_findings items
  ok (record {
    candidate_id = candidate;
    reviewer = reviewer;
    summary = summary;
    findings = findings;
  })

unfoldable pub read_decision : Json → Result LedgerError Decision
read_decision (text t) =
    if text_eq t "accept"
    then ok accept
    else if text_eq t "discard"
    then ok discard
    else err invalid_request
read_decision _ = err invalid_request

-- `normalizeCreateRequest` of src/disposition.ts
unfoldable pub normalize_disposition : Json → Result LedgerError DispositionRequest
normalize_disposition value = do
  fs ← object_fields value
  guard
      (has_exact_keys ("candidateId" ∷ "reviewId" ∷ "decision" ∷ "decidedBy" ∷ "rationale" ∷ []) fs)
      invalid_request
  candidate ← filled_text max_prompt_bytes (get_field "candidateId" fs)
  review ← filled_text max_prompt_bytes (get_field "reviewId" fs)
  decision ← read_decision (get_field "decision" fs)
  decided_by ← filled_text max_identity_bytes (get_field "decidedBy" fs)
  rationale ← filled_text max_prose_bytes (get_field "rationale" fs)
  ok (record {
    candidate_id = candidate;
    review_id = review;
    decision = decision;
    decided_by = decided_by;
    rationale = rationale;
  })
