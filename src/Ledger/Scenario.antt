-- ===== src/Ledger/Scenario.antt =====
-- One work order from its issue to its disposition, for src/work-order.ts, src/candidate.ts,
-- src/review.ts and src/disposition.ts.
use agentknot.Common.{
  Json, String, [], false, field, get_field, get_or, has_own, is_blank, length, lookup, no_fields,
  none, object, ok, put, refl, some, text, text_eq, text_key, utf8_bytes, ◌∷◌, ◌≡◌,
}
use agentknot.Ledger.Bodies.{formats}
use agentknot.Ledger.Entries.{
  Entry, Shelf, create_entry, get_entry, new_entry, of_stored, to_stored,
}
use agentknot.Ledger.RequestLaws.{finding_json, findings_json, review_json, severity_text}
use agentknot.Ledger.Requests.{
  CandidateRequest, DispositionRequest, ReviewRequest, accept, array_items, filled_text,
  has_exact_keys, low, normalize_artifact, normalize_candidate, normalize_disposition,
  normalize_finding, normalize_findings, normalize_review, object_fields, read_decision,
  read_severity,
}
use agentknot.Ledger.Services.{
  Ledger, artifact_eq, check_sources, create_candidate, create_disposition, create_review,
  disposition_id, has_recorded_artifact, record_disposition, settle_record,
}
use agentknot.Store.Records.{create, get, insert_new, parse}
use agentknot.Store.Sql.{RecordRow, empty_database, insert_event, insert_events, insert_row}
use agentknot.Store.Types.{
  RecordKind, Store, StoredRecord, assert_events, assert_events_from, assert_open, attach_revision,
  candidate, disposition, job, materialize, materialize_version, review, serialize_bounded,
  work_order,
}

abbrev handle_of : RecordKind → Store
handle_of kind = record { kind = kind; closed = false; record_bytes = λ r. 100 }

abbrev pub shelf_of : RecordKind → Shelf
shelf_of kind = record { handle = handle_of kind; rows = empty_database }

-- The row of a record that has been created.
abbrev row_of : StoredRecord → RecordRow
row_of r = record {
  created_at = r.created_at;
  updated_at = get_or r.updated_at r.created_at;
  revision = 1;
  event_sequence = length r.events;
  record_json = r;
}

-- A store with one record.
abbrev pub shelf_with : RecordKind → StoredRecord → Shelf
shelf_with kind r = record {
  handle = handle_of kind;
  rows = record empty_database { records = (r.id, row_of r) ∷ []; events = (r.id, r.events) ∷ [] };
}

-- A Job that has succeeded.
abbrev done_job : StoredRecord
done_job = record {
  id = "j1";
  schema_version = some 1;
  status = some "succeeded";
  created_at = 1;
  updated_at = none;
  events = [];
  executor_job_id = none;
  route_name = none;
  body = "";
  revision = none;
}

-- A work order that is bound to this Job.
abbrev bound_order : StoredRecord
bound_order = record done_job { id = "w1"; status = some "issued"; executor_job_id = some "j1" }

abbrev pub start : Ledger
start = record {
  jobs = shelf_with job done_job;
  orders = shelf_with work_order bound_order;
  candidates = shelf_of candidate;
  reviews = shelf_of review;
  dispositions = shelf_of disposition;
}

abbrev pub candidate_json : Json
candidate_json = object (
    field "workOrderId" (text "w1") (
      field "executorJobId" (text "j1") (
        field "artifact"
          (object (
            field "path" (text "fix.patch")
              (field "sha256" (text "d1") (field "baseCommit" (text "c0") no_fields))))
          no_fields)))

abbrev pub sound : ReviewRequest
sound = record {
  candidate_id = "c1";
  reviewer = "ann";
  summary = "sound";
  findings = record { severity = low; message = "typo"; evidence = "line 3" } ∷ [];
}

abbrev pub decision_json : String → Json
decision_json decision = object (
    field "candidateId" (text "c1") (
      field "reviewId" (text "r1") (
        field "decision" (text decision)
          (field "decidedBy" (text "bob") (field "rationale" (text "reviewed") no_fields)))))

abbrev fix : CandidateRequest
fix = record {
  work_order_id = "w1";
  executor_job_id = "j1";
  artifact = record { path = "fix.patch"; sha256 = "d1"; base_commit = "c0" };
}

abbrev pub verdict : DispositionRequest
verdict = record {
  candidate_id = "c1";
  review_id = "r1";
  decision = accept;
  decided_by = "bob";
  rationale = "reviewed";
}

abbrev pub made : Entry CandidateRequest
made = new_entry "c1" 30 "candidate.created" fix

abbrev pub reviewed : Entry ReviewRequest
reviewed = new_entry "r1" 40 "review.created" sound

abbrev pub decided : Entry DispositionRequest
decided = new_entry "disposition_dc1" 50 "disposition.recorded" verdict

-- The stores after the candidate, after its review, and after its disposition.
abbrev pub with_candidate : Ledger
with_candidate = record start {
  candidates = shelf_with candidate (to_stored formats.candidate_codec made);
}

abbrev pub with_review : Ledger
with_review = record with_candidate {
  reviews = shelf_with review (to_stored formats.review_codec reviewed);
}

abbrev pub with_disposition : Ledger
with_disposition = record with_review {
  dispositions = shelf_with disposition (to_stored formats.disposition_codec decided);
}

pub makes_candidate :
    create_candidate formats "c1" 30 candidate_json start ≡ ok (made, with_candidate)
unfolding create_candidate normalize_candidate normalize_artifact has_recorded_artifact artifact_eq
    create_entry get_entry create get materialize materialize_version insert_new insert_row
    serialize_bounded assert_events assert_events_from assert_open object_fields filled_text
    get_field text_eq is_blank utf8_bytes insert_events insert_event lookup put empty_database
    new_entry to_stored of_stored attach_revision parse
makes_candidate = refl

pub makes_review :
    create_review formats "r1" 40 (review_json sound) with_candidate ≡ ok (reviewed, with_review)
unfolding create_review normalize_review normalize_findings normalize_finding read_severity
    array_items review_json findings_json finding_json severity_text has_own has_exact_keys
    create_entry get_entry create get materialize materialize_version insert_new insert_row
    serialize_bounded assert_events assert_events_from assert_open object_fields filled_text
    get_field text_eq is_blank utf8_bytes insert_events insert_event lookup put empty_database
    new_entry to_stored of_stored attach_revision parse
makes_review = refl

pub makes_disposition :
    record_disposition formats 50 (decision_json "accept") with_review
    ≡ ok (decided, with_disposition)
unfolding disposition_id severity_text record_disposition create_disposition check_sources
    settle_record normalize_disposition read_decision has_own has_exact_keys create_entry get_entry
    create get materialize materialize_version insert_new insert_row serialize_bounded assert_events
    assert_events_from assert_open object_fields filled_text get_field text_eq is_blank utf8_bytes
    insert_events insert_event lookup put empty_database new_entry to_stored of_stored
    attach_revision parse
makes_disposition = refl
