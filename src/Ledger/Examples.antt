-- ===== src/Ledger/Examples.antt =====
-- Concrete calls of the services of src/candidate.ts, src/review.ts and src/disposition.ts.
use agentknot.Common.{
  arith, err, get_field, has_own, is_blank, lookup, ok, put, refl, text_eq, text_eq_iff, text_key,
  utf8_bytes, ◌≡◌, ◌≢◌, ◌⊎◌,
}
use agentknot.Ledger.Bodies.{formats, formats-Reads}
use agentknot.Ledger.Chain.{IsEvidenced, create_candidate-IsEvidenced}
use agentknot.Ledger.Entries.{create_entry, get_entry, new_entry, of_stored, to_stored}
use agentknot.Ledger.EntryLaws.{entry_at}
use agentknot.Ledger.Evidence.{IsChained, Runs-IsChained}
use agentknot.Ledger.Finality.{record_disposition-answer}
use agentknot.Ledger.OrderRows.{Keyed}
use agentknot.Ledger.RequestLaws.{
  IsWithin, finding_json, findings_json, normalize_review_lem, review_json, severity_text,
}
use agentknot.Ledger.Requests.{
  DispositionRequest, array_items, discard, disposition_conflict, filled_text, has_exact_keys,
  normalize_disposition, normalize_finding, normalize_findings, normalize_review, object_fields,
  read_decision, read_severity,
}
use agentknot.Ledger.Scenario.{
  candidate_json, decided, decision_json, made, makes_candidate, makes_disposition, makes_review,
  reviewed, shelf_of, sound, start, verdict, with_candidate, with_disposition, with_review,
}
use agentknot.Ledger.Services.{Ledger, check_sources, record_disposition}
use agentknot.Ledger.Shelves.{stands}
use agentknot.Ledger.Steps.{
  changes_jobs, creates_candidate, creates_review, goes_on, records_disposition, stops,
}
use agentknot.Store.Records.{get, parse}
use agentknot.Store.Sql.{empty_database}
use agentknot.Store.Types.{
  assert_events, assert_events_from, assert_open, attach_revision, job, materialize_version,
}

-- The stores after the disposition, when the Jobs are gone.
abbrev later : Ledger
later = record with_disposition { jobs = shelf_of job }

abbrev rejection : DispositionRequest
rejection = record verdict { decision = discard }

names_sources : check_sources formats (decision_json "discard") later ≡ ok rejection
unfolding severity_text check_sources normalize_disposition read_decision has_own has_exact_keys
    get_entry get materialize_version assert_events assert_events_from assert_open object_fields
    filled_text get_field text_eq is_blank utf8_bytes lookup put empty_database new_entry to_stored
    of_stored attach_revision parse
names_sources = refl

record_disposition-answer_example :
    ((rejection ≡ verdict)
      × (record_disposition formats 60 (decision_json "discard") later ≡ ok (decided, later)))
    ⊎ ((rejection ≢ verdict)
        × (record_disposition formats 60 (decision_json "discard") later
            ≡ err disposition_conflict))
unfolding new_entry
record_disposition-answer_example =
    record_disposition-answer formats formats-Reads.of_dispositions 50 60 (decision_json "accept")
      (decision_json "discard") with_review with_disposition later decided rejection
      makes_disposition (goes_on (changes_jobs (shelf_of job)) stops) names_sources refl refl

start-Keyed : Keyed start.orders.rows
unfolding Keyed lookup
start-Keyed k row there = ground (arith, there, text_eq_iff "w1" k)

start-IsChained : IsChained formats start
unfolding entry_at stands lookup empty_database text_eq
start-IsChained = record {
  orders_keyed = start-Keyed;
  candidates_bound = λ k c there. cc;
  reviews_known = λ k r there. cc;
  dispositions_reviewed = λ k d there. cc;
}

Runs-IsChained_example : IsChained formats with_disposition
Runs-IsChained_example =
    Runs-IsChained formats formats-Reads start with_disposition
      (goes_on (creates_candidate "c1" 30 candidate_json made makes_candidate) (
        goes_on (creates_review "r1" 40 (review_json sound) reviewed makes_review) (
          goes_on (records_disposition 50 (decision_json "accept") decided makes_disposition)
            stops)))
      start-IsChained

create_candidate-IsEvidenced_example :
    IsEvidenced formats start made
    × (create_entry formats.candidate_codec made start.candidates ≡ ok with_candidate.candidates)
    × (with_candidate ≡ record start { candidates = with_candidate.candidates })
create_candidate-IsEvidenced_example =
    create_candidate-IsEvidenced formats "c1" 30 candidate_json start with_candidate made
      makes_candidate

accepts_sound : normalize_review (review_json sound) ≡ ok sound
unfolding normalize_review normalize_findings normalize_finding read_severity array_items
    review_json findings_json finding_json severity_text has_own has_exact_keys object_fields
    filled_text get_field text_eq is_blank utf8_bytes
accepts_sound = refl

normalize_review_lem_example : IsWithin sound × (normalize_review (review_json sound) ≡ ok sound)
normalize_review_lem_example = normalize_review_lem (review_json sound) sound accepts_sound
