-- ===== src/Store/Replay.antt =====
-- What the calls of `Scenario` on src/durable-record-store.ts return, and the histories they make.
use agentknot.Common.{
  [], any, arith, false, is_blank, is_space, lookup, none, ok, pair_eq, put, refl, some, text_eq,
  text_key, true, utf16_length, utf8_bytes, ◌∷◌, ◌≡◌,
}
use agentknot.Store.Admission.{
  admit, admit_capacity, admit_new, admitted_before, assert_capacity_option, assert_idempotency,
  check_admission, created, existing, existing_record, insert_idempotency,
}
use agentknot.Store.Capacity.{
  enqueue_capacity, grant_capacity, has_acquired, is_job, is_leased, is_next, is_waiting_row,
  of_record, try_acquire_capacity, try_acquire_capacity_in_transaction, waiting,
}
use agentknot.Store.EventLog.{IsWellFormed}
use agentknot.Store.Fairness.{holds}
use agentknot.Store.Leases.{
  claim_existing, claim_expired_statement, claim_first, claim_lease, claim_lease_in_transaction,
  hand_over_capacity, read_lease, renew_statement,
}
use agentknot.Store.Records.{
  assert_lease, assert_lease_current, assert_not_cancelled, get, has_status, insert_cancellation,
  insert_new, is_current, is_terminal, parse, request_cancellation, save, supports_save,
  write_snapshot,
}
use agentknot.Store.Scenario.{
  admission, bob_lease, cancellation, capacity_row, db_1, db_2, db_3, db_3_queued, db_4, db_5, db_6,
  first, job_store, lease, lease_row, read, record_row, running, second, third,
}
use agentknot.Store.Sql.{
  empty_database, insert_event, insert_events, insert_row, select_events, update_capacity,
  update_lease, update_record,
}
use agentknot.Store.Steps.{Reach, Step, extended, unmoved}
use agentknot.Store.Types.{
  assert_append_only, assert_capacity_limit, assert_events, assert_events_from, assert_identifier,
  assert_open, assert_ttl, assert_unchanged_from, attach_revision, event_eq, is_digest, materialize,
  materialize_version, serialize_bounded,
}

-- What the calls return.

pub calls :
    (admit job_store first (admission "alice" "one" (some 1)) empty_database
      ≡ ok (created (read first) (lease "job_1" "alice" 10), db_1))
    × (admit job_store second (admission "bob" "two" (some 1)) db_1
        ≡ ok (created (read second) (lease "job_2" "bob" 10), db_2))
    × (admit job_store third (admission "carol" "three" none) db_2
        ≡ ok (created (read third) (lease "job_3" "carol" 10), db_3))
    × (save job_store running (some (lease "job_1" "alice" 10)) 20 db_3
        ≡ ok (attach_revision running 2, db_4))
    × (request_cancellation job_store "job_1" "http" 30 db_4 ≡ ok (some cancellation, db_5))
    × (claim_lease job_store "job_1" "bob" 100 200 db_5 ≡ ok (some bob_lease, db_6))
    × (admit job_store second (admission "dora" "one" none) db_6
        ≡ ok (existing (attach_revision running 2), db_6))
    × (try_acquire_capacity job_store (lease "job_3" "carol" 10) 2 20 db_3
        ≡ ok (waiting, db_3_queued))
unfolding text_eq pair_eq lookup put is_space is_blank utf16_length utf8_bytes assert_open
    assert_identifier assert_ttl assert_capacity_limit is_digest event_eq attach_revision
    assert_events_from assert_events materialize_version serialize_bounded materialize
    assert_unchanged_from assert_append_only empty_database insert_row insert_event insert_events
    select_events update_record update_lease update_capacity parse insert_new supports_save
    is_current assert_lease_current assert_lease has_status assert_not_cancelled write_snapshot save
    is_terminal insert_cancellation request_cancellation read_lease renew_statement
    claim_expired_statement hand_over_capacity claim_first claim_existing claim_lease_in_transaction
    claim_lease enqueue_capacity is_leased of_record has_acquired is_next is_waiting_row
    grant_capacity try_acquire_capacity_in_transaction is_job assert_capacity_option
    assert_idempotency admitted_before insert_idempotency admit_capacity admit_new check_admission
    admit existing_record get try_acquire_capacity
calls = (refl, refl, refl, refl, refl, refl, refl, refl)

-- What stands in the tables.
pub rows :
    (lookup "job_1" db_5.execution_leases ≡ some (lease_row "alice" 1 10))
    × (lookup "job_1" db_4.records ≡ some (record_row running 2 2))
    × (db_3.execution_capacity
        ≡ capacity_row "job_1" "alice" (some 10) ∷ capacity_row "job_2" "bob" none ∷ [])
    × (is_leased db_3.execution_leases 20 (capacity_row "job_2" "bob" none) ≡ true)
    × (any (of_record "job_3") (capacity_row "job_1" "alice" (some 10) ∷ []) ≡ false)
    × (any (holds "job_3") db_3.execution_capacity ≡ false)
unfolding text_eq pair_eq lookup put is_space is_blank utf16_length utf8_bytes assert_open
    assert_identifier assert_ttl assert_capacity_limit is_digest event_eq attach_revision
    assert_events_from assert_events materialize_version serialize_bounded materialize
    assert_unchanged_from assert_append_only empty_database insert_row insert_event insert_events
    select_events update_record update_lease update_capacity parse insert_new supports_save
    is_current assert_lease_current assert_lease has_status assert_not_cancelled write_snapshot save
    is_terminal insert_cancellation request_cancellation read_lease renew_statement
    claim_expired_statement hand_over_capacity claim_first claim_existing claim_lease_in_transaction
    claim_lease enqueue_capacity is_leased of_record has_acquired is_next is_waiting_row
    grant_capacity try_acquire_capacity_in_transaction is_job assert_capacity_option
    assert_idempotency admitted_before insert_idempotency admit_capacity admit_new check_admission
    admit
rows = (refl, refl, refl, refl, refl, refl)

pub start_IsWellFormed : IsWellFormed empty_database
unfolding empty_database lookup
start_IsWellFormed id = refl

pub history_3 : Reach 1 empty_database db_3
history_3 =
    extended
      (extended (extended unmoved (Step.admits job_store first _ (omega arith) calls.0))
        (Step.admits job_store second _ (omega arith) calls.1))
      (Step.admits job_store third _ tt calls.2)

pub history_4 : Reach 1 empty_database db_4
history_4 = extended history_3 (Step.saves job_store running _ 20 calls.3)

pub history_5 : Reach 1 db_4 db_5
history_5 = extended unmoved (Step.cancels job_store "job_1" "http" 30 calls.4)

pub history_6 : Reach 1 db_5 db_6
history_6 = extended unmoved (Step.claims job_store "job_1" "bob" 100 200 calls.5)

pub history_2_6 : Reach 1 db_1 db_6
history_2_6 =
    extended
      (extended
        (extended
          (extended (extended unmoved (Step.admits job_store second _ (omega arith) calls.1))
            (Step.admits job_store third _ tt calls.2))
          (Step.saves job_store running _ 20 calls.3))
        (Step.cancels job_store "job_1" "http" 30 calls.4))
      (Step.claims job_store "job_1" "bob" 100 200 calls.5)
