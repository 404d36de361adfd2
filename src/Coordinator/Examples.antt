-- ===== src/Coordinator/Examples.antt =====
-- A Job under one coordinator of src/durable-execution.ts, and another one that takes it over.
use agentknot.Common.{
  List, Option, String, Table, [], arith, false, lookup, none, ok, put, refl, some, text_eq,
  text_eq_iff, text_key, true, utf16_length, ℕ, ◌+◌, ◌∷◌, ◌≡◌, ◌≢◌, ◌≤◌,
}
use agentknot.Coordinator.Capacity.{holds_capacity, wait_for_capacity_lem}
use agentknot.Coordinator.Heartbeat.{beat-tolerates}
use agentknot.Coordinator.Operations.{
  Coordinator, Options, beat, beat_of, beat_with, beats, claim, new_coordinator, save_record,
}
use agentknot.Coordinator.Superseded.{superseded}
use agentknot.Coordinator.Waiting.{Round, settle_round, wait_for_capacity, wait_rounds}
use agentknot.Store.Capacity.{
  enqueue_capacity, grant_capacity, has_acquired, is_job, is_leased, is_next, is_waiting_row,
  of_record, try_acquire_capacity, try_acquire_capacity_in_transaction,
}
use agentknot.Store.Leases.{
  claim_existing, claim_expired_statement, claim_lease, claim_lease_in_transaction,
  hand_over_capacity, read_lease, renew_lease, renew_statement,
}
use agentknot.Store.Records.{get_cancellation, is_current}
use agentknot.Store.Scenario.{first, job_store, lease}
use agentknot.Store.Sql.{Database, LeaseRow, empty_database, update_capacity, update_lease}
use agentknot.Store.Steps.{unmoved}
use agentknot.Store.Types.{
  ExecutionLease, assert_capacity_limit, assert_identifier, assert_open, assert_ttl,
}

abbrev options : Options
options = record {
  lease_ttl = some 100;
  lease_heartbeat = some 20;
  capacity_limit = some 1;
  capacity_poll = none;
}

abbrev empty_coordinator : Coordinator
empty_coordinator = record {
  store = job_store;
  keeps_capacity = true;
  ttl = 100;
  heartbeat = 20;
  limit = some 1;
  poll = 100;
  leases = [];
}

abbrev alice_leases : Table String ExecutionLease
alice_leases = ("job_1", lease "job_1" "alice" 10) ∷ []

abbrev alice : Coordinator
alice = record empty_coordinator { leases = alice_leases }

abbrev alice_row : ℕ → LeaseRow
alice_row at = record {
  owner_id = "alice";
  fence = 1;
  acquired_at = 10;
  heartbeat_at = at;
  expires_at = at + 100;
}

-- The Job with its lease and its place in the queue for capacity.
abbrev leased : ℕ → Option ℕ → Database
leased at acquired_at = record empty_database {
  records =
      (
        "job_1",
        record {
          created_at = 10;
          updated_at = 10;
          revision = 1;
          event_sequence = 1;
          record_json = first;
        },
      )
      ∷ [];
  execution_leases = ("job_1", alice_row at) ∷ [];
  execution_capacity =
      record { record_id = "job_1"; owner_id = "alice"; fence = 1; acquired_at = acquired_at } ∷ [];
}

beat-tolerates_example : (beat alice "job_1" 55 (leased 15 none)).0 ≡ beats
unfolding new_coordinator beat beat_with beat_of get_cancellation assert_open assert_ttl renew_lease
    renew_statement update_lease lookup put text_eq empty_database
beat-tolerates_example =
    beat-tolerates job_store true options empty_coordinator alice_leases "job_1" 15 55
      (leased 10 none) (leased 15 none) refl refl (omega arith)

names_differ : (s t : String) → text_eq s t ≡ false → s ≢ t
names_differ s t h e = ground (arith, text_eq_iff s t)

abbrev rounds : List Round
rounds =
    record {
      aborted = false;
      delay_aborted = false;
      report_throws = false;
      now = 20;
      db = leased 10 none;
    }
    ∷ []

wait_for_capacity_lem_example :
    ((wait_for_capacity alice "job_1" rounds).0 ≤ 1)
    × (holds_capacity "job_1" (leased 10 (some 20)).execution_capacity ≡ true)
unfolding wait_for_capacity wait_rounds settle_round try_acquire_capacity
    try_acquire_capacity_in_transaction grant_capacity enqueue_capacity is_leased has_acquired
    of_record is_next is_waiting_row update_capacity is_current assert_open assert_capacity_limit
    is_job text_eq lookup empty_database
wait_for_capacity_lem_example =
    wait_for_capacity_lem alice "job_1" (lease "job_1" "alice" 10) rounds (leased 10 (some 20)) refl
      refl

abbrev bob_lease : ExecutionLease
bob_lease = record {
  record_id = "job_1";
  owner_id = "bob";
  fence = 2;
  acquired_at = 200;
  heartbeat_at = 200;
  expires_at = 300;
}

abbrev bob : Coordinator
bob = record empty_coordinator { leases = ("job_1", bob_lease) ∷ [] }

abbrev taken : Database
taken = record (leased 10 none) {
  execution_leases =
      (
        "job_1",
        record {
          owner_id = "bob";
          fence = 2;
          acquired_at = 200;
          heartbeat_at = 200;
          expires_at = 300;
        },
      )
      ∷ [];
  execution_capacity =
      record { record_id = "job_1"; owner_id = "bob"; fence = 2; acquired_at = none } ∷ [];
}

superseded_example :
    (save_record alice first 210 taken ≢ ok (first, taken))
    × ((beat alice "job_1" 210 taken).0 ≢ beats)
unfolding claim claim_lease claim_lease_in_transaction claim_existing claim_expired_statement
    update_lease read_lease hand_over_capacity update_capacity assert_open assert_identifier
    assert_ttl text_eq lookup put empty_database utf16_length
superseded_example =
    superseded {bound = 1} alice empty_coordinator bob "job_1" "bob" (lease "job_1" "alice" 10)
      bob_lease (alice_row 10) 200 210 (leased 10 none) first (first, taken) refl refl
      (names_differ "alice" "" refl) refl refl refl (names_differ "bob" "alice" refl) refl unmoved
      refl
