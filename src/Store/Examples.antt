-- ===== src/Store/Examples.antt =====
-- The theorems on src/durable-record-store.ts, applied to the calls of `Scenario`.
use agentknot.Common.{
  String, [], all, arith, false, get_elem?, leb, lookup, ltb, none, ok, refl, some, text_eq,
  text_eq_iff, text_key, true, ℕ, ◌%◌, ◌+◌, ◌∷◌, ◌≡◌, ◌≢◌,
}
use agentknot.Store.Admission.{AdmissionResult, existing}
use agentknot.Store.AdmittedOnce.{admitted_once}
use agentknot.Store.Capacity.{acquired, try_acquire_capacity, waiting}
use agentknot.Store.EventLog.{LogMoves, events_after_lem}
use agentknot.Store.Fairness.{no_overtaking}
use agentknot.Store.FencedOut.{fenced_out}
use agentknot.Store.Guarantees.{cancellation_holds, no_lost_update}
use agentknot.Store.History.{Reach-LogMoves}
use agentknot.Store.Leases.{renew_lease}
use agentknot.Store.Records.{events_after, get, save}
use agentknot.Store.Replay.{
  calls, history_2_6, history_3, history_4, history_5, history_6, rows, start_IsWellFormed,
}
use agentknot.Store.RoutePool.{
  Choice, active_before, active_count, choose, has_route, is_least, minimum, select_from,
  select_member,
}
use agentknot.Store.RoutePoolChoice.{choose_lem, passed_over}
use agentknot.Store.Scenario.{
  admission, bob_lease, cancellation, capacity_row, db_3, db_3_queued, db_4, db_5, db_6, digest,
  done, first, job_store, keyed, lease, lease_row, read, record_row, running, second, started,
}
use agentknot.Store.Sql.{Database, empty_database}
use agentknot.Store.StepCapacity.{IsBounded, Reach-capacity_bound}
use agentknot.Store.Steps.{unmoved}
use agentknot.Store.Types.{StoredRecord, attach_revision}

Reach-capacity_bound_example : IsBounded 1 db_3
unfolding empty_database
Reach-capacity_bound_example = Reach-capacity_bound 1 history_3 (omega arith)

names_differ : (s t : String) → text_eq s t ≡ false → s ≢ t
names_differ s t h e = ground (arith, text_eq_iff s t)

fenced_out_example :
    (save job_store running (some (lease "job_1" "alice" 10)) 210 db_6 ≢ ok (running, db_6))
    × (try_acquire_capacity job_store (lease "job_1" "alice" 10) 1 210 db_6 ≢ ok (acquired, db_6))
    × (renew_lease job_store (lease "job_1" "alice" 10) 100 210 db_6 ≢ ok (true, db_6))
unfolding text_eq
fenced_out_example =
    fenced_out {bound = 1} job_store job_store (lease "job_1" "alice" 10) bob_lease
      (lease_row "alice" 1 10) "bob" 100 200 db_5 210 100 1 running (running, db_6) (acquired, db_6)
      db_6 (names_differ "alice" "" refl) rows.0 refl refl (names_differ "bob" "alice" refl) calls.5
      unmoved refl

no_lost_update_example : save job_store (read first) none 40 db_5 ≢ ok (first, db_5)
unfolding attach_revision
no_lost_update_example =
    no_lost_update job_store job_store running (read first) (attach_revision running 2)
      (some (lease "job_1" "alice" 10)) none 20 40 db_3 (first, db_5)
      (Reach-LogMoves history_3 start_IsWellFormed).0 calls.3 history_5 refl refl

cancellation_holds_example : save job_store done none 210 db_6 ≢ ok (done, db_6)
cancellation_holds_example =
    cancellation_holds job_store job_store "job_1" "http" 30 210 db_4 cancellation done none
      (done, db_6) (Reach-LogMoves history_4 start_IsWellFormed).0 calls.4 history_6 refl refl

abbrev again : AdmissionResult × Database
again = (existing (attach_revision (record running { revision = none }) 2), db_6)

admitted_once_example :
    (digest ≡ digest) × ((e : StoredRecord) × (again ≡ (existing e, db_6)) × (e.id ≡ "job_1"))
unfolding attach_revision
admitted_once_example =
    admitted_once job_store job_store first second (read first) (lease "job_1" "alice" 10)
      (admission "alice" "one" (some 1)) (admission "dora" "one" none) (keyed "one") (keyed "one")
      empty_database again start_IsWellFormed (omega arith) refl calls.0 history_2_6 refl refl refl
      calls.6

no_overtaking_example : waiting ≡ waiting
no_overtaking_example =
    no_overtaking job_store (lease "job_3" "carol" 10) 2 20 db_3
      (capacity_row "job_1" "alice" (some 10) ∷ []) [] (capacity_row "job_2" "bob" none)
      (waiting, db_3_queued) refl refl rows.3
      (names_differ "job_2" "job_3" (unfold text_eq in refl)) rows.4 rows.5 calls.7

events_after_lem_example :
    (events_after job_store "job_1" 1 db_4 ≡ ok (started 2 ∷ []))
    × (get job_store "job_1" db_4
        ≡ ok (some (attach_revision (record_row running 2 2).record_json 2)))
events_after_lem_example =
    events_after_lem job_store db_4 "job_1" (record_row running 2 2) 1 refl (omega arith)
      (Reach-LogMoves history_4 start_IsWellFormed).0 rows.1

Reach-LogMoves_example : LogMoves empty_database db_3
Reach-LogMoves_example = Reach-LogMoves history_3 start_IsWellFormed

-- No lease of `db_3` is on another route, and the pool has no cursor yet.
choose_lem_example :
    (choice : Choice) × (m : ℕ) × (choose db_3 "pool" ("fast" ∷ "slow" ∷ []) 20 ≡ ok choice)
    × (choice.cursor_before ≡ 0)
    × (choice.selected_member_index ≡ (choice.cursor_before + m) % 2)
    × (get_elem? ("fast" ∷ "slow" ∷ []) choice.selected_member_index ≡ some choice.selected_route)
    × (all
          (λ other. leb (active_count db_3 20 choice.selected_route) (active_count db_3 20 other))
          ("fast" ∷ "slow" ∷ [])
        ≡ true)
    × (all
          (λ other. ltb (active_count db_3 20 choice.selected_route) (active_count db_3 20 other))
          (passed_over ("fast" ∷ "slow" ∷ []) choice.cursor_before m)
        ≡ true)
unfolding lookup
choose_lem_example = choose_lem db_3 "pool" "fast" ("slow" ∷ []) 20

-- Each of the three leases is on the route "fast", so the other one is chosen.
slow_is_chosen :
    choose db_3 "pool" ("fast" ∷ "slow" ∷ []) 20
    ≡ ok (record {
      active_before = ("fast", 3) ∷ ("slow", 0) ∷ [];
      cursor_before = 0;
      selected_route = "slow";
      selected_member_index = 1;
    })
unfolding choose active_before active_count has_route lookup text_eq select_member select_from
    is_least minimum
slow_is_chosen = refl
