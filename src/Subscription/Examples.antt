-- ===== src/Subscription/Examples.antt =====
-- A subscription of src/durable-subscription.ts to a record of `Store.Scenario`.
use agentknot.Common.{
  List, [], arith, false, length, lookup, ok, refl, text_eq, text_key, ◌∷◌, ◌≡◌, ◌≤◌,
}
use agentknot.Store.History.{Reach-LogMoves}
use agentknot.Store.Records.{events_after, get, has_status, is_terminal, parse}
use agentknot.Store.Replay.{calls, history_3, start_IsWellFormed}
use agentknot.Store.Scenario.{db_3, db_4, job_store, running, started}
use agentknot.Store.Sql.{event_rows, select_events}
use agentknot.Store.Steps.{Step, extended, unmoved}
use agentknot.Store.Types.{
  assert_events, assert_events_from, assert_open, attach_revision, materialize_version,
  max_safe_integer,
}
use agentknot.Subscription.Delivery.{Follows, final_database}
use agentknot.Subscription.Endings.{EndsAs}
use agentknot.Subscription.Exact.{IsExact}
use agentknot.Subscription.Subscribe.{
  Delivered, Round, deliver, last_sequence, ongoing, settle, subscribe_rounds, validate_sequence,
}
use agentknot.Subscription.Total.{subscribe_rounds-IsExact}

abbrev rounds : List Round
rounds =
    record { aborted = false; at_events = db_3; at_get = db_3 }
    ∷ record { aborted = false; at_events = db_4; at_get = db_4 }
    ∷ []

abbrev delivered : Delivered
delivered = record { events = started 1 ∷ started 2 ∷ []; cursor = 2; ending = ongoing }

sent : subscribe_rounds job_store is_terminal "job_1" 0 rounds ≡ ok delivered
unfolding subscribe_rounds validate_sequence deliver last_sequence settle events_after select_events
    get assert_open lookup text_eq parse materialize_version assert_events assert_events_from
    attach_revision is_terminal has_status
sent = refl

rounds_follow : Follows 1 db_3 rounds
rounds_follow =
    (unmoved, unmoved, (extended unmoved (Step.saves job_store running _ 20 calls.3), unmoved, tt))

log_is_short : length (event_rows "job_1" (final_database db_3 rounds)) ≤ max_safe_integer
unfolding lookup text_eq
log_is_short = omega arith

subscribe_rounds-IsExact_example :
    (d : Delivered) × (subscribe_rounds job_store is_terminal "job_1" 0 rounds ≡ ok d)
    × IsExact (event_rows "job_1" db_4) 0 d
    × EndsAs job_store is_terminal "job_1" rounds d.cursor d.ending
subscribe_rounds-IsExact_example =
    subscribe_rounds-IsExact 1 job_store is_terminal "job_1" 0 db_3 rounds refl
      (Reach-LogMoves history_3 start_IsWellFormed).0 rounds_follow (omega arith) log_is_short
