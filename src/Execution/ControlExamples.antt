-- ===== src/Execution/ControlExamples.antt =====
-- Worker controls of a concrete Job, for src/orchestrator.ts and src/worker-control.ts.
use agentknot.Common.{
  Bool, List, Option, [], arith, false, none, ok, refl, some, text_eq, true, ◌++◌, ◌+◌, ◌∷◌, ◌≡◌,
  ◌≤◌,
}
use agentknot.Execution.Channel.{
  deliver, deliver_to, handler_accepts, kind_of, normalize_kinds, of_handled,
}
use agentknot.Execution.Control.{
  after_first, after_second, control, control_by, deliver_control, fresh_control, give,
  known_control, outcome_of, record_outcome, reported_kinds, status_of, try_channel, try_delivery,
  visible_events,
}
use agentknot.Execution.ControlCounts.{times_given}
use agentknot.Execution.ControlHistory.{controls, given_once, goes_on, stops}
use agentknot.Execution.ControlLoss.{
  mark_each, mark_lost, mark_pending_lost, mark_unsettled, request_of, requests_in,
}
use agentknot.Execution.ControlMarks.{AreSettled}
use agentknot.Execution.ControlOnce.{IsGivenOnce}
use agentknot.Execution.ControlReceipts.{
  Active, Controls, Moment, find_request, find_settled, receipt, requests_id, same_request,
  settled_reason, settled_status, settlement, settles_id, settling,
}
use agentknot.Execution.ControlSettled.{mark_pending_lost-AreSettled}
use agentknot.Execution.ControlTypes.{ControlRequest, accepted, lost, owner_lost, steer}
use agentknot.Execution.Log.{
  Env, Event, EventType, Job, Run, append_event, append_typed, appended_type, control_lost,
  control_requested, drop_last, emit, is_worker, limit_data, new_event, notify, notify_observer,
  persist, persisted, push_event, queued, running, undo_push,
}

abbrev running_job : Job
running_job = record {
  id = "job";
  status = running;
  attempt = 1;
  max_attempts = 2;
  events = record { sequence = 1; at = 0; type = queued } ∷ [];
  updated_at = 0;
  started_at = none;
  completed_at = none;
  result = none;
  error = none;
  artifacts = [];
  attempt_usage = [];
}

abbrev steady : Env
steady = record {
  save = λ n. none;
  now = λ n. n + 1;
  observer_throws = λ e. false;
  exceeds = λ t. false;
}

abbrev stop_it : ControlRequest
stop_it = record { control_id = "k1"; attempt = 1; kind = steer; message = "stop" }

abbrev ready : Moment
ready = record {
  closes = false;
  is_current = true;
  kinds = some ("steer" ∷ []);
  channel = record { is_closed = false; handler = some 7 };
  answers = λ h. handler_accepts;
}

abbrev first_attempt : Option Active
first_attempt = some (record { attempt = 1; is_closing = false })

abbrev before : Controls
before = record { run = record { job = running_job; calls = 0; stored = running_job }; given = [] }

abbrev once_asked : Controls
once_asked = (control steady first_attempt stop_it ready before).0

-- The second call answers from the log.
asks_twice :
    (control steady first_attempt stop_it ready once_asked).1
    ≡ ok (record {
      request = stop_it;
      status = accepted;
      durable = true;
      requested_at = 1;
      settled_at = 2;
      reason = none;
    })
unfolding control control_by visible_events find_request fresh_control known_control deliver_control
    after_first after_second record_outcome try_delivery outcome_of reported_kinds try_channel
    normalize_kinds kind_of deliver deliver_to of_handled status_of give receipt emit append_event
    append_typed appended_type persist persisted limit_data undo_push drop_last notify
    notify_observer push_event new_event is_worker settling settlement find_settled settles_id
    settled_status settled_reason requests_id same_request text_eq
asks_twice = refl

-- The log does not keep the data of a request over the limit, so the handler is given it again.
abbrev narrow : Env
narrow = record steady { exceeds = request_exceeds }
  where
    request_exceeds : EventType → Bool
    request_exceeds (control_requested q) = true
    request_exceeds _ = false

given_twice :
    times_given "k1"
      (control narrow first_attempt stop_it ready
        (control narrow first_attempt stop_it ready before).0).0.given
    ≡ 2
unfolding control control_by visible_events find_request fresh_control known_control deliver_control
    after_first after_second record_outcome try_delivery outcome_of reported_kinds try_channel
    normalize_kinds kind_of deliver deliver_to of_handled status_of give receipt emit append_event
    append_typed appended_type persist persisted limit_data undo_push drop_last notify
    notify_observer push_event new_event is_worker settling settlement find_settled settles_id
    settled_status settled_reason requests_id same_request text_eq
given_twice = refl

before-IsGivenOnce : IsGivenOnce "k1" before
unfolding requests_id
before-IsGivenOnce = (omega arith, omega arith)

given_once_example :
    times_given "k1" (control steady first_attempt stop_it ready once_asked).0.given ≤ 1
given_once_example =
    given_once steady "k1" before (control steady first_attempt stop_it ready once_asked).0
      (λ q same. refl)
      (goes_on (controls first_attempt stop_it ready)
        (goes_on (controls first_attempt stop_it ready) stops))
      before-IsGivenOnce

-- A Job whose owner was lost with a control in flight.
abbrev pending_job : Job
pending_job = record running_job {
  events =
      record { sequence = 1; at = 0; type = queued }
      ∷ record { sequence = 2; at = 0; type = control_requested stop_it }
      ∷ [];
}

abbrev pending : Run
pending = record { job = pending_job; calls = 0; stored = pending_job }

abbrev settled_events : List Event
settled_events =
    pending_job.events
    ++ record {
      sequence = 3;
      at = 1;
      type = control_lost (record {
        control_id = "k1";
        attempt = 1;
        kind = steer;
        status = lost;
        reason = some owner_lost;
      });
    }
      ∷ []

abbrev settled_job : Job
settled_job = record pending_job { events = settled_events; updated_at = 1 }

abbrev settled_run : Run
settled_run = record { job = settled_job; calls = 1; stored = settled_job }

gives_up_one : mark_pending_lost steady 1 owner_lost pending ≡ (settled_run, ok tt)
unfolding mark_pending_lost mark_each mark_lost mark_unsettled request_of requests_in find_settled
    settles_id emit append_event append_typed appended_type persist persisted limit_data undo_push
    drop_last notify notify_observer push_event new_event is_worker settling settlement text_eq
gives_up_one = refl

mark_pending_lost-AreSettled_example : AreSettled 1 settled_run pending_job.events
mark_pending_lost-AreSettled_example =
    mark_pending_lost-AreSettled steady owner_lost (λ s. refl) 1 pending settled_run tt refl
      gives_up_one
