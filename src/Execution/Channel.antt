-- ===== src/Execution/Channel.antt =====
-- src/worker-control.ts: requests of worker controls and the channel of one attempt.
use agentknot.Common.{
  Bool, Json, List, Option, Result, String, [], all, any, codes, err, expect, false, get_field,
  guard, if◌then◌else◌, is_blank, is_some, keys_among, leb, length, natural, none, not, number,
  object, ok, some, text, text_eq, true, utf8_bytes, ℕ, ◌&&◌, ◌*◌, ◌==◌, ◌>>=◌, ◌>>◌, ◌||◌, ◌∷◌,
}
use agentknot.Execution.ControlTypes.{
  ControlKind, ControlReason, ControlRequest, follow_up, handler_failed, handler_timeout, not_ready,
  steer, worker_says,
}

-- `CONTROL_ID_PATTERN`
unfoldable pub is_id_code : ℕ → Bool
is_id_code c =
    (leb b'a' c && leb c b'z')
    || (leb b'A' c && leb c b'Z')
    || (leb b'0' c && leb c b'9')
    || c == b'_'
    || c == b'-'

unfoldable pub is_control_id : String → Bool
is_control_id s = leb 1 (length (codes s)) && leb (length (codes s)) 128 && all is_id_code (codes s)

abbrev pub max_control_message_bytes : ℕ
max_control_message_bytes = 8 * 1024

-- A part of a request, or none: then the request is refused.
abbrev pub Part : Type 0 → Type 0
Part A = Result (Unit {0}) A

unfoldable pub read_version : Json → Part (Unit {0})
read_version (number (natural n)) = guard (n == 1) tt
read_version _ = err tt

unfoldable pub read_control_id : Json → Part String
read_control_id (text t) = guard (is_control_id t) tt >> ok t
read_control_id _ = err tt

unfoldable pub read_attempt : Json → Part ℕ
read_attempt (number (natural n)) = guard (leb n 9007199254740991 && leb 1 n) tt >> ok n
read_attempt _ = err tt

unfoldable pub kind_of : String → Option ControlKind
kind_of t =
    if text_eq t "steer" then some steer else if text_eq t "follow-up" then some follow_up else none

unfoldable pub read_kind : Json → Part ControlKind
read_kind (text t) = expect (kind_of t) tt
read_kind _ = err tt

unfoldable pub read_message : Json → Part String
read_message (text t) =
    guard (not (is_blank t)) tt >> (guard (leb (utf8_bytes t) max_control_message_bytes) tt >> ok t)
read_message _ = err tt

abbrev control_keys : List String
control_keys = "schemaVersion" ∷ "controlId" ∷ "attempt" ∷ "kind" ∷ "message" ∷ []

-- `validateWorkerControlRequest`
unfoldable pub validate_control : Json → Part ControlRequest
validate_control (object fs) = do
  guard (keys_among control_keys fs) tt
  read_version (get_field "schemaVersion" fs)
  id ← read_control_id (get_field "controlId" fs)
  attempt ← read_attempt (get_field "attempt" fs)
  kind ← read_kind (get_field "kind" fs)
  message ← read_message (get_field "message" fs)
  ok (record { control_id = id; attempt = attempt; kind = kind; message = message })
validate_control _ = err tt

abbrev pub kind_eq : ControlKind → ControlKind → Bool
kind_eq steer steer = true
kind_eq follow_up follow_up = true
kind_eq _ _ = false

abbrev pub has_kind : ControlKind → List ControlKind → Bool
has_kind kind kinds = any (kind_eq kind) kinds

-- `normalizeWorkerControlKinds`: each reported kind is known and none is there twice.
unfoldable pub normalize_kinds : List String → Part (List ControlKind)
normalize_kinds [] = ok []
normalize_kinds (t ∷ ts) = do
  kind ← expect (kind_of t) tt
  rest ← normalize_kinds ts
  guard (not (has_kind kind rest)) tt
  ok (kind ∷ rest)

-- What a handler does with a request.
pub data Handled : Type 0 where
  handler_accepts handler_throws handler_is_late : Handled
  handler_refuses : String → Handled

-- `AttemptWorkerControlChannel`: whether it is closed, and the handler that is bound.
pub record Channel : Type 0 where
  pub is_closed : Bool
  pub handler : Option ℕ

unfoldable pub new_channel : Channel
new_channel = record { is_closed = false; handler = none }

unfoldable pub is_ready : Channel → Bool
is_ready c = not c.is_closed && is_some c.handler

-- `bind`; the result is the channel, in which the handler is known by a number.
unfoldable pub bind_handler : ℕ → Channel → Part Channel
bind_handler h c = do
  guard (not c.is_closed) tt
  guard (not (is_some c.handler)) tt
  ok (record c { handler = some h })

unfoldable pub is_handler : ℕ → Option ℕ → Bool
is_handler h none = false
is_handler h (some k) = h == k

-- The function that `bind` returned for a handler, on its first call.
unfoldable pub unbind_handler : ℕ → Channel → Channel
unbind_handler h c = if is_handler h c.handler then record c { handler = none } else c

unfoldable pub close_channel : Channel → Channel
close_channel c = record { is_closed = true; handler = none }

-- `WorkerControlDeliveryResult`
pub record Delivery : Type 0 where
  pub delivered : Bool
  pub uncertain : Bool
  pub refusal : Option ControlReason

-- What a call of the handler, or the timer that runs beside it, comes to.
unfoldable pub of_handled : Handled → Delivery
of_handled handler_accepts = record { delivered = true; uncertain = false; refusal = none }
of_handled (handler_refuses t) = record {
  delivered = true;
  uncertain = false;
  refusal = some (worker_says t);
}
of_handled handler_throws = record {
  delivered = true;
  uncertain = true;
  refusal = some handler_failed;
}
of_handled handler_is_late = record {
  delivered = true;
  uncertain = true;
  refusal = some handler_timeout;
}

unfoldable pub deliver_to : Option ℕ → Bool → (ℕ → Handled) → Delivery
deliver_to none is_closed answers = record {
  delivered = false;
  uncertain = false;
  refusal = some not_ready;
}
deliver_to (some h) true answers = record {
  delivered = false;
  uncertain = false;
  refusal = some not_ready;
}
deliver_to (some h) false answers = of_handled (answers h)

-- `deliver`, where `answers` is what each handler does with the request
unfoldable pub deliver : Channel → (ℕ → Handled) → Delivery
deliver c answers = deliver_to c.handler c.is_closed answers
