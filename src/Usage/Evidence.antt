-- ===== src/Usage/Evidence.antt =====
-- src/worker-usage.ts, and the JSON text of its result.
use agentknot.Common.{
  Bool, Fields, Json, Number, Result, String, err, field, get_field, guard, has_own, if◌then◌else◌,
  leb, natural, no_fields, number, object, ok, other_number, text, text_eq, true, undefined, ℕ,
  ◌>>=◌, ◌>>◌,
}

pub data Reason : Type 0 where
  missing timeout unsupported invalid worker_failure : Reason

pub record Tokens : Type 0 where
  pub input : ℕ
  pub output : ℕ
  pub cache_read : ℕ
  pub cache_write : ℕ
  pub total : ℕ

pub data Evidence : Type 0 where
  used : Tokens → Number → Evidence
  unavailable : Reason → Evidence

abbrev pub max_safe_integer : ℕ
max_safe_integer = 9007199254740991

-- `isUnavailableReason`, with `invalid` for any other value
unfoldable pub read_reason : Json → Reason
read_reason (text s) =
    if text_eq s "missing"
    then missing
    else if text_eq s "timeout"
    then timeout
    else if text_eq s "unsupported"
    then unsupported
    else if text_eq s "worker-failure"
    then worker_failure
    else invalid
read_reason _ = invalid

-- A part of the statistics, or none: then all of them are invalid.
abbrev pub Read : Type 0 → Type 0
Read A = Result (Unit {0}) A

-- A non-negative safe integer.
unfoldable pub read_count : Json → Read ℕ
read_count (number (natural n)) = guard (leb n max_safe_integer) tt >> ok n
read_count _ = err tt

abbrev pub is_cost : Number → Bool
is_cost (natural n) = true
is_cost (other_number is s) = is

unfoldable pub read_cost : Json → Read Number
read_cost (number n) = guard (is_cost n) tt >> ok n
read_cost _ = err tt

unfoldable pub read_tokens : Json → Read Tokens
read_tokens (object fs) = do
  input ← read_count (get_field "input" fs)
  output ← read_count (get_field "output" fs)
  cache_read ← read_count (get_field "cacheRead" fs)
  cache_write ← read_count (get_field "cacheWrite" fs)
  total ← read_count (get_field "total" fs)
  ok (record {
    input = input;
    output = output;
    cache_read = cache_read;
    cache_write = cache_write;
    total = total;
  })
read_tokens _ = err tt

unfoldable pub read_usage : Fields → Read Evidence
read_usage fs = do
  tokens ← read_tokens (get_field "tokens" fs)
  cost ← read_cost (get_field "cost" fs)
  ok (used tokens cost)

abbrev pub or_invalid : Read Evidence → Evidence
or_invalid (err e) = unavailable invalid
or_invalid (ok e) = e

unfoldable pub normalize_usage : Json → Evidence
normalize_usage undefined = unavailable missing
normalize_usage (object fs) =
    if has_own "unavailableReason" fs
    then unavailable (read_reason (get_field "unavailableReason" fs))
    else or_invalid (read_usage fs)
normalize_usage _ = unavailable invalid

unfoldable pub reason_text : Reason → String
reason_text missing = "missing"
reason_text timeout = "timeout"
reason_text unsupported = "unsupported"
reason_text invalid = "invalid"
reason_text worker_failure = "worker-failure"

abbrev pub count_json : ℕ → Json
count_json n = number (natural n)

-- The evidence as the value that it is in a record.
unfoldable pub evidence_json : Evidence → Json
evidence_json (unavailable r) = object (field "unavailableReason" (text (reason_text r)) no_fields)
evidence_json (used t cost) = object (
    field "tokens"
      (object (
        field "input" (count_json t.input) (
          field "output" (count_json t.output) (
            field "cacheRead" (count_json t.cache_read) (
              field "cacheWrite" (count_json t.cache_write)
                (field "total" (count_json t.total) no_fields))))))
      (field "cost" (number cost) no_fields))
