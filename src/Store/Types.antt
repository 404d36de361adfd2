-- ===== src/Store/Types.antt =====
-- The records, errors and handle of src/durable-record-store.ts, and the checks on arguments.
-- Times are milliseconds. What the store does not look at in a record or an event is one `body`.
use agentknot.Common.{
  Bool, List, Option, Result, String, [], all, arith, codes, err, guard, leb, length, none, not, ok,
  some, suc, text_eq, text_eq_iff, true, utf16_length, ℕ, ◌&&◌, ◌*◌, ◌==◌, ◌>>=◌, ◌>>◌, ◌||◌, ◌∷◌,
  ◌≡◌,
}

pub data RecordKind : Type 0 where
  job orchestration work_order candidate review disposition : RecordKind

pub record StoredEvent : Type 0 where
  pub sequence : ℕ
  pub at : ℕ
  pub type : String
  pub body : String

pub record StoredRecord : Type 0 where
  pub id : String
  pub schema_version : Option ℕ
  pub status : Option String
  pub created_at : ℕ
  pub updated_at : Option ℕ
  pub events : List StoredEvent
  pub executor_job_id : Option String
  pub route_name : Option String
  pub body : String
  pub revision : Option ℕ  -- the hidden `REVISION` property, which JSON leaves out

pub record ExecutionLease : Type 0 where
  pub record_id : String
  pub owner_id : String
  pub fence : ℕ
  pub acquired_at : ℕ
  pub heartbeat_at : ℕ
  pub expires_at : ℕ

pub record CancellationRequest : Type 0 where
  pub record_id : String
  pub requested_at : ℕ
  pub source : String

pub data StoreError : Type 0 where
  store_closed invalid_argument unsupported_operation unsupported_schema : StoreError
  invalid_event : ℕ → StoreError
  record_too_large constraint_failed missing_record stale_revision lease_lost : StoreError
  cancellation_requested : CancellationRequest → StoreError
  removed_events : StoreError
  rewritten_event : ℕ → StoreError
  sequence_mismatch not_issued binding_conflict idempotency_conflict : StoreError
  lease_not_observable no_admission_lease no_selectable_member route_mismatch
        missing_idempotent_record :
      StoreError

-- An open store object. `record_bytes` is the length of a record's JSON text in UTF-8.
pub record Store : Type 0 where
  pub kind : RecordKind
  pub closed : Bool
  pub record_bytes : StoredRecord → ℕ

abbrev pub max_safe_integer : ℕ
max_safe_integer = 9007199254740991

abbrev pub max_record_bytes : ℕ
max_record_bytes = 16 * 1024 * 1024

unfoldable pub assert_open : Store → Result StoreError (Unit {0})
assert_open s = guard (not s.closed) store_closed

unfoldable pub assert_identifier : String → Result StoreError (Unit {0})
assert_identifier value =
    guard (leb 1 (utf16_length value) && leb (utf16_length value) 256) invalid_argument

unfoldable pub assert_ttl : ℕ → Result StoreError (Unit {0})
assert_ttl ttl = guard (leb 1 ttl && leb ttl 86400000) invalid_argument

unfoldable pub assert_capacity_limit : ℕ → Result StoreError (Unit {0})
assert_capacity_limit limit = guard (leb 1 limit && leb limit max_safe_integer) invalid_argument

is_hex : ℕ → Bool
is_hex c = (leb b'0' c && leb c b'9') || (leb b'a' c && leb c b'f') || (leb b'A' c && leb c b'F')

-- /^[a-f0-9]{64}$/i
unfoldable pub is_digest : String → Bool
unfolding is_hex
is_digest s = length (codes s) == 64 && all is_hex (codes s)

-- Two events have the same JSON text.
unfoldable pub event_eq : StoredEvent → StoredEvent → Bool
event_eq e f =
    e.sequence == f.sequence && e.at == f.at && text_eq e.type f.type && text_eq e.body f.body

pub event_eq→eq : (e f : StoredEvent) → event_eq e f ≡ true → e ≡ f
unfolding event_eq
event_eq→eq e f h = ground (arith, text_eq_iff e.type f.type, text_eq_iff e.body f.body)

pub event_eq_refl : (e : StoredEvent) → event_eq e e ≡ true
unfolding event_eq
event_eq_refl e = ground (arith, text_eq_iff e.type e.type, text_eq_iff e.body e.body)

unfoldable pub attach_revision : StoredRecord → ℕ → StoredRecord
attach_revision r n = record r { revision = some n }

-- The loop of `#assertEvents` from index `i` on.
unfoldable pub assert_events_from : ℕ → List StoredEvent → Result StoreError (Unit {0})
assert_events_from i [] = ok tt
assert_events_from i (e ∷ es) =
    guard (e.sequence == suc i) (invalid_event (suc i)) >> assert_events_from (suc i) es

unfoldable pub assert_events : List StoredEvent → Result StoreError (Unit {0})
assert_events es = assert_events_from 0 es

-- src/record-version.ts: an absent version is 1, and any other version is refused.
unfoldable pub materialize_version : StoredRecord → Result StoreError StoredRecord
materialize_version r = elim r.schema_version [
  | none ↦ ok (record r { schema_version = some 1 })
  | some v ↦ guard (v == 1) unsupported_schema >> ok r
]

-- `serializeBoundedRecord`: the JSON text, which has no hidden revision.
unfoldable pub serialize_bounded : Store → StoredRecord → Result StoreError StoredRecord
serialize_bounded s r =
    guard (leb (s.record_bytes r) max_record_bytes) record_too_large
    >> ok (record r { revision = none })

unfoldable pub materialize : Store → StoredRecord → Result StoreError StoredRecord
materialize s r = do
  m ← materialize_version r
  assert_events m.events
  json ← serialize_bounded s m
  ok m

-- The loop of `#assertAppendOnly` from index `i` on.
unfoldable pub assert_unchanged_from :
    ℕ → List StoredEvent → List StoredEvent → Result StoreError (Unit {0})
assert_unchanged_from i [] next = ok tt
assert_unchanged_from i (p ∷ ps) [] = err (rewritten_event (suc i))
assert_unchanged_from i (p ∷ ps) (n ∷ ns) =
    guard (event_eq p n) (rewritten_event (suc i)) >> assert_unchanged_from (suc i) ps ns

unfoldable pub assert_append_only :
    List StoredEvent → List StoredEvent → Result StoreError (Unit {0})
assert_append_only previous next = do
  guard (leb (length previous) (length next)) removed_events
  assert_unchanged_from 0 previous next
