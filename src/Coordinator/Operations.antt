-- ===== src/Coordinator/Operations.antt =====
-- The constructor, `admit`, `admitRoutePool`, `save`, `claim`, the beat of `monitor` and `release` of
-- src/durable-execution.ts, over the durable record store. A coordinator whose store has no leases, and
-- the capacity that one process keeps for itself, are left out.
use agentknot.Common.{
  Bool, List, Option, Result, String, Table, [], err, get_or, guard, if◌then◌else◌, is_some, leb,
  lookup, ltb, none, ok, pair_key, put, remove, some, text_key, true, ℕ, ◌&&◌, ◌*◌, ◌>>=◌, ◌>>◌,
}
use agentknot.Store.Admission.{
  AdmissionOptions, AdmissionResult, Idempotency, admit, created, existing,
}
use agentknot.Store.Capacity.{release_capacity}
use agentknot.Store.Leases.{claim_lease, release_lease, renew_lease}
use agentknot.Store.Records.{get_cancellation, save}
use agentknot.Store.RoutePool.{Choice, admit_route_pool}
use agentknot.Store.Sql.{Database}
use agentknot.Store.Types.{
  CancellationRequest, ExecutionLease, Store, StoreError, StoredRecord, max_safe_integer,
}

pub record Options : Type 0 where
  pub lease_ttl : Option ℕ
  pub lease_heartbeat : Option ℕ
  pub capacity_limit : Option ℕ
  pub capacity_poll : Option ℕ

pub data OptionError : Type 0 where
  bad_lease_times bad_capacity_limit bad_capacity_poll : OptionError

-- `keeps_capacity` says that the store has `tryAcquireCapacity` and `releaseCapacity`.
pub record Coordinator : Type 0 where
  pub store : Store
  pub keeps_capacity : Bool
  pub ttl : ℕ
  pub heartbeat : ℕ
  pub limit : Option ℕ
  pub poll : ℕ
  pub leases : Table String ExecutionLease

abbrev is_limit : Option ℕ → Bool
is_limit none = true
is_limit (some limit) = leb limit max_safe_integer && leb 1 limit

unfoldable pub new_coordinator : Store → Bool → Options → Result OptionError Coordinator
new_coordinator s keeps_capacity options =
    let ttl = get_or options.lease_ttl 15000 in
    let heartbeat = get_or options.lease_heartbeat 2000 in
    let poll = get_or options.capacity_poll 100 in
    guard
      (leb ttl max_safe_integer
        && leb heartbeat max_safe_integer
        && leb 1 heartbeat
        && ltb (heartbeat * 2) ttl)
      bad_lease_times
    >> (guard (is_limit options.capacity_limit) bad_capacity_limit
        >> (guard (leb 1 poll && leb poll 60000) bad_capacity_poll
            >> ok (record {
              store = s;
              keeps_capacity = keeps_capacity;
              ttl = ttl;
              heartbeat = heartbeat;
              limit = options.capacity_limit;
              poll = poll;
              leases = [];
            })))

-- The limit that goes to the store, which is `#durableCapacity` with `#capacityLimit`.
abbrev pub durable_limit : Coordinator → Option ℕ
durable_limit c = if c.keeps_capacity then c.limit else none

abbrev pub admission_options : Coordinator → String → Option Idempotency → ℕ → AdmissionOptions
admission_options c owner idempotency now = record {
  owner_id = owner;
  ttl = c.ttl;
  capacity_limit = durable_limit c;
  now = now;
  idempotency = idempotency;
}

abbrev pub with_lease : Coordinator → String → ExecutionLease → Coordinator
with_lease c id lease = record c { leases = put id lease c.leases }

abbrev pub keep_admitted : Coordinator → String → AdmissionResult → Coordinator
keep_admitted c id (created r lease) = with_lease c id lease
keep_admitted c id (existing r) = c

abbrev pub keep_created : Coordinator → AdmissionResult → Coordinator
keep_created c (created r lease) = with_lease c r.id lease
keep_created c (existing r) = c

-- `admit`
unfoldable pub admit_record :
    Coordinator
    → StoredRecord
    → String
    → Option Idempotency
    → ℕ
    → Database
    → Result StoreError (AdmissionResult × Coordinator × Database)
admit_record c r owner idempotency now db = do
  (result, db') ← admit c.store r (admission_options c owner idempotency now) db
  ok (result, keep_admitted c r.id result, db')

unfoldable pub admit_pool :
    Coordinator
    → String
    → List String
    → (Choice → StoredRecord)
    → String
    → Option Idempotency
    → ℕ
    → Database
    → Result StoreError (AdmissionResult × Coordinator × Database)
admit_pool c key candidates create_record owner idempotency now db = do
  (result, db') ←
      admit_route_pool c.store key candidates create_record
        (admission_options c owner idempotency now) db
  ok (result, keep_created c result, db')

-- `save`
unfoldable pub save_record :
    Coordinator → StoredRecord → ℕ → Database → Result StoreError (StoredRecord × Database)
save_record c r now db = save c.store r (lookup r.id c.leases) now db

abbrev pub keep_claimed : Coordinator → String → Option ExecutionLease → Coordinator
keep_claimed c id none = c
keep_claimed c id (some lease) = with_lease c id lease

unfoldable pub claim :
    Coordinator
    → String
    → String
    → ℕ
    → Database
    → Result StoreError (Option ExecutionLease × Coordinator × Database)
claim c id owner now db = do
  (claimed, db') ← claim_lease c.store id owner c.ttl now db
  ok (claimed, keep_claimed c id claimed, db')

-- What a beat does to the controller of an execution: nothing, or an abort for one of three reasons.
pub data Beat : Type 0 where
  beats cancelled_by_request lease_was_lost : Beat
  beat_failed : StoreError → Beat

-- One beat of `monitor` without `onCancellation`, which aborts for a request and renews all the same.
-- A controller that was aborted stays aborted for the first reason.
unfoldable pub beat_of :
    Option CancellationRequest → Database → Result StoreError (Bool × Database) → Beat × Database
beat_of request db (err e) = (if is_some request then cancelled_by_request else beat_failed e, db)
beat_of request db (ok (renewed, db')) = (
  if is_some request then cancelled_by_request else if renewed then beats else lease_was_lost,
  db',
)

unfoldable pub beat_with :
    Coordinator
    → ExecutionLease
    → ℕ
    → Database
    → Result StoreError (Option CancellationRequest)
    → Beat × Database
beat_with c lease now db (err e) = (beat_failed e, db)
beat_with c lease now db (ok request) = beat_of request db (renew_lease c.store lease c.ttl now db)

unfoldable pub beat : Coordinator → String → ℕ → Database → Beat × Database
beat c id now db = elim (lookup id c.leases) [
  | none ↦ (beats, db)
  | some lease ↦ beat_with c lease now db (get_cancellation c.store id db)
]

abbrev pub without_lease : Coordinator → String → Coordinator
without_lease c id = record c { leases = remove id c.leases }

-- A release of capacity that throws does not keep the lease.
unfoldable pub release_both : Coordinator → ExecutionLease → Database → Option StoreError × Database
release_both c lease db =
    let freed : Option StoreError × Database =
      if is_some (durable_limit c)
      then elim (release_capacity c.store lease db) [
        | err e ↦ (some e, db)
        | ok released ↦ (none, released.1)
      ]
      else (none, db) in
    elim (release_lease c.store lease freed.1) [
      | err e ↦ (some e, freed.1)
      | ok released ↦ (freed.0, released.1)
    ]

-- The error that `release` throws, if any; the lease is forgotten all the same.
unfoldable pub release :
    Coordinator → String → Database → Option StoreError × Coordinator × Database
release c id db = elim (lookup id c.leases) [
  | none ↦ (none, without_lease c id, db)
  | some lease ↦
      (let released = release_both c lease db in (released.0, without_lease c id, released.1))
]
