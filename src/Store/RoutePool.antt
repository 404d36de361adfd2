-- ===== src/Store/RoutePool.antt =====
-- `admitRoutePool` of src/durable-record-store.ts: a least-active choice among exact routes, with
-- rotation among those that tie, in the transaction that admits the Job.
use Prim.Native.Nat.{min}
use agentknot.Common.{
  Bool, List, Option, Result, String, [], any, count, expect, false, get_elem?, get_or, guard,
  if◌then◌else◌, leb, length, lookup, ltb, map, none, not, ok, put, some, suc, text_eq, text_key,
  true, zero, ℕ, ◌%◌, ◌&&◌, ◌+◌, ◌==◌, ◌>>=◌, ◌>>◌, ◌∷◌,
}
use agentknot.Store.Admission.{
  AdmissionOptions, AdmissionResult, admit_new, admitted_before, assert_capacity_option,
  assert_idempotency, created, existing_record,
}
use agentknot.Store.Capacity.{is_job}
use agentknot.Store.Sql.{Database}
use agentknot.Store.Types.{
  Store, StoreError, StoredRecord, assert_identifier, assert_open, assert_ttl, attach_revision,
  invalid_argument, materialize, no_selectable_member, route_mismatch, unsupported_operation,
}

pub record Choice : Type 0 where
  pub active_before : List (String × ℕ)
  pub cursor_before : ℕ
  pub selected_route : String
  pub selected_member_index : ℕ

unfoldable pub has_route : String → StoredRecord → Bool
has_route route r = elim r.route_name [ none ↦ false | some name ↦ text_eq name route ]

-- COUNT(*) of the leases that have not run out and whose record has the route.
unfoldable pub active_count : Database → ℕ → String → ℕ
active_count db now route =
    count
      (λ lease. ltb now lease.1.expires_at && elim (lookup lease.0 db.records) [
        | none ↦ false
        | some row ↦ has_route route row.record_json
      ])
      db.execution_leases

unfoldable pub active_before : Database → ℕ → List String → List (String × ℕ)
active_before db now = map λ candidate. (candidate, active_count db now candidate)

abbrev pub counts : List (String × ℕ) → List ℕ
counts = map λ a. a.1

-- `Math.min(...values)` of a list that is not empty.
unfoldable pub minimum : List ℕ → ℕ
minimum [] = 0
minimum (n ∷ []) = n
minimum (n ∷ m ∷ ns) = min n (minimum (m ∷ ns))

unfoldable pub is_least : List ℕ → ℕ → Bool
is_least ns i = elim (get_elem? ns i) [ none ↦ false | some n ↦ n == minimum ns ]

-- The loop over `offset`, with the rounds that are left.
unfoldable pub select_from : List ℕ → ℕ → ℕ → ℕ → Option ℕ
select_from ns cursor zero offset = none
select_from ns cursor (suc rounds) offset =
    let index = (cursor + offset) % length ns in
    let rest = select_from ns cursor rounds (offset + 1) in
    if is_least ns index then some index else rest

unfoldable pub select_member : List ℕ → ℕ → Option ℕ
select_member ns cursor = select_from ns cursor (length ns) 0

unfoldable pub is_unique : List String → Bool
is_unique [] = true
is_unique (c ∷ cs) = not (any (text_eq c) cs) && is_unique cs

unfoldable pub assert_identifiers : List String → Result StoreError (Unit {0})
assert_identifiers [] = ok tt
assert_identifiers (c ∷ cs) = assert_identifier c >> assert_identifiers cs

unfoldable pub choose : Database → String → List String → ℕ → Result StoreError Choice
choose db cursor_key candidates now = do
  let active = active_before db now candidates
  let cursor = get_or (lookup cursor_key db.route_pool_cursors) 0 % length candidates
  index ← expect (select_member (counts active) cursor) no_selectable_member
  route ← expect (get_elem? candidates index) no_selectable_member
  ok (record {
    active_before = active;
    cursor_before = cursor;
    selected_route = route;
    selected_member_index = index;
  })

unfoldable pub admit_chosen :
    Store
    → (Choice → StoredRecord)
    → Choice
    → String
    → List String
    → AdmissionOptions
    → Database
    → Result StoreError (AdmissionResult × Database)
admit_chosen s create_record choice cursor_key candidates options db = do
  let r = create_record choice
  normalized ← materialize s r
  guard (has_route choice.selected_route normalized) route_mismatch
  (lease, db') ← admit_new s normalized options db
  ok (
    created (attach_revision r 1) lease,
    record db' {
      route_pool_cursors =
          put cursor_key ((choice.selected_member_index + 1) % length candidates)
            db'.route_pool_cursors;
    },
  )

-- The checks of `admitRoutePool` on its arguments.
unfoldable pub check_pool_admission :
    Store → String → List String → AdmissionOptions → Result StoreError (Unit {0})
check_pool_admission s cursor_key candidates options = do
  assert_open s
  guard (is_job s.kind) unsupported_operation
  assert_identifier cursor_key
  assert_identifier options.owner_id
  assert_ttl options.ttl
  assert_capacity_option s.kind options.capacity_limit
  guard (leb 2 (length candidates) && leb (length candidates) 20 && is_unique candidates)
      invalid_argument
  assert_identifiers candidates
  assert_idempotency options.idempotency

unfoldable pub admit_route_pool :
    Store
    → String
    → List String
    → (Choice → StoredRecord)
    → AdmissionOptions
    → Database
    → Result StoreError (AdmissionResult × Database)
admit_route_pool s cursor_key candidates create_record options db = do
  checked ← check_pool_admission s cursor_key candidates options
  before ← admitted_before options.idempotency db
  elim before [
    | some id ↦ existing_record s id db
    | none ↦
        (choose db cursor_key candidates options.now >>= λ choice.
        admit_chosen s create_record choice cursor_key candidates options db)
  ]
