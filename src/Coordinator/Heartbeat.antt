-- ===== src/Coordinator/Heartbeat.antt =====
-- How long a lease outlives a beat of `monitor` of src/durable-execution.ts.
use agentknot.Common.{
  >>=-eq-ok, Bool, Option, Option-cases, Result, String, Table, arith, err, inl, inr, lookup,
  lookup-put_self, none, ok, put, some, text_key, true, ℕ, ◌*◌, ◌+◌, ◌<◌, ◌≡◌, ◌≤◌,
}
use agentknot.Coordinator.Operations.{
  Coordinator, Options, beat, beat_of, beat_with, beats, new_coordinator,
}
use agentknot.Store.Leases.{renew_lease, renew_statement}
use agentknot.Store.Records.{get_cancellation, is_current}
use agentknot.Store.Sql.{Database, LeaseRow, update_lease}
use agentknot.Store.Types.{
  CancellationRequest, ExecutionLease, Store, StoreError, assert_open, assert_ttl, max_safe_integer,
}

-- The options that the constructor accepts leave two beats to a lease.
new_coordinator-times :
    (s : Store) (k : Bool) (options : Options) (c : Coordinator)
    → new_coordinator s k options ≡ ok c
    → (c.heartbeat * 2 < c.ttl) × (c.ttl ≤ max_safe_integer)
unfolding new_coordinator
new_coordinator-times s k options c made = ground arith

-- A lease whose row it can renew.
unfoldable IsRenewable : ExecutionLease → ℕ → Database → Type 0
IsRenewable lease now db =
    (row : LeaseRow) × (lookup lease.record_id db.execution_leases ≡ some row)
    × (is_current lease now row ≡ true)

-- A renewal leaves a row that the lease renews again before its time to live is over.
renew_lease-IsRenewable :
    (s : Store) (lease : ExecutionLease) (ttl now later : ℕ) (db db' : Database)
    → renew_lease s lease ttl now db ≡ ok (true, db')
    → later < now + ttl
    → IsRenewable lease later db'
unfolding renew_lease renew_statement update_lease IsRenewable is_current
renew_lease-IsRenewable s lease ttl now later db db' renewed early =
    let (_, opened, h) = >>=-eq-ok (assert_open s) _ renewed in
    let (_, valid, h') = >>=-eq-ok (assert_ttl ttl) _ h in
    elim (Option-cases (lookup lease.record_id db.execution_leases)) [
      | inl absent ↦ ground arith
      | inr (row, found) ↦
          (let next : LeaseRow = record row { heartbeat_at = now; expires_at = now + ttl } in
            let stored = lookup-put_self lease.record_id next db.execution_leases in
            (next, ground (arith, stored), ground (arith, stored)))
    ]

-- A renewable lease is renewed.
IsRenewable-renews :
    (s : Store) (lease : ExecutionLease) (ttl now : ℕ) (db : Database)
    → assert_open s ≡ ok tt
    → assert_ttl ttl ≡ ok tt
    → IsRenewable lease now db
    → (db' : Database) × (renew_lease s lease ttl now db ≡ ok (true, db'))
unfolding renew_lease renew_statement update_lease IsRenewable is_current
IsRenewable-renews s lease ttl now db opened valid (row, found, current) = (
  record db {
    execution_leases =
        put lease.record_id (record row { heartbeat_at = now; expires_at = now + ttl })
          db.execution_leases;
  },
  ground arith,
)

pub beat_of-beats :
    (request : Option CancellationRequest) (db db' : Database)
    (renewed : Result StoreError (Bool × Database))
    → beat_of request db renewed ≡ (beats, db')
    → (request ≡ none) × (renewed ≡ ok (true, db'))
unfolding beat_of
beat_of-beats request db db' (err e) h = ground arith
beat_of-beats request db db' (ok (b, d)) h = ground arith

renewed_checks :
    (s : Store) (lease : ExecutionLease) (ttl now : ℕ) (db : Database) (d : Bool × Database)
    → renew_lease s lease ttl now db ≡ ok d
    → (assert_open s ≡ ok tt) × (assert_ttl ttl ≡ ok tt)
unfolding renew_lease
renewed_checks s lease ttl now db d renewed =
    let (_, opened, h) = >>=-eq-ok (assert_open s) _ renewed in
    let (_, valid, _) = >>=-eq-ok (assert_ttl ttl) _ h in (opened, valid)

renews_again :
    (s : Store) (lease : ExecutionLease) (ttl now later : ℕ) (db db' : Database)
    → renew_lease s lease ttl now db ≡ ok (true, db')
    → later < now + ttl
    → (d : Database) × (renew_lease s lease ttl later db' ≡ ok (true, d))
renews_again s lease ttl now later db db' renewed early =
    let (opened, valid) = renewed_checks s lease ttl now db _ renewed in
    IsRenewable-renews s lease ttl later db' opened valid
      (renew_lease-IsRenewable s lease ttl now later db db' renewed early)

beat_with-again :
    (c : Coordinator) (lease : ExecutionLease) (now later : ℕ) (db db' : Database)
    (r : Result StoreError (Option CancellationRequest))
    → beat_with c lease now db r ≡ (beats, db')
    → later < now + c.ttl
    → (beat_with c lease later db' r).0 ≡ beats
unfolding beat_with beat_of
beat_with-again c lease now later db db' (err e) h early = ground arith
beat_with-again c lease now later db db' (ok request) h early =
    let (unasked, renewed) = beat_of-beats request db db' _ h in
    let (d, again) = renews_again c.store lease c.ttl now later db db' renewed early in ground arith

beat_with-cancellation :
    (c : Coordinator) (lease : ExecutionLease) (id : String) (now : ℕ) (db db' : Database)
    (r : Result StoreError (Option CancellationRequest))
    → beat_with c lease now db r ≡ (beats, db')
    → get_cancellation c.store id db' ≡ get_cancellation c.store id db
unfolding beat_with beat_of get_cancellation renew_lease
beat_with-cancellation c lease id now db db' (err e) h = ground arith
beat_with-cancellation c lease id now db db' (ok request) h =
    let (unasked, renewed) = beat_of-beats request db db' _ h in
    let (opened, valid) = renewed_checks c.store lease c.ttl now db _ renewed in ground arith

-- With the options that the constructor accepts, an execution that is not aborted at one beat is not
-- aborted at a later one, up to two heartbeat intervals after it, on the database that the first one
-- left: if nothing is written in between, no request for a cancellation either, one beat may be missed.
pub beat-tolerates :
    (s : Store) (keeps : Bool) (options : Options) (c : Coordinator)
    (leases : Table String ExecutionLease) (id : String) (now later : ℕ) (db db' : Database)
    → new_coordinator s keeps options ≡ ok c
    → beat (record c { leases = leases }) id now db ≡ (beats, db')
    → later ≤ now + c.heartbeat * 2
    → (beat (record c { leases = leases }) id later db').0 ≡ beats
unfolding beat
beat-tolerates s keeps options c leases id now later db db' made h early =
    let times = new_coordinator-times s keeps options c made in
    let c' : Coordinator = record c { leases = leases } in
    elim (Option-cases (lookup id leases)) [
      | inl absent ↦ ground arith
      | inr (lease, found) ↦
          (let asked = get_cancellation c.store id db in
            let held : beat_with c' lease now db asked ≡ (beats, db') = cc in
            let unasked = beat_with-cancellation c' lease id now db db' asked held in
            let checked = beat_with-again c' lease now later db db' asked held (omega arith) in cc)
    ]
