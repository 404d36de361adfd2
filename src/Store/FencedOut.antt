-- ===== src/Store/FencedOut.antt =====
-- What a caller can still do with a lease that another owner has taken over: nothing.
use agentknot.Common.{
  Bool, Option, String, arith, false, lookup, lookup-put_self, ok, refl, some, suc, sym,
  text_eq_iff, text_key, true, ℕ, ◌+◌, ◌∙◌, ◌≡◌, ◌≢◌,
}
use agentknot.Store.Capacity.{
  CapacityStatus, try_acquire_capacity, try_acquire_capacity_in_transaction,
}
use agentknot.Store.Fencing.{Overtaken, Reach-Overtaken}
use agentknot.Store.Leases.{
  claim_existing, claim_expired_statement, claim_lease, claim_lease_in_transaction, renew_lease,
  renew_statement,
}
use agentknot.Store.Records.{assert_lease, assert_lease_current, is_current, save}
use agentknot.Store.Sql.{Database, LeaseRow, update_lease}
use agentknot.Store.Steps.{Reach}
use agentknot.Store.Types.{
  ExecutionLease, RecordKind, Store, StoredRecord, materialize, materialize_version,
}

module _ (kind : RecordKind) (id owner : String) (ttl now : ℕ) (db : Database)
    (row : LeaseRow) where
  -- A claim by a new owner takes the next fence.
  claim_existing-fence :
      (r : Option ExecutionLease × Database) (new : ExecutionLease)
      → lookup id db.execution_leases ≡ some row
      → row.owner_id ≢ owner
      → claim_existing kind id owner ttl now row db ≡ ok r
      → r.0 ≡ some new
      → (row' : LeaseRow) × (lookup id r.1.execution_leases ≡ some row')
        × (row'.fence ≡ suc row.fence)
  unfolding claim_existing claim_expired_statement update_lease
  claim_existing-fence r new e other h got =
      let row' : LeaseRow = record row {
        owner_id = owner;
        fence = row.fence + 1;
        acquired_at = now;
        heartbeat_at = now;
        expires_at = now + ttl;
      } in
      (
        row',
        ground (arith, text_eq_iff row.owner_id owner, lookup-put_self id row' db.execution_leases),
        omega arith,
      )

module _ (s : Store) (lease : ExecutionLease) (now : ℕ) (db : Database)
    (v : Overtaken lease db) where
  overtaken_not_current :
      (row : LeaseRow)
      → lookup lease.record_id db.execution_leases ≡ some row
      → is_current lease now row ≡ false
  unfolding is_current
  overtaken_not_current row e =
      let (r, e', w) = v in ground (arith, w, text_eq_iff row.owner_id lease.owner_id)

  -- It cannot write the record,
  overtaken_cannot_save :
      (r : StoredRecord) (a : StoredRecord × Database)
      → r.id ≡ lease.record_id
      → save s r (some lease) now db ≢ ok a
  unfolding save assert_lease_current materialize materialize_version assert_lease
  overtaken_cannot_save r a same h = ground (arith, overtaken_not_current v.0 v.1)

  -- extend the lease,
  overtaken_cannot_renew :
      (ttl : ℕ) (a : Bool × Database) → renew_lease s lease ttl now db ≡ ok a → a.0 ≡ false
  unfolding renew_lease renew_statement update_lease is_current
  overtaken_cannot_renew ttl a h = ground (arith, overtaken_not_current v.0 v.1)

  -- or get capacity.
  overtaken_cannot_acquire :
      (limit : ℕ) (a : CapacityStatus × Database) → try_acquire_capacity s lease limit now db ≢ ok a
  unfolding try_acquire_capacity try_acquire_capacity_in_transaction
  overtaken_cannot_acquire limit a h = ground (arith, overtaken_not_current v.0 v.1)

-- Once another owner has claimed the record of a lease, then whatever is called afterwards, by
-- anyone and at any time, the lease saves no version of the record, gets no capacity and is not
-- renewed. The lease has an owner, and held the row when the claim was made.
pub fenced_out :
    {bound : ℕ} {d d' : Database} (s s' : Store) (lease new : ExecutionLease) (row : LeaseRow)
    (owner : String) (ttl now : ℕ) (db : Database) (later ttl' limit : ℕ) (r : StoredRecord)
    (saved : StoredRecord × Database) (status : CapacityStatus × Database) (renewed : Database)
    → lease.owner_id ≢ ""
    → lookup lease.record_id db.execution_leases ≡ some row
    → row.owner_id ≡ lease.owner_id
    → row.fence ≡ lease.fence
    → owner ≢ lease.owner_id
    → claim_lease s lease.record_id owner ttl now db ≡ ok (some new, d)
    → Reach bound d d'
    → r.id ≡ lease.record_id
    → (save s' r (some lease) later d' ≢ ok saved)
      × (try_acquire_capacity s' lease limit later d' ≢ ok status)
      × (renew_lease s' lease ttl' later d' ≢ ok (true, renewed))
unfolding claim_lease claim_lease_in_transaction
fenced_out {d = d} s s' lease new row owner ttl now db later ttl' limit r saved status renewed named
      held owned fenced other claimed reach same =
    let claim : claim_existing s.kind lease.record_id owner ttl now row db ≡ ok (some new, d) =
      ground arith in
    let (row', e, f) =
      claim_existing-fence s.kind lease.record_id owner ttl now db row (some new, d) new held
        (λ p. other (sym p ∙ owned)) claim refl in
    let v : Overtaken lease d = (row', e, omega arith) in
    let w = Reach-Overtaken lease named reach v in
    (
      overtaken_cannot_save s' lease later _ w r saved same,
      overtaken_cannot_acquire s' lease later _ w limit status,
      λ h. cc (overtaken_cannot_renew s' lease later _ w ttl' (true, renewed) h),
    )

abbrev pub lease_of : String → LeaseRow → ExecutionLease
lease_of id row = record {
  record_id = id;
  owner_id = row.owner_id;
  fence = row.fence;
  acquired_at = row.acquired_at;
  heartbeat_at = row.heartbeat_at;
  expires_at = row.expires_at;
}

abbrev pub renewed_row : ℕ → ℕ → LeaseRow → LeaseRow
renewed_row ttl now row = record row { heartbeat_at = now; expires_at = now + ttl }

abbrev pub taken_row : String → ℕ → ℕ → LeaseRow → LeaseRow
taken_row owner ttl now row = record {
  owner_id = owner;
  fence = row.fence + 1;
  acquired_at = now;
  heartbeat_at = now;
  expires_at = now + ttl;
}
