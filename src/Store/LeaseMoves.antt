-- ===== src/Store/LeaseMoves.antt =====
-- What a call may do to one row of `execution_leases`: the fence never falls, and an owner comes in
-- only with a fence of its own.
use agentknot.Common.{
  >>=-eq-ok, Bool, Bool-cases, Option, Option-cases, String, Table, arith, if◌then◌else◌, inl, inr,
  lookup, lookup-put, none, ok, refl, some, suc, text_eq, text_eq_iff, text_key, true, ℕ, ◌&&◌, ◌+◌,
  ◌==◌, ◌≡◌, ◌⊎◌,
}
use agentknot.Store.Admission.{AdmissionOptions, admit_capacity, admit_new, insert_idempotency}
use agentknot.Store.Capacity.{try_acquire_capacity_in_transaction}
use agentknot.Store.Leases.{
  claim_existing, claim_expired_statement, claim_first, claim_lease, claim_lease_in_transaction,
  release_lease, renew_lease, renew_statement,
}
use agentknot.Store.Records.{insert_new}
use agentknot.Store.Sql.{Database, LeaseRow, insert_row, update_lease}
use agentknot.Store.Types.{ExecutionLease, RecordKind, Store, StoredRecord}

-- `o` and `n` are the row before and after.
pub data Move (o n : Option LeaseRow) : Type 0 where
  keeps : n ≡ o → Move o n
  enters : (r : LeaseRow) → o ≡ none → n ≡ some r → Move o n
  renews :
      (r r' : LeaseRow)
      → o ≡ some r
      → n ≡ some r'
      → r'.fence ≡ r.fence
      → r'.owner_id ≡ r.owner_id
      → Move o n
  reclaims : (r r' : LeaseRow) → o ≡ some r → n ≡ some r' → r'.fence ≡ suc r.fence → Move o n
  frees :
      (r r' : LeaseRow)
      → o ≡ some r
      → n ≡ some r'
      → r'.fence ≡ r.fence
      → r'.owner_id ≡ ""
      → Move o n

pub stays : (o : Option LeaseRow) → Move o o
stays o = keeps refl

abbrev pub LeasesMove : Database → Database → Type 0
LeasesMove db db' =
    (j : String) → Move (lookup j db.execution_leases) (lookup j db'.execution_leases)

pub lookup-update_lease :
    (id j : String) (test : LeaseRow → Bool) (change : LeaseRow → LeaseRow)
    (rows : Table String LeaseRow)
    → lookup j (update_lease id test change rows).0 ≡ (
        if text_eq id j
        then elim (lookup id rows) [ none ↦ none | some r ↦ some (if test r then change r else r) ]
        else lookup j rows)
unfolding update_lease
lookup-update_lease id j test change rows = elim (Option-cases (lookup id rows)) [
  | inl e ↦ ground (arith, text_eq_iff id j)
  | inr (r, e) ↦ ground (arith, text_eq_iff id j, lookup-put id j (change r) rows)
]

update_lease-Move :
    (id j : String) (test : LeaseRow → Bool) (change : LeaseRow → LeaseRow)
    (rows : Table String LeaseRow)
    → ((r : LeaseRow) → test r ≡ true → Move (some r) (some (change r)))
    → Move (lookup j rows) (lookup j (update_lease id test change rows).0)
update_lease-Move id j test change rows move = elim (Bool-cases (text_eq id j)) [
  | inr other ↦ keeps (ground (arith, lookup-update_lease id j test change rows))
  | inl same ↦
      rw (lookup-update_lease id j test change rows, same, ← (text_eq_iff id j).0 same)
        (elim (Option-cases (lookup id rows)) [
          | inl e ↦ rw e (keeps refl)
          | inr (r, e) ↦
              rw e
                (elim (Bool-cases (test r)) [ inl t ↦ rw t (move r t) | inr f ↦ rw f (keeps refl) ])
        ])
]

renew_statement-Move :
    (id owner : String) (fence now expires : ℕ) (rows : Table String LeaseRow) (j : String)
    → Move (lookup j rows) (lookup j (renew_statement id owner fence now expires rows).0)
unfolding renew_statement
renew_statement-Move id owner fence now expires rows j =
    update_lease-Move id j _ _ rows (λ r h. renews r _ refl refl refl refl)

claim_expired_statement-Move :
    (id owner : String) (now expires : ℕ) (rows : Table String LeaseRow) (j : String)
    → Move (lookup j rows) (lookup j (claim_expired_statement id owner now expires rows).0)
unfolding claim_expired_statement
claim_expired_statement-Move id owner now expires rows j =
    update_lease-Move id j _ _ rows (λ r h. reclaims r _ refl refl (omega arith))

insert_row-Move :
    (id : String) (row : LeaseRow) (rows rows' : Table String LeaseRow) (j : String)
    → lookup id rows ≡ none
    → insert_row id row rows ≡ ok rows'
    → Move (lookup j rows) (lookup j rows')
unfolding insert_row
insert_row-Move id row rows rows' j absent h = elim (Bool-cases (text_eq id j)) [
  | inr other ↦ keeps (ground (arith, lookup-put id j row rows))
  | inl same ↦
      enters row (ground (arith, text_eq_iff id j))
        (ground (arith, text_eq_iff id j, lookup-put id j row rows))
]

claim_first-LeasesMove :
    (id owner : String) (ttl now : ℕ) (db : Database) (r : Option ExecutionLease × Database)
    → lookup id db.execution_leases ≡ none
    → claim_first id owner ttl now db ≡ ok r
    → LeasesMove db r.1
unfolding claim_first
claim_first-LeasesMove id owner ttl now db r absent h j =
    let (rows, inserted, rest) = >>=-eq-ok _ _ h in
    let same : r.1.execution_leases ≡ rows = ground arith in
    rw same (insert_row-Move id _ _ rows j absent inserted)

claim_existing-LeasesMove :
    (kind : RecordKind) (id owner : String) (ttl now : ℕ) (row : LeaseRow) (db : Database)
    (r : Option ExecutionLease × Database)
    → claim_existing kind id owner ttl now row db ≡ ok r
    → LeasesMove db r.1
unfolding claim_existing
claim_existing-LeasesMove kind id owner ttl now row db r h j =
    let before = db.execution_leases in
    let renewed = renew_statement id owner row.fence now (now + ttl) before in
    let claimed = claim_expired_statement id owner now (now + ttl) before in
    let written : (r.1.execution_leases ≡ renewed.0)
        ⊎ (r.1.execution_leases ≡ before)
        ⊎ (r.1.execution_leases ≡ claimed.0) =
      ground arith in
    elim written [
      | inl e ↦ rw e (renew_statement-Move id owner row.fence now (now + ttl) before j)
      | inr (inl e) ↦ rw e (stays (lookup j before))
      | inr (inr e) ↦ rw e (claim_expired_statement-Move id owner now (now + ttl) before j)
    ]

pub claim_lease_in_transaction-LeasesMove :
    (kind : RecordKind) (id owner : String) (ttl now : ℕ) (db : Database)
    (r : Option ExecutionLease × Database)
    → claim_lease_in_transaction kind id owner ttl now db ≡ ok r
    → LeasesMove db r.1
unfolding claim_lease_in_transaction
claim_lease_in_transaction-LeasesMove kind id owner ttl now db r h j =
    elim (Option-cases (lookup id db.execution_leases)) [
      | inl e ↦ claim_first-LeasesMove id owner ttl now db r e (ground arith) j
      | inr (row, e) ↦ claim_existing-LeasesMove kind id owner ttl now row db r (ground arith) j
    ]

module _ (s : Store) where
  pub claim_lease-LeasesMove :
      (id owner : String) (ttl now : ℕ) (db : Database) (r : Option ExecutionLease × Database)
      → claim_lease s id owner ttl now db ≡ ok r
      → LeasesMove db r.1
  unfolding claim_lease
  claim_lease-LeasesMove id owner ttl now db r h =
      claim_lease_in_transaction-LeasesMove s.kind id owner ttl now db r (ground arith)

  pub renew_lease-LeasesMove :
      (lease : ExecutionLease) (ttl now : ℕ) (db : Database) (r : Bool × Database)
      → renew_lease s lease ttl now db ≡ ok r
      → LeasesMove db r.1
  unfolding renew_lease
  renew_lease-LeasesMove lease ttl now db r h j =
      let renewed =
        renew_statement lease.record_id lease.owner_id lease.fence now (now + ttl)
          db.execution_leases in
      let same : r.1.execution_leases ≡ renewed.0 = ground arith in
      rw same (
        renew_statement-Move lease.record_id lease.owner_id lease.fence now (now + ttl)
          db.execution_leases j)

  pub release_lease-LeasesMove :
      (lease : ExecutionLease) (db : Database) (r : Bool × Database)
      → release_lease s lease db ≡ ok r
      → LeasesMove db r.1
  unfolding release_lease
  release_lease-LeasesMove lease db r h j =
      let released =
        update_lease lease.record_id
          (λ row. text_eq row.owner_id lease.owner_id && row.fence == lease.fence)
          (λ row. record row { owner_id = ""; acquired_at = 0; heartbeat_at = 0; expires_at = 0 })
          db.execution_leases in
      let same : r.1.execution_leases ≡ released.0 = ground arith in
      rw same (update_lease-Move lease.record_id j _ _ _ (λ row t. frees row _ refl refl refl refl))

  pub admit_new-LeasesMove :
      (r : StoredRecord) (options : AdmissionOptions) (db : Database)
      (a : ExecutionLease × Database)
      → admit_new s r options db ≡ ok a
      → LeasesMove db a.1
  unfolding admit_new insert_new insert_idempotency admit_capacity
      try_acquire_capacity_in_transaction
  admit_new-LeasesMove r options db a h j =
      let (inserted, i, h₁) = >>=-eq-ok (insert_new s r db) _ h in
      let (keyed, k, h₂) = >>=-eq-ok (insert_idempotency options.idempotency r inserted) _ h₁ in
      let (claimed, c, h₃) =
        >>=-eq-ok
          (claim_lease_in_transaction s.kind r.id options.owner_id options.ttl options.now keyed) _
          h₂ in
      let before : keyed.execution_leases ≡ db.execution_leases = ground arith in
      let after : a.1.execution_leases ≡ claimed.1.execution_leases = ground arith in
      let moved =
        claim_lease_in_transaction-LeasesMove s.kind r.id options.owner_id options.ttl options.now
          keyed claimed c j in
      rw (after, ← before) moved
