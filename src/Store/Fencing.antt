-- ===== src/Store/Fencing.antt =====
-- Fencing over whole histories: a lease that was overtaken stays overtaken.
use agentknot.Common.{Option, arith, inl, inr, lookup, some, text_key, ℕ, ◌≡◌, ◌≢◌, ◌≤◌}
use agentknot.Store.Admission.{admit, existing_record}
use agentknot.Store.AdmissionCases.{admit-cases, admit_route_pool-cases}
use agentknot.Store.Capacity.{
  release_capacity, try_acquire_capacity, try_acquire_capacity_in_transaction,
}
use agentknot.Store.LeaseMoves.{
  LeasesMove, Move, admit_new-LeasesMove, claim_lease-LeasesMove, enters, keeps,
  release_lease-LeasesMove, renew_lease-LeasesMove,
}
use agentknot.Store.Records.{
  bind_executor_job, bind_unbound, create, insert_cancellation, insert_new, request_cancellation,
  save, write_snapshot,
}
use agentknot.Store.RoutePool.{admit_chosen, admit_route_pool}
use agentknot.Store.Sql.{Database, LeaseRow}
use agentknot.Store.Steps.{Reach, Step, extended, unmoved}
use agentknot.Store.Types.{ExecutionLease}

-- The record's row is not the caller's any more, and the caller's fence is used up.
pub record IsOvertaken (lease : ExecutionLease) (row : LeaseRow) : Type 0 where
  pub not_ahead : lease.fence ≤ row.fence
  pub not_owner : row.fence ≡ lease.fence → row.owner_id ≢ lease.owner_id

abbrev pub Overtaken : ExecutionLease → Database → Type 0
Overtaken lease db =
    (row : LeaseRow) × (lookup lease.record_id db.execution_leases ≡ some row)
    × IsOvertaken lease row

Step-LeasesMove : {bound : ℕ} {db db' : Database} → Step bound db db' → LeasesMove db db'
unfolding create insert_new save write_snapshot bind_executor_job bind_unbound admit
    admit_route_pool admit_chosen existing_record release_capacity request_cancellation
    insert_cancellation try_acquire_capacity try_acquire_capacity_in_transaction
Step-LeasesMove (Step.creates s r h) j = keeps (ground arith)
Step-LeasesMove {db = db} {db' = db'} (Step.admits s r options w h) j =
    elim (admit-cases s r options db _ h) [
      | inl e ↦ keeps (ground arith)
      | inr (n, b, _, _, q, e) ↦
          let same : db'.execution_leases ≡ b.1.execution_leases = ground arith in
          rw same (admit_new-LeasesMove s n options db b q j)
    ]
Step-LeasesMove {db = db} {db' = db'} (Step.admits_pool s key candidates create_record options w h)
      j =
    elim (admit_route_pool-cases s key candidates create_record options db _ h) [
      | inl e ↦ keeps (ground arith)
      | inr (choice, n, b, _, _, _, q, e) ↦
          let same : db'.execution_leases ≡ b.1.execution_leases = ground arith in
          rw same (admit_new-LeasesMove s n options db b q j)
    ]
Step-LeasesMove (Step.saves s r lease now h) j = keeps (ground arith)
Step-LeasesMove (Step.binds s id expected executor at h) j = keeps (ground arith)
Step-LeasesMove (Step.claims s id owner ttl now h) j =
    claim_lease-LeasesMove s id owner ttl now _ _ h j
Step-LeasesMove (Step.renews s lease ttl now h) j = renew_lease-LeasesMove s lease ttl now _ _ h j
Step-LeasesMove (Step.releases s lease h) j = release_lease-LeasesMove s lease _ _ h j
Step-LeasesMove (Step.tries_capacity s lease limit now w h) j = keeps (ground arith)
Step-LeasesMove (Step.releases_capacity s lease h) j = keeps (ground arith)
Step-LeasesMove (Step.cancels s id source now h) j = keeps (ground arith)

Move-Overtaken :
    (lease : ExecutionLease) (o n : Option LeaseRow) (row : LeaseRow)
    → lease.owner_id ≢ ""
    → Move o n
    → o ≡ some row
    → IsOvertaken lease row
    → (row' : LeaseRow) × (n ≡ some row') × IsOvertaken lease row'
Move-Overtaken lease o n row named (keeps e) p v = (row, ground arith, v)
Move-Overtaken lease o n row named (enters r e e') p v = absurd (ground arith)
Move-Overtaken lease o n row named (Move.renews r r' e e' f w) p v = (r', e', ground arith)
Move-Overtaken lease o n row named (Move.reclaims r r' e e' f) p v = (r', e', ground arith)
Move-Overtaken lease o n row named (Move.frees r r' e e' f w) p v = (r', e', ground arith)

-- An overtaken lease stays so whatever is called, by anyone, at any time.
pub Reach-Overtaken :
    {bound : ℕ} {db db' : Database} (lease : ExecutionLease)
    → lease.owner_id ≢ ""
    → Reach bound db db'
    → Overtaken lease db
    → Overtaken lease db'
Reach-Overtaken lease named unmoved v = v
Reach-Overtaken lease named (extended r st) v =
    let (row, e, w) = Reach-Overtaken lease named r v in
    Move-Overtaken lease _ _ row named (Step-LeasesMove st lease.record_id) e w
