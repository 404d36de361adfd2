-- ===== src/Store/AdmissionCases.antt =====
-- A successful `admit` or `admitRoutePool` of src/durable-record-store.ts either finds the record of
-- its idempotency key and writes nothing, or goes through `admit_new`.
use agentknot.Common.{
  >>=-eq-ok, List, Option-cases, String, arith, guard-eq-ok, inl, inr, length, none, ok, put,
  text_key, true, ◌%◌, ◌+◌, ◌≡◌, ◌⊎◌,
}
use agentknot.Store.Admission.{
  AdmissionOptions, AdmissionResult, admit, admit_new, admitted_before, check_admission, created,
  existing_record,
}
use agentknot.Store.RoutePool.{
  Choice, admit_chosen, admit_route_pool, check_pool_admission, choose, has_route,
}
use agentknot.Store.Sql.{Database}
use agentknot.Store.Types.{
  ExecutionLease, Store, StoredRecord, attach_revision, materialize, route_mismatch,
}

existing_record-unchanged :
    (s : Store) (id : String) (db : Database) (a : AdmissionResult × Database)
    → existing_record s id db ≡ ok a
    → a.1 ≡ db
unfolding existing_record
existing_record-unchanged s id db a h = ground arith

pub admit-cases :
    (s : Store) (r : StoredRecord) (options : AdmissionOptions) (db : Database)
    (a : AdmissionResult × Database)
    → admit s r options db ≡ ok a
    → (a.1 ≡ db)
      ⊎ ((n : StoredRecord) × (b : ExecutionLease × Database) × (materialize s r ≡ ok n)
          × (admitted_before options.idempotency db ≡ ok none)
          × (admit_new s n options db ≡ ok b)
          × (a ≡ (created (attach_revision r 1) b.0, b.1)))
unfolding admit
admit-cases s r options db a h =
    let (_, _, h₁) = >>=-eq-ok (check_admission s options) _ h in
    let (n, m, h₂) = >>=-eq-ok (materialize s r) _ h₁ in
    let (before, p, h₃) = >>=-eq-ok (admitted_before options.idempotency db) _ h₂ in
    elim (Option-cases before) [
      | inl e ↦
          let (b, q, h₄) = >>=-eq-ok (admit_new s n options db) _ (rw e at h₃) in
          inr (n, b, m, rw e at p, q, ground arith)
      | inr (id, e) ↦ inl (existing_record-unchanged s id db a (rw e at h₃))
    ]

pub admit_route_pool-cases :
    (s : Store) (key : String) (candidates : List String) (create_record : Choice → StoredRecord)
    (options : AdmissionOptions) (db : Database) (a : AdmissionResult × Database)
    → admit_route_pool s key candidates create_record options db ≡ ok a
    → (a.1 ≡ db)
      ⊎ ((choice : Choice) × (n : StoredRecord) × (b : ExecutionLease × Database) × (choose db key
              candidates options.now
            ≡ ok choice)
          × (materialize s (create_record choice) ≡ ok n)
          × (has_route choice.selected_route n ≡ true)
          × (admit_new s n options db ≡ ok b)
          × (a ≡ (
            created (attach_revision (create_record choice) 1) b.0,
            record b.1 {
              route_pool_cursors =
                  put key
                    ((choice.selected_member_index + 1) % length candidates)
                    b.1.route_pool_cursors;
            },
          )))
unfolding admit_route_pool admit_chosen
admit_route_pool-cases s key candidates create_record options db a h =
    let (_, _, h₁) = >>=-eq-ok (check_pool_admission s key candidates options) _ h in
    let (before, p, h₂) = >>=-eq-ok (admitted_before options.idempotency db) _ h₁ in
    elim (Option-cases before) [
      | inl e ↦
          let (choice, c, h₃) = >>=-eq-ok (choose db key candidates options.now) _ (rw e at h₂) in
          let (n, m, h₄) = >>=-eq-ok (materialize s (create_record choice)) _ h₃ in
          let (routed, h₅) = guard-eq-ok (has_route choice.selected_route n) route_mismatch _ h₄ in
          let (b, q, h₆) = >>=-eq-ok (admit_new s n options db) _ h₅ in
          inr (choice, n, b, c, m, routed, q, ground arith)
      | inr (id, e) ↦ inl (existing_record-unchanged s id db a (rw e at h₂))
    ]
