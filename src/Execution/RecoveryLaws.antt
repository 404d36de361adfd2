-- ===== src/Execution/RecoveryLaws.antt =====
-- What a recovery of src/orchestrator.ts that activates a Job has reserved for it.
use agentknot.Common.{
  Bool, List, Option, Option-cases, [], ap, arith, err, false, if◌then◌else◌, inl, inr, none, ok,
  refl, some, subst, true, ℕ, ◌+◌, ◌∷◌, ◌≡◌, ◌≤◌,
}
use agentknot.Execution.ControlLoss.{
  mark_each, mark_lost, mark_pending_lost, mark_unsettled, request_of,
}
use agentknot.Execution.ControlReceipts.{settling}
use agentknot.Execution.ControlTypes.{ControlReason, ControlRequest}
use agentknot.Execution.EmitRule.{Ends, emit_rule}
use agentknot.Execution.Log.{
  Env, Event, EventType, Job, Run, Step, after, append_event, append_typed, appended_type, emit,
  is_truncation, is_worker, notify, notify_observer, persist, persisted, push_event,
}

-- The attempt in memory and in the store is at least `low`, of at most `most`.
pub record IsReserved (low most : ℕ) (r : Run) : Type 0 where
  pub in_memory : low ≤ r.job.attempt
  pub in_store : low ≤ r.stored.attempt
  pub of_job : r.job.max_attempts ≡ most
  pub of_stored : r.stored.max_attempts ≡ most

-- A Job of the store, as a recovery is given it.
abbrev pub listed : Job → Run
listed j = record { job = j; calls = 0; stored = j }

pub renumbered :
    (low most : ℕ) (r r' : Run)
    → r.job.max_attempts ≡ r'.job.max_attempts
    → r.stored ≡ r'.stored
    → low ≤ r'.job.attempt
    → IsReserved low most r
    → IsReserved low most r'
renumbered low most r r' same stored later k = record {
  in_memory = later;
  in_store = subst (λ (j : Job). low ≤ j.attempt) stored k.in_store;
  of_job = subst (λ (n : ℕ). n ≡ most) same k.of_job;
  of_stored = subst (λ (j : Job). j.max_attempts ≡ most) stored k.of_stored;
}

pub emit-IsReserved :
    (env : Env) (low most : ℕ) (type : EventType) (r : Run)
    → is_truncation type ≡ false
    → IsReserved low most r
    → Ends (IsReserved low most) (emit env type r)
unfolding push_event
emit-IsReserved env low most type r plain reserved =
    emit_rule env (IsReserved low most)
      (λ r r' job stored k.
        renumbered low most r r' (ap (λ (j : Job). j.max_attempts) job) stored
          (subst (λ (j : Job). low ≤ j.attempt) job k.in_memory) k)
      (λ type t at r h e k. record {
        in_memory = k.in_memory;
        in_store = k.in_memory;
        of_job = k.of_job;
        of_stored = k.of_job;
      })
      type r plain reserved

-- An emission that returns has stored the Job, with its numbers.
unfoldable pub Saved : Run → Step (Unit {0}) → Type 0
Saved r (r', ok done) =
    (r'.stored ≡ r'.job)
    × (r'.job.attempt ≡ r.job.attempt)
    × (r'.job.max_attempts ≡ r.job.max_attempts)
Saved r (r', err e) = Unit

pub emit-Saved :
    (env : Env) (type : EventType) (r : Run) → is_worker type ≡ false → Saved r (emit env type r)
unfolding Saved emit append_event append_typed appended_type persist persisted notify
    notify_observer push_event is_worker
emit-Saved env type r plain = elim (Option-cases (env.save r.calls)) [
  | inr (e, is) ↦ ground (arith, is, plain)
  | inl saved ↦ elim (Option-cases (env.save (r.calls + 1))) [
    | inl noted ↦ ground (arith, saved, plain, noted)
    | inr (e, is) ↦ ground (arith, saved, plain, is)
  ]
]

pub if_holds :
    {A : Type 0} (C : A → Type 0) (test : Bool) (x y : A)
    → (test ≡ true → C x)
    → (test ≡ false → C y)
    → C (if test then x else y)
if_holds C true x y left right = left refl
if_holds C false x y left right = right refl

-- What holds of the states is kept, in the way that `Does` says, when it is by each event.
module _ (env : Env) (P : Run → Type 0) (Does : Step (Unit {0}) → Type 0)
    (returns : (r : Run) → P r → Does (r, ok tt))
    (chains : (s : Step (Unit {0}))
      → (next : Run → Unit {0} → Step (Unit {0})) → Does s
      → ((r : Run) → (a : Unit {0}) → P r → Does (next r a))
      → Does (after s next))
    (emits : (type : EventType)
      → (r : Run) → is_truncation type ≡ false
      → P r
      → Does (emit env type r)) where
  mark_unsettled_does :
      (reason : ControlReason) (q : ControlRequest) (o : Option Event) (r : Run)
      → P r
      → Does (mark_unsettled env reason q o r)
  unfolding mark_unsettled settling is_truncation
  mark_unsettled_does reason q (some e) r holds = returns r holds
  mark_unsettled_does reason q none r holds = emits _ r refl holds

  mark_lost_does :
      (reason : ControlReason) (o : Option ControlRequest) (sequence : ℕ) (r : Run)
      → P r
      → Does (mark_lost env reason o sequence r)
  unfolding mark_lost
  mark_lost_does reason none sequence r holds = returns r holds
  mark_lost_does reason (some q) sequence r holds = mark_unsettled_does reason q _ r holds

  mark_each_does :
      (reason : ControlReason) (es : List Event) (r : Run) → P r → Does (mark_each env reason es r)
  unfolding mark_each
  mark_each_does reason [] r holds = returns r holds
  mark_each_does reason (e ∷ es) r holds =
      chains (mark_lost env reason (request_of e.type) e.sequence r) _
        (mark_lost_does reason (request_of e.type) e.sequence r holds)
        (λ r' done k. mark_each_does reason es r' k)

  pub mark_pending_lost_does :
      (attempt : ℕ) (reason : ControlReason) (r : Run)
      → P r
      → Does (mark_pending_lost env attempt reason r)
  unfolding mark_pending_lost
  mark_pending_lost_does attempt reason r holds = mark_each_does reason _ r holds
