-- ===== src/Execution/ControlMarks.antt =====
-- What one round of `#markPendingControlsLost` of src/orchestrator.ts adds to the log.
use agentknot.Common.{
  Bool, List, Option, Option-cases, String, [], all, arith, count, count-append, err, false, find,
  inl, inr, leb, length, length-append, ltb, none, ok, refl, some, subst, text_eq_refl, true, ℕ,
  ◌&&◌, ◌+◌, ◌∷◌, ◌≡◌, ◌≤◌,
}
use agentknot.Execution.ControlCounts.{settling-plain, tally}
use agentknot.Execution.ControlLoss.{mark_each, mark_lost, mark_unsettled, request_of}
use agentknot.Execution.ControlReceipts.{find_settled, settlement, settles_id, settling}
use agentknot.Execution.ControlTypes.{ControlReason, ControlRequest, Settlement, lost}
use agentknot.Execution.Log.{
  Env, Event, EventType, Run, Step, after, append_event, append_typed, appended_type, control_lost,
  emit, is_worker, limit_data, new_event, notify, notify_observer, observer_failed, persist,
  persisted, push_event,
}

abbrev pub times : (Event → Bool) → Run → ℕ
times p r = count p r.job.events

-- What `#emit` of one event adds to the log.
abbrev Grown : (Event → Bool) → Event → Run → Step (Unit {0}) → Type 0
Grown p e r (r', ok done) =
    (times p r + tally (p e) ≤ times p r') × (length r.job.events ≤ length r'.job.events)
Grown p e r (r', err x) = Unit

emit-Grown :
    (env : Env) (p : Event → Bool) (type : EventType) (r : Run)
    → is_worker type ≡ false
    → Grown p
        (new_event (limit_data (env.exceeds type) type) (env.now r.calls) r.job)
        r
        (emit env type r)
unfolding emit append_event append_typed appended_type persist persisted notify notify_observer
    push_event new_event is_worker limit_data
emit-Grown env p type r plain = elim (Option-cases (env.save r.calls)) [
  | inr (e, is) ↦ ground (arith, is, plain)
  | inl saved ↦
      let at = env.now r.calls in
      let limited = limit_data (env.exceeds type) type in
      let first = count-append p r.job.events (new_event limited at r.job ∷ []) in
      let long = length-append r.job.events (new_event limited at r.job ∷ []) in
      let j = push_event limited at r.job in
      let then_failed = env.now (r.calls + 1) in
      let second = count-append p j.events (new_event observer_failed then_failed j ∷ []) in
      let longer = length-append j.events (new_event observer_failed then_failed j ∷ []) in
      elim (Option-cases (env.save (r.calls + 1))) [
        | inl noted ↦ ground (arith, saved, plain, noted, first, second, long, longer)
        | inr (e, is) ↦ ground (arith, saved, plain, is, first, second, long, longer)
      ]
]

-- The events that settle a request of an id at a place in the log.
abbrev pub settles_after : String → ℕ → Event → Bool
settles_after id sequence e = ltb sequence e.sequence && settles_id id e.type

-- The request of an event, if it is one of the attempt, is settled further on in the log.
abbrev pub IsSettled : ℕ → Run → Event → Type 0
IsSettled attempt r e =
    (q : ControlRequest)
    → request_of e.type ≡ some q
    → q.attempt ≡ attempt
    → 1 ≤ times (settles_after q.control_id e.sequence) r

settling-settles_id :
    (q : ControlRequest) (reason : Option ControlReason)
    → settles_id q.control_id (settling q lost reason) ≡ true
unfolding settling settles_id settlement
settling-settles_id q reason = text_eq_refl q.control_id

find-some : (p : Event → Bool) (xs : List Event) (e : Event) → find p xs ≡ some e → 1 ≤ count p xs
find-some p [] e h = cc
find-some p (x ∷ xs) e h = ground (arith, find-some p xs e)

abbrev pub AreSettled : ℕ → Run → List Event → Type 0
AreSettled attempt r [] = Unit
AreSettled attempt r (e ∷ es) = IsSettled attempt r e × AreSettled attempt r es

abbrev pub are_known : ℕ → List Event → Bool
are_known n es = all (λ (e : Event). leb e.sequence n) es

-- The log keeps the data of the events that say that a control was lost.
abbrev pub KeepsLost : Env → Type 0
KeepsLost env = (s : Settlement) → env.exceeds (control_lost s) ≡ false

kept_lost :
    (env : Env) (q : ControlRequest) (reason : Option ControlReason)
    → KeepsLost env
    → limit_data (env.exceeds (settling q lost reason)) (settling q lost reason)
      ≡ settling q lost reason
unfolding settling limit_data
kept_lost env q reason keeps = let small = keeps (settlement q lost reason) in ground (arith, small)

module _ (env : Env) (reason : ControlReason) (keeps : KeepsLost env) where
  -- What one round does for the request `q` at `sequence`, and what it leaves.
  abbrev Marks : ControlRequest → ℕ → Run → Step (Unit {0}) → Type 0
  Marks q sequence r (r', ok done) =
      (1 ≤ times (settles_after q.control_id sequence) r')
      × (((p : Event → Bool) → times p r ≤ times p r')
          × (length r.job.events ≤ length r'.job.events))
  Marks q sequence r (r', err x) = Unit

  Grown-Marks :
      (q : ControlRequest) (sequence : ℕ) (r : Run) (s : Step (Unit {0}))
      → sequence ≤ length r.job.events
      → ((p : Event → Bool)
          → Grown p (new_event (settling q lost (some reason)) (env.now r.calls) r.job) r s)
      → Marks q sequence r s
  unfolding new_event
  Grown-Marks q sequence r (r', err x) known grown = tt
  Grown-Marks q sequence r (r', ok done) known grown =
      let (more, long) = grown (settles_after q.control_id sequence) in
      (
        ground (arith, more, known, settling-settles_id q (some reason)),
        ((λ p. let most = grown p in omega (arith, most.0)), long),
      )

  mark_unsettled-Marks :
      (q : ControlRequest) (sequence : ℕ) (r : Run) (o : Option Event)
      → find_settled q.control_id sequence r.job.events ≡ o
      → sequence ≤ length r.job.events
      → Marks q sequence r (mark_unsettled env reason q o r)
  unfolding mark_unsettled find_settled
  mark_unsettled-Marks q sequence r (some e) is known = (
    find-some (settles_after q.control_id sequence) r.job.events e is,
    (λ p. omega arith, omega arith),
  )
  mark_unsettled-Marks q sequence r none is known =
      Grown-Marks q sequence r (emit env (settling q lost (some reason)) r) known (λ p.
        subst
          (λ (t : EventType).
            Grown p (new_event t (env.now r.calls) r.job) r
              (emit env (settling q lost (some reason)) r))
          (kept_lost env q (some reason) keeps)
          (emit-Grown env p (settling q lost (some reason)) r
            (settling-plain "" q lost (some reason)).1))

  -- The same for an event of any type.
  abbrev MarksEvent : ℕ → Event → Run → Step (Unit {0}) → Type 0
  MarksEvent attempt e r (r', ok done) =
      IsSettled attempt r' e
      × (((p : Event → Bool) → times p r ≤ times p r')
          × (length r.job.events ≤ length r'.job.events))
  MarksEvent attempt e r (r', err x) = Unit

  of_Marks :
      (attempt : ℕ) (e : Event) (q : ControlRequest) (r : Run) (s : Step (Unit {0}))
      → request_of e.type ≡ some q
      → Marks q e.sequence r s
      → MarksEvent attempt e r s
  of_Marks attempt e q r (r', ok done) is (settled, grown) = (
    (λ k so same.
        let one : q ≡ k = ground (arith, is, so) in
        subst (λ (x : ControlRequest). 1 ≤ times (settles_after x.control_id e.sequence) r') one
          settled),
    grown,
  )
  of_Marks attempt e q r (r', err x) is marks = tt

  mark_lost-MarksEvent :
      (attempt : ℕ) (e : Event) (o : Option ControlRequest) (r : Run)
      → request_of e.type ≡ o
      → e.sequence ≤ length r.job.events
      → MarksEvent attempt e r (mark_lost env reason o e.sequence r)
  unfolding mark_lost
  mark_lost-MarksEvent attempt e none r is known =
      ((λ k so same. absurd (ground (arith, is, so))), ((λ p. omega arith), omega arith))
  mark_lost-MarksEvent attempt e (some q) r is known =
      of_Marks attempt e q r
        (mark_unsettled env reason q (find_settled q.control_id e.sequence r.job.events) r) is
        (mark_unsettled-Marks q e.sequence r _ refl known)

  abbrev pub MarksAll : ℕ → List Event → Run → Step (Unit {0}) → Type 0
  MarksAll attempt es r (r', ok done) =
      AreSettled attempt r' es × ((p : Event → Bool) → times p r ≤ times p r')
  MarksAll attempt es r (r', err x) = Unit

  later-IsSettled :
      (attempt : ℕ) (e : Event) (r r' : Run)
      → ((p : Event → Bool) → times p r ≤ times p r')
      → IsSettled attempt r e
      → IsSettled attempt r' e
  later-IsSettled attempt e r r' grown settled q is same =
      let before = settled q is same in
      let after_it = grown (settles_after q.control_id e.sequence) in
      omega (arith, before, after_it)

  joined :
      (attempt : ℕ) (e : Event) (es : List Event) (r r' : Run) (s : Step (Unit {0}))
      → IsSettled attempt r' e
      → ((p : Event → Bool) → times p r ≤ times p r')
      → MarksAll attempt es r' s
      → MarksAll attempt (e ∷ es) r s
  joined attempt e es r r' (r'', err x) settled grown marks = tt
  joined attempt e es r r' (r'', ok done) settled grown (others, more) = (
    (later-IsSettled attempt e r' r'' more settled, others),
    λ p. let one = grown p in let two = more p in omega (arith, one, two),
  )

  are_known_later :
      (n m : ℕ) (es : List Event) → n ≤ m → are_known n es ≡ true → are_known m es ≡ true
  are_known_later n m [] less known = refl
  are_known_later n m (e ∷ es) less known = ground (arith, less, known, are_known_later n m es less)

  after_round :
      (attempt : ℕ) (e : Event) (es : List Event) (r : Run) (s : Step (Unit {0}))
      → are_known (length r.job.events) es ≡ true
      → MarksEvent attempt e r s
      → ((r' : Run)
          → are_known (length r'.job.events) es ≡ true
          → MarksAll attempt es r' (mark_each env reason es r'))
      → MarksAll attempt (e ∷ es) r (after s (λ r' done. mark_each env reason es r'))
  after_round attempt e es r (r', err x) known marks rest = tt
  after_round attempt e es r (r', ok done) known (settled, (grown, long)) rest =
      joined attempt e es r r' (mark_each env reason es r') settled grown
        (rest r' (are_known_later (length r.job.events) (length r'.job.events) es long known))

  pub mark_each-MarksAll :
      (attempt : ℕ) (es : List Event) (r : Run)
      → are_known (length r.job.events) es ≡ true
      → MarksAll attempt es r (mark_each env reason es r)
  unfolding mark_each
  mark_each-MarksAll attempt [] r known = (tt, λ p. omega arith)
  mark_each-MarksAll attempt (e ∷ es) r known =
      after_round attempt e es r (mark_lost env reason (request_of e.type) e.sequence r)
        (ground (arith, known))
        (mark_lost-MarksEvent attempt e (request_of e.type) r refl (ground (arith, known)))
        (λ r' later. mark_each-MarksAll attempt es r' later)
