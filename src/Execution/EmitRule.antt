-- ===== src/Execution/EmitRule.antt =====
-- What holds at the start of `#emit` of src/orchestrator.ts and after each event that is put into the
-- log, holds at its end.
use agentknot.Common.{
  Bool, List, Option, [], ap, arith, err, false, if◌then◌else◌, length, none, ok, refl, some, sym,
  true, ℕ, ◌++◌, ◌+◌, ◌∷◌, ◌≡◌,
}
use agentknot.Execution.Log.{
  Env, Event, EventType, Job, Run, SaveError, Step, after, append_event, append_typed,
  appended_type, control_accepted, control_lost, control_rejected, control_requested, drop_last,
  emit, is_truncation, is_worker, limit_data, notify, notify_observer, observer_failed, persist,
  persisted, push_event, undo_push,
}

-- What holds of the state that a step ends in.
pub data Ends {A : Type 0} (P : Run → Type 0) (s : Run × A) : Type 0 where
  ends : P s.0 → Ends P s

pub ended : {A : Type 0} {P : Run → Type 0} {s : Run × A} → Ends P s → P s.0
ended (ends holds) = holds

pub after_rule :
    {A B : Type 0}
    → (P : Run → Type 0) → (s : Step A) → (next : Run → A → Step B) → Ends P s
    → ((r : Run) → (a : A) → P r → Ends P (next r a))
    → Ends P (after s next)
after_rule P (r, err e) next (ends holds) step = ends holds
after_rule P (r, ok a) next (ends holds) step = step r a holds

pub if_rule :
    {A : Type 0} (P : Run → Type 0) (test : Bool) (s t : Run × A)
    → Ends P s
    → Ends P t
    → Ends P (if test then s else t)
if_rule P true s t left right = left
if_rule P false s t left right = right

drop_last-push : (es : List Event) (e : Event) → drop_last (es ++ e ∷ []) ≡ es
unfolding drop_last
drop_last-push [] e = refl
drop_last-push (x ∷ []) e = refl
drop_last-push (x ∷ y ∷ es) e = ap (λ (l : List Event). x ∷ l) (drop_last-push (y ∷ es) e)

pub undo_push-push_event :
    (type : EventType) (at : ℕ) (j : Job) → undo_push j.updated_at (push_event type at j) ≡ j
unfolding undo_push push_event
undo_push-push_event type at j =
    ap (λ (es : List Event). record j { events = es })
      (drop_last-push j.events (record { sequence = length j.events + 1; at = at; type = type }))

pub limit_data-is_worker : (b : Bool) (t : EventType) → is_worker (limit_data b t) ≡ is_worker t
unfolding limit_data is_worker
limit_data-is_worker b (control_requested q) = ground arith
limit_data-is_worker b (control_accepted s) = ground arith
limit_data-is_worker b (control_rejected s) = ground arith
limit_data-is_worker b (control_lost s) = ground arith
limit_data-is_worker b _ = refl

pub limit_data-is_truncation :
    (b : Bool) (t : EventType) → is_truncation (limit_data b t) ≡ is_truncation t
unfolding limit_data is_truncation
limit_data-is_truncation b (control_requested q) = ground arith
limit_data-is_truncation b (control_accepted s) = ground arith
limit_data-is_truncation b (control_rejected s) = ground arith
limit_data-is_truncation b (control_lost s) = ground arith
limit_data-is_truncation b _ = refl

module _ (env : Env) (P : Run → Type 0)
    (changes : (r r' : Run) → r.job ≡ r'.job → r.stored ≡ r'.stored → P r → P r')
    (appends : (type t : EventType)
      → (at : ℕ) → (r : Run) → is_truncation type ≡ false
      → appended_type r.job.events type ≡ some t
      → P r
      → P (record {
        job = push_event (limit_data (env.exceeds t) t) at r.job;
        calls = r.calls + 1;
        stored = push_event (limit_data (env.exceeds t) t) at r.job;
      })) where
  persisted_rule :
      (type t : EventType)
      → (at : ℕ) → (save : Option SaveError) → (r : Run) → is_truncation type ≡ false
      → appended_type r.job.events type ≡ some t
      → P r
      → Ends P (persisted (limit_data (env.exceeds t) t) at save r)
  unfolding persisted
  persisted_rule type t at none r h e holds = ends (appends type t at r h e holds)
  persisted_rule type t at (some x) r h e holds =
      ends (
        changes r _ (sym (undo_push-push_event (limit_data (env.exceeds t) t) at r.job)) refl holds)

  append_typed_rule :
      (type : EventType)
      → (t : Option EventType) → (r : Run) → is_truncation type ≡ false
      → appended_type r.job.events type ≡ t
      → P r
      → Ends P (append_typed env t r)
  unfolding append_typed persist
  append_typed_rule type none r h e holds = ends holds
  append_typed_rule type (some t) r h e holds = persisted_rule type t _ _ r h e holds

  append_event_rule :
      (type : EventType)
      → (r : Run) → is_truncation type ≡ false
      → P r
      → Ends P (append_event env type r)
  unfolding append_event
  append_event_rule type r h holds = append_typed_rule type _ r h refl holds

  notify_rule : (e : Option Event) → (r : Run) → P r → Ends P (notify env e r)
  unfolding notify notify_observer is_truncation
  notify_rule none r holds = ends holds
  notify_rule (some e) r holds =
      if_rule P _ _ _
        (after_rule P _ _ (append_event_rule observer_failed r refl holds) (λ r' a k. ends k))
        (ends holds)

  pub emit_rule :
      (type : EventType) → (r : Run) → is_truncation type ≡ false → P r → Ends P (emit env type r)
  unfolding emit
  emit_rule type r h holds =
      after_rule P _ _ (append_event_rule type r h holds) (λ r' e k. notify_rule e r' k)
