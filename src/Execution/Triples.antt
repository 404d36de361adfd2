-- ===== src/Execution/Triples.antt =====
-- What a step of an execution of src/orchestrator.ts returns, and what it throws.
use agentknot.Common.{
  Bool, List, Option, Result, arith, err, false, if◌then◌else◌, none, ok, refl, some, true, ℕ, ◌≡◌,
}
use agentknot.Execution.Log.{
  Env, Event, EventType, Job, Run, RunError, SaveError, Step, after, append_event, append_typed,
  appended_type, emit, is_worker, limit_data, notify, notify_observer, observer_failed, persist,
  persisted, push_event,
}

unfoldable pub Outcome :
    {A : Type 0} → (Run → A → Type 0) → (Run → RunError → Type 0) → Run → Result RunError A → Type 0
Outcome Returned Thrown r (ok a) = Returned r a
Outcome Returned Thrown r (err e) = Thrown r e

pub data Settles {A : Type 0} (Returned : Run → A → Type 0) (Thrown : Run → RunError → Type 0)
    (s : Step A) : Type 0 where
  settles : Outcome Returned Thrown s.0 s.1 → Settles Returned Thrown s

pub gives :
    {A : Type 0} {Returned : Run → A → Type 0} {Thrown : Run → RunError → Type 0} {r : Run} {a : A}
    → Returned r a
    → Settles Returned Thrown (r, ok a)
unfolding Outcome
gives holds = settles holds

pub fails :
    {A : Type 0} {Returned : Run → A → Type 0} {Thrown : Run → RunError → Type 0} {r : Run}
    {e : RunError}
    → Thrown r e
    → Settles {A = A} Returned Thrown (r, err e)
unfolding Outcome
fails holds = settles holds

pub after-Settles :
    {A B : Type 0} {Q : Run → A → Type 0} {R : Run → B → Type 0} {E F : Run → RunError → Type 0}
    (s : Step A) (next : Run → A → Step B)
    → Settles Q E s
    → ((r : Run) (e : RunError) → E r e → F r e)
    → ((r : Run) (a : A) → Q r a → Settles R F (next r a))
    → Settles R F (after s next)
unfolding Outcome
after-Settles (r, ok a) next (settles holds) throws step = step r a holds
after-Settles (r, err e) next (settles holds) throws step = settles (throws r e holds)

pub weaken :
    {A : Type 0} {Q R : Run → A → Type 0} {E : Run → RunError → Type 0} {s : Step A}
    → Settles Q E s
    → ((r : Run) (a : A) → Q r a → R r a)
    → Settles R E s
unfolding Outcome
weaken {s = (r, ok a)} (settles holds) step = settles (step r a holds)
weaken {s = (r, err e)} (settles holds) step = settles holds

pub if_Settles :
    {A : Type 0} {Q : Run → A → Type 0} {E : Run → RunError → Type 0} (test : Bool) (s t : Step A)
    → (test ≡ true → Settles Q E s)
    → (test ≡ false → Settles Q E t)
    → Settles Q E (if test then s else t)
if_Settles true s t left right = left refl
if_Settles false s t left right = right refl

unfoldable pub Never : Run → RunError → Type 0
Never r e = ⊥

pub never : (F : Run → RunError → Type 0) (r : Run) (e : RunError) → Never r e → F r e
unfolding Never
never F r e impossible = elim impossible [ ]

-- When no save fails, an event is put into the log, or dropped, without an error.
module _ (env : Env) (saves : (n : ℕ) → env.save n ≡ none) (P : Job → Type 0)
    (keeps : (t : EventType) (at : ℕ) (j : Job) → P j → P (push_event t at j)) where
  abbrev Kept : {A : Type 0} → Bool → Run → A → Type 0
  Kept worker_event r a = P r.job × (worker_event ≡ false → r.stored ≡ r.job)

  persisted-Settles :
      (t : EventType) (at : ℕ) (save : Option SaveError) (r : Run)
      → save ≡ none
      → P r.job
      → Settles (Kept false) Never (persisted t at save r)
  unfolding persisted
  persisted-Settles t at none r h holds = gives (keeps t at r.job holds, λ e. refl)
  persisted-Settles t at (some e) r h holds = cc

  append_typed-Settles :
      (w : Bool) (t : Option EventType) (r : Run)
      → (t ≡ none → w ≡ true)
      → P r.job
      → Settles (Kept w) Never (append_typed env t r)
  unfolding append_typed persist
  append_typed-Settles w none r h holds = let worker_event = h refl in gives (holds, λ e. cc)
  append_typed-Settles w (some t) r h holds =
      weaken (persisted-Settles (limit_data (env.exceeds t) t) _ _ r (saves r.calls) holds)
        (λ r' a k. (k.0, λ e. k.1 refl))

  -- Only an event of a worker is dropped.
  dropped_worker :
      (es : List Event) (type : EventType) → appended_type es type ≡ none → is_worker type ≡ true
  unfolding appended_type
  dropped_worker es type dropped = ground arith

  append_event-Settles :
      (type : EventType) (r : Run)
      → P r.job
      → Settles (Kept (is_worker type)) Never (append_event env type r)
  unfolding append_event
  append_event-Settles type r holds =
      append_typed-Settles (is_worker type) _ r (dropped_worker r.job.events type) holds

  observed-Settles :
      (w : Bool) (r : Run)
      → P r.job
      → Settles (Kept w) Never (after (append_event env observer_failed r) (λ r' e. (r', ok tt)))
  unfolding is_worker
  observed-Settles w r holds =
      after-Settles _ _ (append_event-Settles observer_failed r holds) (never _)
        (λ r' a k. gives (k.0, λ e. k.1 refl))

  notify-Settles :
      (w : Bool) (e : Option Event) (r : Run) → Kept w r e → Settles (Kept w) Never (notify env e r)
  unfolding notify notify_observer
  notify-Settles w none r kept = gives kept
  notify-Settles w (some e) r kept =
      if_Settles (env.observer_throws e) _ (r, ok tt) (λ h. observed-Settles w r kept.0)
        (λ h. gives kept)

  pub emit-Settles :
      (type : EventType) (r : Run)
      → P r.job
      → Settles (Kept (is_worker type)) Never (emit env type r)
  unfolding emit
  emit-Settles type r holds =
      after-Settles _ _ (append_event-Settles type r holds) (never _)
        (λ r' e k. notify-Settles _ e r' k)
