-- ===== src/Semaphore/State.antt =====
-- `Semaphore` of src/semaphore.ts. Each call of `acquire` has an identity, which stands for its
-- waiter, its promise and its release handle.
use agentknot.Common.{
  Bool, List, Option, [], any, false, get_or, if◌then◌else◌, keep, ltb, none, not, some, suc, true,
  zero, ℕ, ◌++◌, ◌+◌, ◌-◌, ◌==◌, ◌∷◌,
}

pub record Waiter : Type 0 where
  pub id : ℕ
  pub is_ready : Bool
  pub is_settled : Bool

-- `held` are the calls whose release handle was given out and has `released` false.
pub record State : Type 0 where
  pub available : ℕ
  pub waiters : List Waiter
  pub held : List ℕ

unfoldable pub new_semaphore : ℕ → State
new_semaphore capacity = record { available = capacity; waiters = []; held = [] }

-- `#drain`, a loop over the head of the queue.
unfoldable pub drain_from : ℕ → List Waiter → List ℕ → State
drain_from available [] held = record { available = available; waiters = []; held = held }
drain_from zero (w ∷ ws) held = record { available = 0; waiters = w ∷ ws; held = held }
drain_from (suc available) (w ∷ ws) held =
    let skipped = drain_from (suc available) ws held in
    let granted = drain_from available ws (held ++ w.id ∷ []) in
    if not w.is_ready
    then record { available = suc available; waiters = w ∷ ws; held = held }
    else if w.is_settled
    then skipped
    else granted

unfoldable pub drain : State → State
drain s = drain_from s.available s.waiters s.held

-- `acquire`: it throws if the signal is aborted, takes a slot that is free, and waits otherwise.
unfoldable pub acquire : ℕ → Bool → State → Option State
acquire id aborted s =
    if aborted
    then none
    else if ltb 0 s.available
    then some (record s { available = s.available - 1; held = s.held ++ id ∷ [] })
    else some (record s {
      waiters = s.waiters ++ record { id = id; is_ready = false; is_settled = false } ∷ [];
    })

unfoldable pub is_waiter : ℕ → Waiter → Bool
is_waiter id w = w.id == id

unfoldable pub set_ready : ℕ → List Waiter → List Waiter
set_ready id [] = []
set_ready id (w ∷ ws) =
    (if is_waiter id w then record w { is_ready = true } else w) ∷ set_ready id ws

-- The promise of `onWaiting` was kept. A waiter that is settled has left the queue.
unfoldable pub on_waited : ℕ → State → State
on_waited id s =
    if any (is_waiter id) s.waiters
    then drain (record s { waiters = set_ready id s.waiters })
    else s

-- The signal was aborted or `onWaiting` failed: the waiter is settled and leaves the queue.
unfoldable pub reject : ℕ → State → State
reject id s =
    if any (is_waiter id) s.waiters
    then drain (record s { waiters = keep (λ w. not (is_waiter id w)) s.waiters })
    else s

unfoldable pub without : ℕ → List ℕ → List ℕ
without id [] = []
without id (h ∷ hs) = if h == id then hs else h ∷ without id hs

-- The release handle; a second call of it does nothing.
unfoldable pub release : ℕ → State → State
release id s =
    if any (λ h. h == id) s.held
    then drain (record s { available = s.available + 1; held = without id s.held })
    else s

pub data Event : Type 0 where
  acquires : ℕ → Bool → Event
  waited rejects releases : ℕ → Event

unfoldable pub step : Event → State → State
step (acquires id aborted) s = get_or (acquire id aborted s) s
step (waited id) s = on_waited id s
step (rejects id) s = reject id s
step (releases id) s = release id s

unfoldable pub run : List Event → State → State
run [] s = s
run (e ∷ es) s = run es (step e s)
