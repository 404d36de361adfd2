-- ===== src/Semaphore/Examples.antt =====
-- The theorems on src/semaphore.ts, applied to one history.
use agentknot.Common.{List, [], false, refl, true, ◌∷◌, ◌≡◌}
use agentknot.Semaphore.Conservation.{IsConserved, IsDrained, run-IsConserved}
use agentknot.Semaphore.State.{
  Event, Waiter, acquire, acquires, drain, drain_from, is_waiter, new_semaphore, on_waited, release,
  releases, run, set_ready, step, waited, without,
}

-- With one slot: two calls, the second of which waits; then the first is released, twice.
abbrev history : List Event
history =
    acquires 1 false ∷ acquires 2 false ∷ waited 2 ∷ acquires 3 true ∷ releases 1 ∷ releases 1 ∷ []

after_history :
    run history (new_semaphore 1) ≡ record { available = 0; waiters = []; held = 2 ∷ [] }
unfolding run step acquire on_waited release drain drain_from set_ready is_waiter without
    new_semaphore
after_history = refl

run-IsConserved_example :
    IsConserved 1 (run history (new_semaphore 1)) × IsDrained (run history (new_semaphore 1))
run-IsConserved_example = run-IsConserved 1 history

abbrev queue : List Waiter
queue =
    record { id = 4; is_ready = true; is_settled = false }
    ∷ record { id = 5; is_ready = true; is_settled = false }
    ∷ record { id = 6; is_ready = false; is_settled = false }
    ∷ []
