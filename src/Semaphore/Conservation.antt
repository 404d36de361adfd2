-- ===== src/Semaphore/Conservation.antt =====
-- What src/semaphore.ts keeps to.
use mathlib.Core.List.{append-nil, append_assoc}
use agentknot.Common.{
  Bool, Bool-cases, List, [], all, any, arith, false, inl, inr, keep, length, length-append, map,
  not, refl, suc, sym, true, zero, ℕ, ◌++◌, ◌+◌, ◌==◌, ◌||◌, ◌∷◌, ◌≡◌,
}
use agentknot.Semaphore.State.{
  Event, State, Waiter, acquire, acquires, drain, drain_from, is_waiter, new_semaphore, on_waited,
  reject, rejects, release, releases, run, set_ready, step, waited, without,
}

-- The slots that are free and those that are held are as many as at the start.
abbrev pub IsConserved : ℕ → State → Type 0
IsConserved capacity s = s.available + length s.held ≡ capacity

abbrev pub head_waits : List Waiter → Bool
head_waits [] = true
head_waits (w ∷ ws) = not w.is_ready

-- No slot is free while the head of the queue could take it.
abbrev pub IsDrained : State → Type 0
IsDrained s = (s.available == 0 || head_waits s.waiters) ≡ true

drain_from-IsConserved :
    (capacity available : ℕ) (ws : List Waiter) (held : List ℕ)
    → available + length held ≡ capacity
    → IsConserved capacity (drain_from available ws held)
unfolding drain_from
drain_from-IsConserved capacity available [] held h = h
drain_from-IsConserved capacity zero (w ∷ ws) held h = h
drain_from-IsConserved capacity (suc available) (w ∷ ws) held h = ground (
  arith,
  drain_from-IsConserved capacity (suc available) ws held h,
  drain_from-IsConserved capacity available ws (held ++ w.id ∷ [])
      (omega (arith, h, length-append held (w.id ∷ []))),
)

drain_from-IsDrained :
    (available : ℕ) (ws : List Waiter) (held : List ℕ) → IsDrained (drain_from available ws held)
unfolding drain_from
drain_from-IsDrained available [] held = ground arith
drain_from-IsDrained zero (w ∷ ws) held = refl
drain_from-IsDrained (suc available) (w ∷ ws) held = ground (
  arith,
  drain_from-IsDrained (suc available) ws held,
  drain_from-IsDrained available ws (held ++ w.id ∷ []),
)

length-without :
    (id : ℕ) (held : List ℕ)
    → any (λ h. h == id) held ≡ true
    → suc (length (without id held)) ≡ length held
unfolding without
length-without id [] h = cc
length-without id (x ∷ xs) h = ground (arith, length-without id xs)

append-head_waits :
    (ws : List Waiter) (w : Waiter)
    → w.is_ready ≡ false
    → head_waits ws ≡ true
    → head_waits (ws ++ w ∷ []) ≡ true
append-head_waits [] w h k = ground arith
append-head_waits (v ∷ ws) w h k = k

step-IsConserved :
    (capacity : ℕ) (e : Event) (s : State)
    → IsConserved capacity s
    → IsConserved capacity (step e s)
unfolding step acquire on_waited reject release drain
step-IsConserved capacity (acquires id aborted) s h = ground (arith, length-append s.held (id ∷ []))
step-IsConserved capacity (waited id) s h =
    ground (arith, drain_from-IsConserved capacity s.available (set_ready id s.waiters) s.held h)
step-IsConserved capacity (rejects id) s h = ground (
  arith,
  drain_from-IsConserved capacity s.available (keep (λ w. not (is_waiter id w)) s.waiters) s.held h,
)
step-IsConserved capacity (releases id) s h = elim (Bool-cases (any (λ x. x == id) s.held)) [
  | inl holds_one ↦
      let fewer = length-without id s.held holds_one in
      let drained =
        drain_from-IsConserved capacity (s.available + 1) s.waiters (without id s.held)
          (omega (arith, h, fewer)) in
      ground (arith, drained)
  | inr other ↦ ground arith
]

step-IsDrained : (e : Event) (s : State) → IsDrained s → IsDrained (step e s)
unfolding step acquire on_waited reject release drain
step-IsDrained (acquires id aborted) s h = ground (
  arith,
  append-head_waits s.waiters (record { id = id; is_ready = false; is_settled = false }) refl,
)
step-IsDrained (waited id) s h =
    ground (arith, drain_from-IsDrained s.available (set_ready id s.waiters) s.held)
step-IsDrained (rejects id) s h =
    ground
      (arith, drain_from-IsDrained s.available (keep (λ w. not (is_waiter id w)) s.waiters) s.held)
step-IsDrained (releases id) s h =
    ground (arith, drain_from-IsDrained (s.available + 1) s.waiters (without id s.held))

run_sound :
    (capacity : ℕ) (es : List Event) (s : State)
    → IsConserved capacity s
    → IsDrained s
    → IsConserved capacity (run es s) × IsDrained (run es s)
unfolding run
run_sound capacity [] s c d = (c, d)
run_sound capacity (e ∷ es) s c d =
    run_sound capacity es (step e s) (step-IsConserved capacity e s c) (step-IsDrained e s d)

-- Whatever calls, aborts, failures and releases happen, in any order and any of them repeatedly, no
-- slot is lost or made, and no slot stays free while the head of the queue is ready for it.
pub run-IsConserved :
    (capacity : ℕ) (es : List Event)
    → IsConserved capacity (run es (new_semaphore capacity))
      × IsDrained (run es (new_semaphore capacity))
unfolding new_semaphore
run-IsConserved capacity es =
    run_sound capacity es (new_semaphore capacity) (omega arith) (ground arith)

-- The queue is served in order: `#drain` takes a part of the queue from its front, and gives a slot
-- to each waiter of that part that is not settled, in the order in which they came.
pub drain_from-order :
    (available : ℕ) (ws : List Waiter) (held : List ℕ)
    → (served : List Waiter) × (ws ≡ served ++ (drain_from available ws held).waiters)
      × ((drain_from available ws held).held
          ≡ held ++ map (λ w. w.id) (keep (λ w. not w.is_settled) served))
      × (all (λ w. w.is_ready) served ≡ true)
unfolding drain_from
drain_from-order available [] held = ([], refl, sym (append-nil held), refl)
drain_from-order zero (w ∷ ws) held = ([], refl, sym (append-nil held), refl)
drain_from-order (suc available) (w ∷ ws) held = elim (Bool-cases w.is_ready) [
  | inr waits ↦ ([], ground arith, ground (arith, append-nil held), refl)
  | inl ready ↦ elim (Bool-cases w.is_settled) [
    | inl settled ↦
        let (served, a, b, c) = drain_from-order (suc available) ws held in
        (w ∷ served, ground (arith, a), ground (arith, b), ground (arith, c))
    | inr unsettled ↦
        let (served, a, b, c) = drain_from-order available ws (held ++ w.id ∷ []) in
        let ids = map (λ v. v.id) (keep (λ v. not v.is_settled) served) in
        (
          w ∷ served,
          ground (arith, a),
          ground (arith, b, append_assoc held (w.id ∷ []) ids),
          ground (arith, c),
        )
  ]
]
