-- ===== src/Subscription/Exact.antt =====
-- Parts of a log, as a subscriber of src/durable-subscription.ts gets them.
use mathlib.Core.List.{append-nil, append_assoc}
use agentknot.Common.{
  List, [], ap, arith, drop, length, length-append, sym, take, take-drop, ℕ, ◌++◌, ◌∙◌, ◌≡◌, ◌≤◌,
}
use agentknot.Store.Types.{StoredEvent}
use agentknot.Subscription.Delivery.{take-append, take-length}
use agentknot.Subscription.Subscribe.{Delivered}

-- Behind the first `cursor` events of the log come the delivered ones, and they lead to the new
-- cursor.
abbrev pub IsExact : List StoredEvent → ℕ → Delivered → Type 0
IsExact log cursor d =
    (cursor ≤ d.cursor)
    × (d.cursor ≤ length log)
    × (take cursor log ++ d.events ≡ take d.cursor log)

piece :
    (c : ℕ) (xs more : List StoredEvent)
    → c ≤ length xs
    → take c (xs ++ more) ++ drop c xs ≡ take (length xs) (xs ++ more)
piece c xs more small =
    ap (λ (l : List StoredEvent). l ++ drop c xs) (take-append c xs more small)
    ∙ take-drop c xs
    ∙ sym (take-append (length xs) xs more (omega arith) ∙ take-length xs)

pub nothing_sent :
    (cursor : ℕ) (log : List StoredEvent) (d : Delivered)
    → cursor ≤ length log
    → d.events ≡ []
    → d.cursor ≡ cursor
    → IsExact log cursor d
nothing_sent cursor log d small e c = (
  omega (arith, c),
  omega (arith, c, small),
  ap (λ es. take cursor log ++ es) e ∙ append-nil (take cursor log) ∙ ap (λ k. take k log) (sym c),
)

pub longer :
    (n : ℕ) (xs ys more : List StoredEvent) → n ≤ length xs → ys ≡ xs ++ more → n ≤ length ys
longer n xs ys more small e = omega (arith, small, ap length e, length-append xs more)

pub sent-IsExact :
    (c : ℕ) (xs more log : List StoredEvent) (d : Delivered)
    → c ≤ length xs
    → log ≡ xs ++ more
    → d.events ≡ drop c xs
    → d.cursor ≡ length xs
    → IsExact log c d
sent-IsExact c xs more log d small e sent at = (
  omega (arith, small, at),
  omega (arith, at, longer (length xs) xs log more (omega arith) e),
  ap (λ l. take c l ++ d.events) e
      ∙ ap (λ l. take c (xs ++ more) ++ l) sent
      ∙ piece c xs more small
      ∙ ap (λ l. take (length xs) l) (sym e)
      ∙ ap (λ k. take k log) (sym at),
)

pub joined-IsExact :
    (c : ℕ) (xs more log : List StoredEvent) (x d : Delivered)
    → c ≤ length xs
    → log ≡ xs ++ more
    → IsExact log (length xs) x
    → d.events ≡ drop c xs ++ x.events
    → d.cursor ≡ x.cursor
    → IsExact log c d
joined-IsExact c xs more log x d small e (a, b, rest) sent at = (
  omega (arith, small, a, at),
  omega (arith, b, at),
  ap (λ l. take c log ++ l) sent
      ∙ sym (append_assoc (take c log) (drop c xs) x.events)
      ∙ ap (λ l. (take c l ++ drop c xs) ++ x.events) e
      ∙ ap (λ (l : List StoredEvent). l ++ x.events) (piece c xs more small)
      ∙ ap (λ l. take (length xs) l ++ x.events) (sym e)
      ∙ rest
      ∙ ap (λ k. take k log) (sym at),
)
