-- ===== src/Store/Numbering.antt =====
-- Event numbering, and what the append-only check and the inserts make of it.
use mathlib.Core.Path.{ap₂}
use mathlib.Core.List.{append-nil, append_assoc}
use agentknot.Common.{
  List, [], ap, arith, drop, guard-eq-ok, keep, leb, length, length-append, ltb, ok, refl, subst,
  suc, sym, zero, ℕ, ◌++◌, ◌+◌, ◌<◌, ◌==◌, ◌∙◌, ◌∷◌, ◌≡◌, ◌≤◌,
}
use agentknot.Store.Sql.{insert_event, insert_events}
use agentknot.Store.Types.{
  StoredEvent, assert_append_only, assert_events_from, assert_unchanged_from, event_eq, event_eq→eq,
}

-- The events carry the numbers from `n + 1` on, without a gap.
abbrev pub Numbered : ℕ → List StoredEvent → Type 0
Numbered n [] = Unit {0}
Numbered n (e ∷ es) = (e.sequence ≡ suc n) × Numbered (suc n) es

pub assert_events-Numbered :
    (n : ℕ) (es : List StoredEvent) {u : Unit {0}} → assert_events_from n es ≡ ok u → Numbered n es
unfolding assert_events_from
assert_events-Numbered n [] h = tt
assert_events-Numbered n (e ∷ es) h =
    let (same, rest) = guard-eq-ok (e.sequence == suc n) _ _ h in
    (ground arith, assert_events-Numbered (suc n) es rest)

pub Numbered-assert_events :
    (n : ℕ) (es : List StoredEvent) → Numbered n es → assert_events_from n es ≡ ok tt
unfolding assert_events_from
Numbered-assert_events n [] h = refl
Numbered-assert_events n (e ∷ es) h = ground (arith, Numbered-assert_events (suc n) es h.1)

pub Numbered-append :
    (n : ℕ) (xs ys : List StoredEvent)
    → Numbered n (xs ++ ys)
    → Numbered n xs × Numbered (n + length xs) ys
Numbered-append n [] ys h = (tt, subst (λ k. Numbered k ys) (omega arith) h)
Numbered-append n (x ∷ xs) ys h =
    let (l, r) = Numbered-append (suc n) xs ys h.1 in
    ((h.0, l), subst (λ k. Numbered k ys) (omega arith) r)

insert_last :
    (n k : ℕ) (e : StoredEvent) (rows : List StoredEvent)
    → Numbered n rows
    → n + length rows < e.sequence
    → insert_event e rows ≡ ok (rows ++ e ∷ [])
unfolding insert_event
insert_last n k e [] h b = refl
insert_last n k e (r ∷ rs) h b = ground (arith, insert_last (suc n) k e rs h.1 (omega arith))

Numbered-snoc :
    (n : ℕ) (e : StoredEvent) (rows : List StoredEvent)
    → Numbered n rows
    → e.sequence ≡ suc (n + length rows)
    → Numbered n (rows ++ e ∷ [])
Numbered-snoc n e [] h s = (omega arith, tt)
Numbered-snoc n e (r ∷ rs) h s = (h.0, Numbered-snoc (suc n) e rs h.1 (omega arith))

-- Inserting the events that follow the rows appends them.
pub insert_suffix :
    (es rows : List StoredEvent)
    → Numbered 0 rows
    → Numbered (length rows) es
    → insert_events es rows ≡ ok (rows ++ es)
unfolding insert_events
insert_suffix [] rows h s = rw append-nil
insert_suffix (e ∷ es) rows h s = rw (insert_last 0 0 e rows h (omega arith)) (
    insert_suffix es (rows ++ e ∷ []) (Numbered-snoc 0 e rows h (omega arith))
      (subst (λ k. Numbered k es) (omega (arith, length-append rows (e ∷ []))) s.1)
    ∙ ap ok (append_assoc rows (e ∷ []) es))

-- What passes the append-only check begins with the old events.
pub assert_unchanged-prefix :
    (i : ℕ) (previous next : List StoredEvent) {u : Unit {0}}
    → assert_unchanged_from i previous next ≡ ok u
    → next ≡ previous ++ drop (length previous) next
unfolding assert_unchanged_from
assert_unchanged-prefix i [] next h = refl
assert_unchanged-prefix i (p ∷ ps) [] h = cc
assert_unchanged-prefix i (p ∷ ps) (n ∷ ns) h =
    let (same, rest) = guard-eq-ok (event_eq p n) _ _ h in
    ap₂ ◌∷◌ (sym (event_eq→eq p n same)) (assert_unchanged-prefix (suc i) ps ns rest)

pub assert_append_only-prefix :
    (previous next : List StoredEvent) {u : Unit {0}}
    → assert_append_only previous next ≡ ok u
    → next ≡ previous ++ drop (length previous) next
unfolding assert_append_only
assert_append_only-prefix previous next h =
    let (_, rest) = guard-eq-ok (leb (length previous) (length next)) _ _ h in
    assert_unchanged-prefix 0 previous next rest

keep_all :
    (m n : ℕ) (es : List StoredEvent) → m ≤ n → Numbered n es → keep (λ e. ltb m e.sequence) es ≡ es
keep_all m n [] le h = refl
keep_all m n (e ∷ es) le h = ground (arith, keep_all m (suc n) es)

-- The events behind a cursor are those that come after as many.
pub keep-after_cursor :
    (cursor n d : ℕ) (es : List StoredEvent)
    → cursor ≡ n + d
    → Numbered n es
    → keep (λ e. ltb cursor e.sequence) es ≡ drop d es
keep-after_cursor cursor n zero es c h = keep_all cursor n es (omega arith) h
keep-after_cursor cursor n (suc d) [] c h = refl
keep-after_cursor cursor n (suc d) (e ∷ es) c h =
    ground (arith, keep-after_cursor cursor (suc n) d es (omega arith) h.1)
