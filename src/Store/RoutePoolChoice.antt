-- ===== src/Store/RoutePoolChoice.antt =====
-- The choice that `admitRoutePool` of src/durable-record-store.ts makes among its candidates.
use native.Mathlib.Nat.{mod-lt}
use agentknot.Common.{
  Bool, List, String, [], all, ap, arith, false, get_elem?, get_or, leb, length, le→leb, lookup,
  ltb, lt→ltb, ok, refl, some, subst, suc, text_key, true, zero, ℕ, ◌%◌, ◌+◌, ◌<◌, ◌∷◌, ◌≡◌, ◌≢◌,
  ◌≤◌,
}
use agentknot.Store.RoutePool.{
  Choice, active_before, active_count, choose, counts, is_least, minimum, select_member,
}
use agentknot.Store.RouteRotation.{minimum-le, select_member_lem}
use agentknot.Store.Sql.{Database}

counted :
    (db : Database) (now : ℕ) (cs : List String) (i : ℕ) (c : String)
    → get_elem? cs i ≡ some c
    → get_elem? (counts (active_before db now cs)) i ≡ some (active_count db now c)
unfolding active_before
counted db now (x ∷ cs) zero c h = ground arith
counted db now (x ∷ cs) (suc i) c h = counted db now cs i c h
counted db now [] i c h = cc

length-counts :
    (db : Database) (now : ℕ) (cs : List String)
    → length (counts (active_before db now cs)) ≡ length cs
unfolding active_before
length-counts db now [] = refl
length-counts db now (c ∷ cs) = ap suc (length-counts db now cs)

get_elem?-some :
    (cs : List String) (i : ℕ) → i < length cs → (c : String) × (get_elem? cs i ≡ some c)
get_elem?-some (c ∷ cs) zero h = (c, refl)
get_elem?-some (c ∷ cs) (suc i) h = get_elem?-some cs i (omega (arith, h))
get_elem?-some [] i h = ground (arith, h)

least-minimum :
    (ns : List ℕ) (i k : ℕ) → get_elem? ns i ≡ some k → is_least ns i ≡ true → k ≡ minimum ns
unfolding is_least
least-minimum ns i k h l = ground arith

not_least-minimum :
    (ns : List ℕ) (i k : ℕ) → get_elem? ns i ≡ some k → is_least ns i ≡ false → k ≢ minimum ns
unfolding is_least
not_least-minimum ns i k h l = ground arith

-- What the scan over the counts of the candidates finds.
choice_index :
    (db : Database) (now start : ℕ) (c : String) (cs : List String)
    → start < length (c ∷ cs)
    → (m : ℕ) × (select_member (counts (active_before db now (c ∷ cs))) start
        ≡ some ((start + m) % length (c ∷ cs)))
      × (is_least (counts (active_before db now (c ∷ cs))) ((start + m) % length (c ∷ cs)) ≡ true)
      × ((j : ℕ)
          → j < m
          → is_least (counts (active_before db now (c ∷ cs))) ((start + j) % length (c ∷ cs))
            ≡ false)
unfolding active_before
choice_index db now start c cs small =
    let ns = counts (active_before db now cs) in
    let n = active_count db now c in
    let same : length (n ∷ ns) ≡ length (c ∷ cs) = ap suc (length-counts db now cs) in
    subst
      (λ l.
        (m : ℕ) × (select_member (n ∷ ns) start ≡ some ((start + m) % l))
        × (is_least (n ∷ ns) ((start + m) % l) ≡ true)
        × ((j : ℕ) → j < m → is_least (n ∷ ns) ((start + j) % l) ≡ false))
      same (select_member_lem n ns start (omega (arith, small, same)))

-- The choice, with what holds of the candidate at each index.
choose-least :
    (db : Database) (key : String) (c : String) (cs : List String) (now : ℕ)
    → (choice : Choice) × (m : ℕ) × (choose db key (c ∷ cs) now ≡ ok choice)
      × (choice.cursor_before ≡ get_or (lookup key db.route_pool_cursors) 0 % length (c ∷ cs))
      × (choice.selected_member_index ≡ (choice.cursor_before + m) % length (c ∷ cs))
      × (get_elem? (c ∷ cs) choice.selected_member_index ≡ some choice.selected_route)
      × ((i : ℕ) (other : String)
          → get_elem? (c ∷ cs) i ≡ some other
          → active_count db now choice.selected_route ≤ active_count db now other)
      × ((j : ℕ) (other : String)
          → j < m
          → get_elem? (c ∷ cs) ((choice.cursor_before + j) % length (c ∷ cs)) ≡ some other
          → active_count db now choice.selected_route < active_count db now other)
unfolding choose active_before
choose-least db key c cs now =
    let start = get_or (lookup key db.route_pool_cursors) 0 % length (c ∷ cs) in
    let n = active_count db now c in
    let ns = counts (active_before db now cs) in
    let (m, e, least, passed) = choice_index db now start c cs (mod-lt _ (omega arith)) in
    let index = (start + m) % length (c ∷ cs) in
    let (route, there) = get_elem?-some (c ∷ cs) index (mod-lt _ (omega arith)) in
    let at_route = counted db now (c ∷ cs) index route there in
    let count_least : active_count db now route ≡ minimum (n ∷ ns) =
      least-minimum (n ∷ ns) index _ at_route least in
    (
      record {
        active_before = active_before db now (c ∷ cs);
        cursor_before = start;
        selected_route = route;
        selected_member_index = index;
      },
      m,
      (rw (e, there)),
      refl,
      refl,
      there,
      λ i other h.
          omega (arith, count_least, minimum-le n ns i _ (counted db now (c ∷ cs) i other h)),
      λ j other small h.
          let at_other = counted db now (c ∷ cs) _ other h in
          omega (
            arith,
            count_least,
            minimum-le n ns _ _ at_other,
            not_least-minimum (n ∷ ns) _ _ at_other (passed j small),
          ),
    )

all-get_elem? :
    (p : String → Bool) (cs : List String)
    → ((i : ℕ) (other : String) → get_elem? cs i ≡ some other → p other ≡ true)
    → all p cs ≡ true
all-get_elem? p [] h = refl
all-get_elem? p (c ∷ cs) h =
    ground (arith, h 0 c refl, all-get_elem? p cs (λ i other e. h (suc i) other e))

-- The candidates at the first `m` places of the rotation.
abbrev pub passed_over : List String → ℕ → ℕ → List String
passed_over cs cursor zero = []
passed_over cs cursor (suc m) =
    get_or (get_elem? cs ((cursor + m) % length cs)) "" ∷ passed_over cs cursor m

all-passed_over :
    (p : String → Bool) (c : String) (cs : List String) (cursor m : ℕ)
    → ((j : ℕ) (other : String)
        → j < m
        → get_elem? (c ∷ cs) ((cursor + j) % length (c ∷ cs)) ≡ some other
        → p other ≡ true)
    → all p (passed_over (c ∷ cs) cursor m) ≡ true
all-passed_over p c cs cursor zero h = refl
all-passed_over p c cs cursor (suc m) h =
    let (other, there) =
      get_elem?-some (c ∷ cs) ((cursor + m) % length (c ∷ cs)) (mod-lt _ (omega arith)) in
    let rest = all-passed_over p c cs cursor m (λ j o small e. h j o (omega (arith, small)) e) in
    ground (arith, h m other (omega arith) there, there, rest)

-- Among candidates that are not empty there is always a choice. It is the first, from the stored
-- cursor on (the first candidate, if none is stored) and around the list, of those with the fewest active leases: no candidate has fewer than
-- the selected route, and each that the rotation passed over has more.
pub choose_lem :
    (db : Database) (key : String) (c : String) (cs : List String) (now : ℕ)
    → (choice : Choice) × (m : ℕ) × (choose db key (c ∷ cs) now ≡ ok choice)
      × (choice.cursor_before ≡ get_or (lookup key db.route_pool_cursors) 0 % length (c ∷ cs))
      × (choice.selected_member_index ≡ (choice.cursor_before + m) % length (c ∷ cs))
      × (get_elem? (c ∷ cs) choice.selected_member_index ≡ some choice.selected_route)
      × (all
            (λ other. leb (active_count db now choice.selected_route) (active_count db now other))
            (c ∷ cs)
          ≡ true)
      × (all
            (λ other. ltb (active_count db now choice.selected_route) (active_count db now other))
            (passed_over (c ∷ cs) choice.cursor_before m)
          ≡ true)
choose_lem db key c cs now =
    let (choice, m, chosen, cursor, index, there, least, before) = choose-least db key c cs now in
    (
      choice,
      m,
      chosen,
      cursor,
      index,
      there,
      all-get_elem? _ (c ∷ cs) (λ i other e. le→leb _ _ (least i other e)),
      all-passed_over _ c cs choice.cursor_before m
          (λ j other small e. lt→ltb _ _ (before j other small e)),
    )
