-- ===== src/Store/RouteRotation.antt =====
-- The scan of `admitRoutePool` of src/durable-record-store.ts over the counts of its candidates.
use native.Mathlib.Nat.{mod-eq_of_lt, add-mod_right}
use agentknot.Common.{
  Bool-cases, List, [], ap, arith, false, get_elem?, inl, inr, leb, length, ltb, ltb-false, refl,
  some, subst, suc, sym, true, zero, ℕ, ◌%◌, ◌+◌, ◌-◌, ◌<◌, ◌∙◌, ◌∷◌, ◌≡◌, ◌≤◌,
}
use agentknot.Store.RoutePool.{is_least, minimum, select_from, select_member}

-- `Math.min` finds a member of its list, and none that is smaller stands in it.
minimum-get_elem? :
    (n : ℕ) (ns : List ℕ)
    → (i : ℕ) × (i < length (n ∷ ns)) × (get_elem? (n ∷ ns) i ≡ some (minimum (n ∷ ns)))
unfolding minimum
minimum-get_elem? n [] = (0, omega arith, refl)
minimum-get_elem? n (m ∷ ns) =
    let (i, small, there) = minimum-get_elem? m ns in
    elim (Bool-cases (leb n (minimum (m ∷ ns)))) [
      | inl le ↦ (0, omega arith, ground arith)
      | inr gt ↦ (suc i, omega (arith, small), ground arith)
    ]

pub minimum-le :
    (n : ℕ) (ns : List ℕ) (i k : ℕ) → get_elem? (n ∷ ns) i ≡ some k → minimum (n ∷ ns) ≤ k
unfolding minimum
minimum-le n [] zero k h = ground arith
minimum-le n [] (suc i) k h = ground arith
minimum-le n (m ∷ ns) zero k h = ground arith
minimum-le n (m ∷ ns) (suc i) k h = ground (arith, minimum-le m ns i k h)

-- The loop stops at the first offset whose index is a least one.
select_from-first :
    (ns : List ℕ) (cursor rounds offset k : ℕ)
    → offset ≤ k
    → k < offset + rounds
    → is_least ns ((cursor + k) % length ns) ≡ true
    → (m : ℕ) × (select_from ns cursor rounds offset ≡ some ((cursor + m) % length ns))
      × (offset ≤ m)
      × (m ≤ k)
      × (is_least ns ((cursor + m) % length ns) ≡ true)
      × ((j : ℕ) → offset ≤ j → j < m → is_least ns ((cursor + j) % length ns) ≡ false)
unfolding select_from
select_from-first ns cursor zero offset k a b h = ground (arith, a, b)
select_from-first ns cursor (suc rounds) offset k a b h =
    elim (Bool-cases (is_least ns ((cursor + offset) % length ns))) [
      | inl least ↦ (offset, rw least, omega arith, a, least, λ j c d. ground (arith, c, d))
      | inr other ↦
          let differs : (offset ≡ k) → ⊥ = λ e. cc in
          let (m, e, c, d, f, g) =
            select_from-first ns cursor rounds (offset + 1) k (omega (arith, a, differs))
              (omega (arith, b)) h in
          (
            m,
            (rw other) ∙ e,
            omega (arith, c),
            d,
            f,
            λ j x y. elim (Bool-cases (ltb offset j)) [
              | inl past ↦ g j (ground arith) y
              | inr here ↦
                  let same : offset ≡ j = omega (arith, x, ltb-false offset j here) in
                  subst (λ o. is_least ns ((cursor + o) % length ns) ≡ false) same other
            ],
          )
    ]

-- Some offset leads from the cursor to each index.
offset_to : (n cursor i : ℕ) → cursor < n → i < n → (k : ℕ) × (k < n) × ((cursor + k) % n ≡ i)
offset_to n cursor i c h = elim (Bool-cases (leb cursor i)) [
  | inl le ↦ (i - cursor, ground arith, ap (λ (x : ℕ). x % n) (ground arith) ∙ mod-eq_of_lt h)
  | inr gt ↦ (
    i + n - cursor,
    ground arith,
    ap (λ (x : ℕ). x % n) (ground arith) ∙ add-mod_right i n ∙ mod-eq_of_lt h,
  )
]

-- There is always a choice. It is the first, from the cursor on and around the list, of those whose
-- count is the least.
pub select_member_lem :
    (n : ℕ) (ns : List ℕ) (cursor : ℕ)
    → cursor < length (n ∷ ns)
    → (m : ℕ) × (select_member (n ∷ ns) cursor ≡ some ((cursor + m) % length (n ∷ ns)))
      × (is_least (n ∷ ns) ((cursor + m) % length (n ∷ ns)) ≡ true)
      × ((j : ℕ) → j < m → is_least (n ∷ ns) ((cursor + j) % length (n ∷ ns)) ≡ false)
unfolding select_member
select_member_lem n ns cursor small =
    let (i, i_small, there) = minimum-get_elem? n ns in
    let (k, k_small, at) = offset_to (length (n ∷ ns)) cursor i small i_small in
    let least : is_least (n ∷ ns) ((cursor + k) % length (n ∷ ns)) ≡ true =
      subst (λ o. is_least (n ∷ ns) o ≡ true) (sym at) (unfold is_least in ground arith) in
    let (m, e, _, _, f, g) =
      select_from-first (n ∷ ns) cursor (length (n ∷ ns)) 0 k (omega arith) (omega (arith, k_small))
        least in
    (m, e, f, λ j. g j (omega arith))
