-- ===== src/Delegation/Selection.antt =====
-- The route that `selectRouteEvidence` of src/delegation-policy.ts picks.
use agentknot.Common.{
  Bool, Bool-cases, List, Option, String, [], any, arith, false, get_elem?, inl, inr, none, refl,
  some, subst, suc, take, text_eq, text_eq_iff, text_eq_refl, true, ℕ, ◌+◌, ◌∷◌, ◌≡◌, ◌≢◌, ◌⊎◌,
}
use agentknot.Delegation.Plan.{complexity_eq, includes, matches, select_route_evidence, select_rule}
use agentknot.Delegation.Types.{
  AssessedSubtask, RouteSelectionConfig, RouteSelectionRule, TaskComplexity, high, low, medium,
}

module _ (kind : String) (complexity : TaskComplexity) where
  abbrev fits : RouteSelectionRule → Bool
  fits rule = matches rule kind complexity

  select_rule-first :
      (rules : List RouteSelectionRule) (i : ℕ)
      → ((select_rule rules i kind complexity ≡ none) × (any fits rules ≡ false))
        ⊎ ((k : ℕ) × (rule : RouteSelectionRule) × (select_rule rules i kind complexity
              ≡ some (i + k, rule.route))
            × (get_elem? rules k ≡ some rule)
            × (fits rule ≡ true)
            × (any fits (take k rules) ≡ false))
  unfolding select_rule
  select_rule-first [] i = inl (refl, refl)
  select_rule-first (rule ∷ rules) i = elim (Bool-cases (fits rule)) [
    | inl yes_fits ↦ inr (0, rule, ground arith, refl, yes_fits, refl)
    | inr misses ↦ elim (select_rule-first rules (suc i)) [
      | inl (e, f) ↦ inl (ground (arith, misses, e), ground (arith, misses, f))
      | inr (k, found, e, there, yes_fits, before) ↦
          inr (
            suc k,
            found,
            ground (arith, misses, e),
            there,
            yes_fits,
            ground (arith, misses, before),
          )
    ]
  ]

abbrev pub Occurs : {A : Type 0} → A → List A → Type 0
Occurs x [] = ⊥
Occurs x (y ∷ ys) = (x ≡ y) ⊎ Occurs x ys

-- A list that a rule gives has the value among its own; no list has every value.
abbrev pub Allows : {A : Type 0} → Option (List A) → A → Type 0
Allows none x = Unit
Allows (some xs) x = Occurs x xs

-- A rule fits a subtask's kind and the complexity of the parent.
abbrev pub Fits : String → TaskComplexity → RouteSelectionRule → Type 0
Fits kind complexity rule = Allows rule.task_kinds kind × Allows rule.complexities complexity

abbrev pub NoneFits : String → TaskComplexity → List RouteSelectionRule → Type 0
NoneFits kind complexity [] = Unit
NoneFits kind complexity (rule ∷ rules) =
    (¬ Fits kind complexity rule) × NoneFits kind complexity rules

complexity_eq_iff :
    (c d : TaskComplexity)
    → ((complexity_eq c d ≡ true) × (c ≡ d)) ⊎ ((complexity_eq c d ≡ false) × (c ≢ d))
unfolding complexity_eq
complexity_eq_iff low low = inl (refl, refl)
complexity_eq_iff medium medium = inl (refl, refl)
complexity_eq_iff high high = inl (refl, refl)
complexity_eq_iff low medium = inr (refl, λ e. cc)
complexity_eq_iff low high = inr (refl, λ e. cc)
complexity_eq_iff medium low = inr (refl, λ e. cc)
complexity_eq_iff medium high = inr (refl, λ e. cc)
complexity_eq_iff high low = inr (refl, λ e. cc)
complexity_eq_iff high medium = inr (refl, λ e. cc)

text_eq-cases :
    (s t : String) → ((text_eq s t ≡ true) × (s ≡ t)) ⊎ ((text_eq s t ≡ false) × (s ≢ t))
text_eq-cases s t = elim (Bool-cases (text_eq s t)) [
  | inl same ↦ let is = text_eq_iff s t in inl (same, ground (arith, same, is))
  | inr other ↦
      inr (other, λ e. let itself = subst (λ u. text_eq s u ≡ true) e (text_eq_refl s) in cc)
]

module _ {A : Type 0} (eq : A → A → Bool)
    (decides : (x y : A) → ((eq x y ≡ true) × (x ≡ y)) ⊎ ((eq x y ≡ false) × (x ≢ y))) where
  any-Occurs : (x : A) (ys : List A) → any (eq x) ys ≡ true → Occurs x ys
  any-Occurs x [] h = cc
  any-Occurs x (y ∷ ys) h = elim (decides x y) [
    | inl (same, is) ↦ inl is
    | inr (other, is) ↦ inr (any-Occurs x ys (ground (arith, other, h)))
  ]

  any-not_Occurs : (x : A) (ys : List A) → any (eq x) ys ≡ false → ¬ Occurs x ys
  any-not_Occurs x [] h = λ there. there
  any-not_Occurs x (y ∷ ys) h = elim (decides x y) [
    | inl (same, is) ↦ cc
    | inr (other, is) ↦ λ there. elim there [
      | inl e ↦ is e
      | inr rest ↦ any-not_Occurs x ys (ground (arith, other, h)) rest
    ]
  ]

  abbrev listed : Option (List A) → A → Bool
  listed o x = elim o [ none ↦ true | some ys ↦ any (eq x) ys ]

  listed-cases :
      (o : Option (List A)) (x : A)
      → ((listed o x ≡ true) × Allows o x) ⊎ ((listed o x ≡ false) × (¬ Allows o x))
  listed-cases none x = inl (refl, tt)
  listed-cases (some ys) x = elim (Bool-cases (any (eq x) ys)) [
    | inl there ↦ inl (there, any-Occurs x ys there)
    | inr absent ↦ inr (absent, any-not_Occurs x ys absent)
  ]

matches-cases :
    (rule : RouteSelectionRule) (kind : String) (complexity : TaskComplexity)
    → ((matches rule kind complexity ≡ true) × Fits kind complexity rule)
      ⊎ ((matches rule kind complexity ≡ false) × (¬ Fits kind complexity rule))
unfolding matches includes
matches-cases rule kind complexity =
    let kinds = listed-cases text_eq text_eq-cases rule.task_kinds kind in
    let complexities = listed-cases complexity_eq complexity_eq_iff rule.complexities complexity in
    elim kinds [
      | inl (a, in_kinds) ↦ elim complexities [
        | inl (b, in_complexities) ↦ inl (ground (arith, a, b), (in_kinds, in_complexities))
        | inr (b, out) ↦ inr (ground (arith, a, b), λ fit. out fit.1)
      ]
      | inr (a, out) ↦ inr (ground (arith, a), λ fit. out fit.0)
    ]

fits-Fits :
    (kind : String) (complexity : TaskComplexity) (rule : RouteSelectionRule)
    → fits kind complexity rule ≡ true
    → Fits kind complexity rule
fits-Fits kind complexity rule h = elim (matches-cases rule kind complexity) [
  | inl (same, fit) ↦ fit
  | inr (other, out) ↦ cc
]

any-NoneFits :
    (kind : String) (complexity : TaskComplexity) (rules : List RouteSelectionRule)
    → any (fits kind complexity) rules ≡ false
    → NoneFits kind complexity rules
any-NoneFits kind complexity [] h = tt
any-NoneFits kind complexity (rule ∷ rules) h = elim (matches-cases rule kind complexity) [
  | inl (same, fit) ↦ cc
  | inr (other, out) ↦ (out, any-NoneFits kind complexity rules (ground (arith, other, h)))
]

-- The evidence names the first rule that fits the subtask's kind and the parent's complexity, with
-- its index, or, if no rule fits, the default route. A rule fits if the kind is among its kinds and
-- the complexity among its complexities, where a rule without such a list takes any.
pub select_route_evidence_lem :
    (selection : RouteSelectionConfig) (subtask : AssessedSubtask) (complexity : TaskComplexity)
    (default_route : String)
    → ((select_route_evidence selection subtask complexity default_route
          ≡ record { mode = selection.mode; route = default_route; rule_index = none })
        × NoneFits subtask.kind complexity selection.rules)
      ⊎ ((k : ℕ) × (rule : RouteSelectionRule) × (select_route_evidence selection subtask complexity
              default_route
            ≡ record { mode = selection.mode; route = rule.route; rule_index = some k })
          × (get_elem? selection.rules k ≡ some rule)
          × Fits subtask.kind complexity rule
          × NoneFits subtask.kind complexity (take k selection.rules))
unfolding select_route_evidence
select_route_evidence_lem selection subtask complexity default_route =
    let kind = subtask.kind in
    elim (select_rule-first kind complexity selection.rules 0) [
      | inl (e, f) ↦ inl (ground (arith, e), any-NoneFits kind complexity selection.rules f)
      | inr (k, rule, e, there, yes_fits, before) ↦ inr (
        k,
        rule,
        ground (arith, e),
        there,
        fits-Fits kind complexity rule yes_fits,
        any-NoneFits kind complexity (take k selection.rules) before,
      )
    ]
