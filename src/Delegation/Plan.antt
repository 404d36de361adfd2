-- ===== src/Delegation/Plan.antt =====
-- `composeDelegationPlan` of src/delegation-policy.ts: the deterministic policy over an assessment.
use Prim.Native.String.{◌++◌ as append}
use agentknot.Common.{
  Bool, List, Option, String, [], any, false, get_elem?, get_or, if◌then◌else◌, keep, length, ltb,
  map, none, not, some, suc, text_eq, true, zero, ℕ, ◌%◌, ◌&&◌, ◌++◌, ◌/◌, ◌==◌, ◌||◌, ◌∷◌,
}
use agentknot.Delegation.Prompt.{execution_prompt, join}
use agentknot.Delegation.Types.{
  AssessedSubtask, DelegationConfig, DelegationMode, DelegationPlan, Encoding, OrchestrationRequest,
  Plan, PlannedSubtask, Recommendation, RouteSelectionConfig, RouteSelectionEvidence,
  RouteSelectionRule, TaskAssessment, TaskComplexity, active, delegate, do_not_delegate, force,
  high, low, medium, mode_auto, mode_off, mode_suggest, never, recommend_delegate, shadow, split,
  suggest, upstream,
}

unfoldable pub includes : List String → String → Bool
includes names name = any (text_eq name) names

unfoldable pub complexity_eq : TaskComplexity → TaskComplexity → Bool
complexity_eq low low = true
complexity_eq medium medium = true
complexity_eq high high = true
complexity_eq _ _ = false

-- A rule without a list matches everything.
unfoldable pub matches : RouteSelectionRule → String → TaskComplexity → Bool
matches rule kind complexity =
    elim rule.task_kinds [ none ↦ true | some kinds ↦ includes kinds kind ]
    && elim rule.complexities [
      | none ↦ true
      | some complexities ↦ any (complexity_eq complexity) complexities
    ]

-- The loop over the rules, from index `i` on.
unfoldable pub select_rule :
    List RouteSelectionRule → ℕ → String → TaskComplexity → Option (ℕ × String)
select_rule [] i kind complexity = none
select_rule (rule ∷ rules) i kind complexity =
    if matches rule kind complexity
    then some (i, rule.route)
    else select_rule rules (suc i) kind complexity

unfoldable pub select_route_evidence :
    RouteSelectionConfig → AssessedSubtask → TaskComplexity → String → RouteSelectionEvidence
select_route_evidence selection subtask complexity default_route =
    elim (select_rule selection.rules 0 subtask.kind complexity) [
      | none ↦ record { mode = selection.mode; route = default_route; rule_index = none }
      | some (i, route) ↦ record { mode = selection.mode; route = route; rule_index = some i }
    ]

abbrev pub is_off : DelegationMode → Bool
is_off mode_off = true
is_off _ = false

unfoldable pub effective_mode : OrchestrationRequest → DelegationConfig → DelegationMode
effective_mode request config =
    if is_off config.mode
    then mode_off
    else elim request.delegation [ some suggest ↦ mode_suggest | _ ↦ config.mode ]

-- `[...new Set(names)]`
unfoldable pub unique : List String → List String
unique [] = []
unique (s ∷ ss) = s ∷ keep (λ t. not (text_eq s t)) (unique ss)

unfoldable pub is_forced : OrchestrationRequest → Bool
is_forced request = elim request.delegation [ some force ↦ true | _ ↦ false ]

unfoldable pub is_never : OrchestrationRequest → Bool
is_never request = elim request.delegation [ some never ↦ true | _ ↦ false ]

-- The two filters of the policy.
unfoldable pub is_eligible : OrchestrationRequest → DelegationConfig → AssessedSubtask → Bool
is_eligible request config subtask =
    not (includes config.keep_upstream subtask.kind)
    && (is_forced request || includes config.delegate_kinds subtask.kind)

abbrev digits : List String
digits = "0" ∷ "1" ∷ "2" ∷ "3" ∷ "4" ∷ "5" ∷ "6" ∷ "7" ∷ "8" ∷ "9" ∷ []

abbrev digit : ℕ → String
digit n = get_or (get_elem? digits n) ""

-- A number in decimal; as many rounds as the number and one are enough.
unfoldable pub decimal : ℕ → ℕ → String
decimal zero n = ""
decimal (suc rounds) n =
    let rest = decimal rounds (n / 10) in if ltb n 10 then digit n else append rest (digit (n % 10))

abbrev kinds_text : String → List String → List String
kinds_text label [] = []
kinds_text label (k ∷ ks) = append label (append (join ", " (k ∷ ks)) "]") ∷ []

unfoldable pub kept_upstream : DelegationConfig → List AssessedSubtask → List String
kept_upstream config subtasks =
    unique (map (λ s. s.kind) (keep (λ s. includes config.keep_upstream s.kind) subtasks))

unfoldable pub not_delegable :
    OrchestrationRequest → DelegationConfig → List AssessedSubtask → List String
not_delegable request config subtasks = unique (
    map (λ s. s.kind)
      (keep (λ s. not (is_forced request) && not (includes config.delegate_kinds s.kind))
        (keep (λ s. not (includes config.keep_upstream s.kind)) subtasks)))

unfoldable pub plan_reasoning : OrchestrationRequest → TaskAssessment → DelegationConfig → String
plan_reasoning request assessment config =
    elim (kinds_text "keep-upstream=[" (kept_upstream config assessment.subtasks)
      ++ kinds_text "not-delegable=[" (not_delegable request config assessment.subtasks)) [
        | [] ↦ assessment.reasoning
        | (e ∷ es) ↦
            append assessment.reasoning
              (append " Rejected task kinds: " (append (join "; " (e ∷ es)) "."))
      ]

unfoldable pub evidence_of :
    TaskAssessment → DelegationConfig → AssessedSubtask → Option RouteSelectionEvidence
evidence_of assessment config subtask = elim config.route_selection [
  | none ↦ none
  | some selection ↦
      some (select_route_evidence selection subtask assessment.complexity config.default_route)
]

-- Only active selection replaces the default route.
unfoldable pub route_of : Option RouteSelectionEvidence → String → String
route_of none default_route = default_route
route_of (some evidence) default_route = elim evidence.mode [
  | active ↦ evidence.route
  | shadow ↦ default_route
]

-- The subtasks of the plan, numbered from `n`.
unfoldable pub plan_subtasks :
    Encoding
    → OrchestrationRequest
    → TaskAssessment
    → DelegationConfig
    → ℕ
    → List AssessedSubtask
    → List PlannedSubtask
plan_subtasks encoding request assessment config n [] = []
plan_subtasks encoding request assessment config n (s ∷ ss) =
    record {
      subtask = s;
      id = append "subtask_" (decimal (suc n) n);
      route = route_of (evidence_of assessment config s) config.default_route;
      execution_prompt = execution_prompt encoding request assessment s;
      route_selection = evidence_of assessment config s;
    }
    ∷ plan_subtasks encoding request assessment config (suc n) ss

abbrev pub is_auto : DelegationMode → Bool
is_auto mode_auto = true
is_auto _ = false

abbrev pub is_delegate : Recommendation → Bool
is_delegate recommend_delegate = true
is_delegate do_not_delegate = false

abbrev kept : DelegationMode → String → TaskAssessment → Plan
kept mode reasoning assessment = record {
  mode = mode;
  decision = upstream;
  will_dispatch = false;
  reasoning = reasoning;
  assessment = assessment;
  subtasks = [];
}

unfoldable pub compose_plan :
    Encoding → OrchestrationRequest → TaskAssessment → DelegationConfig → Plan
compose_plan encoding request assessment config =
    let mode = effective_mode request config in
    let eligible = keep (is_eligible request config) assessment.subtasks in
    let reasoning = plan_reasoning request assessment config in
    if is_off mode || is_never request
    then kept mode
        (if is_off mode
          then "Automatic delegation is disabled by the effective AgentKnot policy."
          else "The orchestration request explicitly disabled delegation.")
        assessment
    else if not (is_delegate assessment.recommendation)
    then kept mode assessment.reasoning assessment
    else if ltb config.max_children (length assessment.subtasks)
    then kept mode
        (append assessment.reasoning
          " The proposed plan exceeded the configured child limit and was rejected.")
        assessment
    else if length eligible == 0
    then kept mode
        (append reasoning " No proposed subtask passed the deterministic delegation policy.")
        assessment
    else record {
      mode = mode;
      decision =
          if length eligible == 1 && length assessment.subtasks == 1 then delegate else split;
      will_dispatch = is_auto mode;
      reasoning = reasoning;
      assessment = assessment;
      subtasks = plan_subtasks encoding request assessment config 1 eligible;
    }

unfoldable pub with_plan_hash : Encoding → Plan → DelegationPlan
with_plan_hash encoding plan = record { plan = plan; plan_hash = encoding.plan_sha256 plan }

unfoldable pub compose_delegation_plan :
    Encoding → OrchestrationRequest → TaskAssessment → DelegationConfig → DelegationPlan
compose_delegation_plan encoding request assessment config =
    with_plan_hash encoding (compose_plan encoding request assessment config)
