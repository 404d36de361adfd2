-- ===== src/Delegation/Examples.antt =====
-- The theorems on src/delegation-policy.ts, applied to one assessment.
use agentknot.Common.{
  String, [], get_elem?, length, map, none, refl, some, take, text_eq, true, ℕ, ◌<◌, ◌∷◌, ◌≡◌, ◌≢◌,
  ◌≤◌, ◌⊎◌,
}
use agentknot.Delegation.Plan.{
  complexity_eq, compose_delegation_plan, compose_plan, decimal, effective_mode, evidence_of,
  includes, is_eligible, is_forced, is_never, kept_upstream, matches, not_delegable, plan_reasoning,
  plan_subtasks, route_of, select_route_evidence, select_rule, unique, with_plan_hash,
}
use agentknot.Delegation.PlanLaws.{compose_delegation_plan-dispatch}
use agentknot.Delegation.Prompt.{join}
use agentknot.Delegation.Selection.{Fits, NoneFits, select_route_evidence_lem}
use agentknot.Delegation.Types.{
  AssessedSubtask, DelegationConfig, Encoding, OrchestrationRequest, RouteSelectionConfig,
  RouteSelectionRule, TaskAssessment, active, high, inherit, mode_auto, never, recommend_delegate,
  split, suggest,
}

abbrev encoding : Encoding
encoding = record { reference_json = λ r. r.id; plan_sha256 = λ p. p.reasoning }

abbrev request : OrchestrationRequest
request = record { prompt = "Ship it"; workspace = "/repo"; delegation = some inherit }

abbrev subtask : String → AssessedSubtask
subtask kind = record {
  title = "A task";
  kind = kind;
  prompt = "Do it";
  acceptance_criteria = "It works" ∷ [];
}

abbrev assessment : TaskAssessment
assessment = record {
  recommendation = recommend_delegate;
  complexity = high;
  parallelizable = true;
  task_kinds = "tests" ∷ "release" ∷ [];
  reasoning = "Bounded.";
  context = none;
  subtasks = subtask "tests" ∷ subtask "release" ∷ [];
}

abbrev selection : RouteSelectionConfig
selection = record {
  mode = active;
  rules =
      record { route = "docs"; task_kinds = some ("docs" ∷ []); complexities = none }
      ∷ record { route = "strong"; task_kinds = none; complexities = some (high ∷ []) }
      ∷ [];
}

abbrev config : DelegationConfig
config = record {
  mode = mode_auto;
  default_route = "fast";
  max_children = 3;
  route_selection = some selection;
  delegate_kinds = "tests" ∷ [];
  keep_upstream = "release" ∷ [];
}

-- One of the two subtasks goes to a worker, on the route of the second rule.
composed :
    let plan = (compose_delegation_plan encoding request assessment config).plan in
    (plan.will_dispatch ≡ true)
    × (plan.decision ≡ split)
    × (plan.reasoning ≡ "Bounded. Rejected task kinds: keep-upstream=[release].")
    × (map (λ p. p.id) plan.subtasks ≡ "subtask_1" ∷ [])
    × (map (λ p. p.route) plan.subtasks ≡ "strong" ∷ [])
unfolding text_eq includes complexity_eq matches select_rule select_route_evidence effective_mode
    unique is_forced is_never is_eligible decimal kept_upstream not_delegable plan_reasoning
    evidence_of route_of plan_subtasks compose_plan with_plan_hash compose_delegation_plan join
composed = (refl, refl, refl, refl, refl)

compose_delegation_plan-dispatch_example :
    (config.mode ≡ mode_auto)
    × (request.delegation ≢ some never)
    × (request.delegation ≢ some suggest)
    × (assessment.recommendation ≡ recommend_delegate)
    × (0 < length (compose_delegation_plan encoding request assessment config).plan.subtasks)
    × (length (compose_delegation_plan encoding request assessment config).plan.subtasks ≤ 3)
compose_delegation_plan-dispatch_example =
    compose_delegation_plan-dispatch encoding request assessment config composed.0

select_route_evidence_lem_example :
    ((select_route_evidence selection (subtask "tests") high "fast"
        ≡ record { mode = active; route = "fast"; rule_index = none })
      × NoneFits "tests" high selection.rules)
    ⊎ ((k : ℕ) × (rule : RouteSelectionRule) × (select_route_evidence selection
            (subtask "tests")
            high
            "fast"
          ≡ record { mode = active; route = rule.route; rule_index = some k })
        × (get_elem? selection.rules k ≡ some rule)
        × Fits "tests" high rule
        × NoneFits "tests" high (take k selection.rules))
select_route_evidence_lem_example =
    select_route_evidence_lem selection (subtask "tests") high "fast"
