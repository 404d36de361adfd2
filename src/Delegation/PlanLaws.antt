-- ===== src/Delegation/PlanLaws.antt =====
-- What `composeDelegationPlan` of src/delegation-policy.ts lets a plan dispatch.
use agentknot.Common.{
  List, [], ap, arith, keep, length, length-keep-le, map, refl, some, suc, true, ℕ, ◌<◌, ◌∷◌, ◌≡◌,
  ◌≢◌, ◌≤◌,
}
use agentknot.Delegation.Plan.{
  compose_delegation_plan, compose_plan, effective_mode, is_eligible, is_never, plan_subtasks,
  with_plan_hash,
}
use agentknot.Delegation.Types.{
  AssessedSubtask, DelegationConfig, Encoding, OrchestrationRequest, TaskAssessment, mode_auto,
  never, recommend_delegate, suggest,
}

length-plan_subtasks :
    (encoding : Encoding) (request : OrchestrationRequest) (assessment : TaskAssessment)
    (config : DelegationConfig) (n : ℕ) (ss : List AssessedSubtask)
    → length (plan_subtasks encoding request assessment config n ss) ≡ length ss
unfolding plan_subtasks
length-plan_subtasks encoding request assessment config n [] = refl
length-plan_subtasks encoding request assessment config n (s ∷ ss) =
    ap suc (length-plan_subtasks encoding request assessment config (suc n) ss)

-- A plan that will be dispatched was composed under the mode "auto", for a request that neither
-- forbids delegation nor asks for a suggestion, from an assessment that recommends it, and it has at
-- least one subtask and at most as many as the configuration allows.
pub compose_delegation_plan-dispatch :
    (encoding : Encoding) (request : OrchestrationRequest) (assessment : TaskAssessment)
    (config : DelegationConfig)
    → (compose_delegation_plan encoding request assessment config).plan.will_dispatch ≡ true
    → (config.mode ≡ mode_auto)
      × (request.delegation ≢ some never)
      × (request.delegation ≢ some suggest)
      × (assessment.recommendation ≡ recommend_delegate)
      × (0 < length (compose_delegation_plan encoding request assessment config).plan.subtasks)
      × (length (compose_delegation_plan encoding request assessment config).plan.subtasks
          ≤ config.max_children)
unfolding compose_delegation_plan with_plan_hash compose_plan effective_mode is_never
compose_delegation_plan-dispatch encoding request assessment config h =
    let eligible = keep (is_eligible request config) assessment.subtasks in
    let same = length-plan_subtasks encoding request assessment config 1 eligible in
    let fewer = length-keep-le (is_eligible request config) assessment.subtasks in
    (
      ground arith,
      ground arith,
      ground arith,
      ground arith,
      ground (arith, same),
      ground (arith, same, fewer),
    )

abbrev pub chosen :
    Encoding → OrchestrationRequest → TaskAssessment → DelegationConfig → List AssessedSubtask
chosen encoding request assessment config =
    map (λ p. p.subtask) (compose_delegation_plan encoding request assessment config).plan.subtasks
