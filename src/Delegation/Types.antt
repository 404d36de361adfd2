-- ===== src/Delegation/Types.antt =====
-- The assessment, the configuration and the plan of src/delegation-policy.ts, with the types of
-- src/orchestration-types.ts and src/config.ts that it reads.
use agentknot.Common.{Bool, List, Option, String, ℕ}

pub data DelegationMode : Type 0 where
  mode_off mode_suggest mode_auto : DelegationMode

pub data DelegationOverride : Type 0 where
  inherit never suggest force : DelegationOverride

pub data TaskComplexity : Type 0 where
  low medium high : TaskComplexity

pub data Recommendation : Type 0 where
  recommend_delegate do_not_delegate : Recommendation

pub data Decision : Type 0 where
  upstream delegate split : Decision

pub record ContextReference : Type 0 where
  pub id : String
  pub kind : String
  pub locator : String
  pub source : String
  pub revision : Option String
  pub digest : Option String
  pub summary : Option String

pub record TaskContext : Type 0 where
  pub summary : String
  pub relevant_paths : List String
  pub constraints : List String
  pub references : Option (List ContextReference)

pub record AssessedSubtask : Type 0 where
  pub title : String
  pub kind : String
  pub prompt : String
  pub acceptance_criteria : List String

pub record TaskAssessment : Type 0 where
  pub recommendation : Recommendation
  pub complexity : TaskComplexity
  pub parallelizable : Bool
  pub task_kinds : List String
  pub reasoning : String
  pub context : Option TaskContext
  pub subtasks : List AssessedSubtask

pub record OrchestrationRequest : Type 0 where
  pub prompt : String
  pub workspace : String
  pub delegation : Option DelegationOverride

pub record RouteSelectionRule : Type 0 where
  pub route : String
  pub task_kinds : Option (List String)
  pub complexities : Option (List TaskComplexity)

pub data RouteSelectionMode : Type 0 where
  shadow active : RouteSelectionMode

pub record RouteSelectionConfig : Type 0 where
  pub mode : RouteSelectionMode
  pub rules : List RouteSelectionRule

-- `ruleIndex` stands where the basis is a rule; without it the basis is the default.
pub record RouteSelectionEvidence : Type 0 where
  pub mode : RouteSelectionMode
  pub route : String
  pub rule_index : Option ℕ

pub record DelegationConfig : Type 0 where
  pub mode : DelegationMode
  pub default_route : String
  pub max_children : ℕ
  pub route_selection : Option RouteSelectionConfig
  pub delegate_kinds : List String
  pub keep_upstream : List String

pub record PlannedSubtask : Type 0 where
  pub subtask : AssessedSubtask
  pub id : String
  pub route : String
  pub execution_prompt : String
  pub route_selection : Option RouteSelectionEvidence

-- A plan before `withPlanHash`.
pub record Plan : Type 0 where
  pub mode : DelegationMode
  pub decision : Decision
  pub will_dispatch : Bool
  pub reasoning : String
  pub assessment : TaskAssessment
  pub subtasks : List PlannedSubtask

pub record DelegationPlan : Type 0 where
  pub plan : Plan
  pub plan_hash : String

-- Code that is not in the repository: `JSON.stringify` of a context reference, and the SHA-256 of
-- the JSON text of a plan.
pub record Encoding : Type 0 where
  pub reference_json : ContextReference → String
  pub plan_sha256 : Plan → String
