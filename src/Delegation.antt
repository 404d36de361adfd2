-- ===== src/Delegation.antt =====
-- src/delegation-policy.ts: what a controller's assessment may dispatch.
pub mod Types
pub mod Prompt
pub mod Plan
mod Selection
mod PlanLaws
mod Examples
