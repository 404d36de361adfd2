-- ===== src/Execution.antt =====
-- The execution of one Job in src/orchestrator.ts: its event log and its attempts.
pub mod ControlTypes
pub mod Log
pub mod Channel
pub mod ControlReceipts
pub mod Control
pub mod ControlLoss
pub mod Recovery
pub mod Attempts
pub mod Rounds
mod EmitRule
mod RecoveryLaws
mod Activated
mod ControlCounts
mod ControlOnce
mod ControlHistory
mod ControlMarks
mod ControlSettled
mod Rule
mod Restarts
mod LogLaws
mod Bounds
mod Triples
mod AttemptOutcome
mod RoundOutcome
mod Outcome
mod Failures
mod Examples
mod ControlExamples
mod RecoveryOutcome
mod RecoveryExamples
