-- ===== src/Store.antt =====
-- src/durable-record-store.ts, the transactional record store that every other part writes to.
pub mod Types
pub mod Sql
pub mod Records
pub mod Leases
pub mod Capacity
pub mod Admission
pub mod RoutePool
mod CapacityBound
pub mod LeaseMoves
pub mod Steps
pub mod AdmissionCases
pub mod StepCapacity
pub mod Fencing
pub mod Numbering
pub mod EventLog
pub mod History
pub mod Persistence
pub mod Permanence
pub mod Guarantees
pub mod FencedOut
pub mod Fairness
mod AdmittedOnce
pub mod Scenario
pub mod Replay
mod Examples
mod RouteRotation
mod RoutePoolChoice
