-- ===== src/Coordinator.antt =====
-- src/durable-execution.ts, the leases and the capacity of one runtime on the durable record store.
pub mod Operations
pub mod Waiting
mod Heartbeat
mod Release
mod Capacity
mod Superseded
mod Examples
