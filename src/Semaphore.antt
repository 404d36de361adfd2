-- ===== src/Semaphore.antt =====
-- src/semaphore.ts: process-local slots with a queue of waiters.
pub mod State
mod Conservation
mod Examples
