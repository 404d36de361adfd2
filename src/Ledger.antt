-- ===== src/Ledger.antt =====
-- The services of src/work-order.ts, src/candidate.ts, src/review.ts and src/disposition.ts over
-- the durable record store.
pub mod Requests
pub mod Entries
pub mod Services
mod RequestLaws
mod Shelves
mod OrderRows
mod EntryLaws
mod Steps
mod Links
mod Recorded
mod Chain
mod SameInput
mod Finality
mod Evidence
mod Bodies
mod Scenario
mod Examples
