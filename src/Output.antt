-- ===== src/Output.antt =====
-- src/job-output.ts: reading the output of a Job in chunks.
pub mod Read
mod ReadLaws
mod Examples
