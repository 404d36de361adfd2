-- ===== src/Usage.antt =====
-- src/worker-usage.ts and the downstream usage of src/usage-report.ts.
pub mod Evidence
mod EvidenceLaws
pub mod Downstream
mod DownstreamLaws
mod Examples
