-- ===== src/Activity.antt =====
-- src/job-activity.ts: the activity of a Job, derived from its events.
pub mod Types
pub mod Project
mod ProjectLaws
mod Running
mod Examples
