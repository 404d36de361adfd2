-- ===== src/Listing.antt =====
-- src/job-list.ts: the page of Jobs that fits one response.
pub mod Page
mod PageLaws
mod Examples
