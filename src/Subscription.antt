-- ===== src/Subscription.antt =====
-- src/durable-subscription.ts: following a record's events over the store.
pub mod Subscribe
mod Delivery
mod Exact
mod Rounds
mod Endings
mod Total
mod Examples
