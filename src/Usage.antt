-- ===== src/Usage.antt =====
-- The usage quota of a subscription (modules/subscriptions/usage.service.ts).
pub mod Rows
pub mod Store
pub mod Reserve
pub mod Settle
pub mod Expire
pub mod Balance
pub mod Service
pub mod Runs
pub mod Exact
pub mod Allowance
mod Tests
