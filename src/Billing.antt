-- ===== src/Billing.antt =====
-- Billing through a payment provider (modules/billing).
pub mod Rows
pub mod Store
pub mod Process
pub mod Service
pub mod Reconcile
pub mod Runs
pub mod Advances
pub mod Trusted
pub mod Repeats
mod Tests
