-- ===== src/Notifications.antt =====
-- The delivery of notices by e-mail (modules/notifications).
pub mod Delivery
pub mod Attempts
pub mod Steps
pub mod Finish
pub mod Workers
pub mod Bounded
mod Tests
