-- ===== src/Notifications.antt =====
-- internal/notifications, as far as it is not about rules.
pub mod Concurrency
