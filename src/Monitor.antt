-- ===== src/Monitor.antt =====
-- internal/monitor: when a session's screen is classified (efficiency.go and the `watch` of
-- service.go), and the counters of metrics.go.
pub mod Screen
pub mod Schedule
