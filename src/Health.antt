-- ===== src/Health.antt =====
-- pkg/cluster/healthcheck/healthcheck.go: the active health checks of a cluster.
pub mod Counters
pub mod Streaks
pub mod Sessions
pub mod Effects
mod Tests
