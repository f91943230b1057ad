-- ===== src/Monitor.antt =====
-- services/src/cadns/monitor: the periodic jobs that keep served domains fresh, and their schedule.
-- Times are seconds.
pub mod Freshness
pub mod Signals
pub mod Garbage
pub mod Schedules
pub mod Jobs
mod Tests
