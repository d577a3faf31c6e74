-- ===== src/TrafficWatcher.antt =====
-- rita/src/rita_common/traffic_watcher/mod.rs: what the neighbours owe for the traffic of a round.
pub mod Keys
pub mod Watch
pub mod Bills
pub mod Debts
mod Tests
