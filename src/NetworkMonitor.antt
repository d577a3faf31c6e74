-- ===== src/NetworkMonitor.antt =====
-- rita/src/rita_common/network_monitor/mod.rs: the latency and the packet loss of the neighbours, and
-- the detection of bloated connections.
pub mod Latency
pub mod Loss
pub mod Monitor
pub mod BitCount
pub mod Windows
pub mod Reports
mod Tests
