-- ===== src/BabelMonitor.antt =====
-- babel_monitor/src/lib.rs: what the router reads of the management socket of babeld.
pub mod Records
pub mod Text
pub mod Parsing
pub mod Routes
pub mod Searches
pub mod Socket
pub mod Lines
pub mod Chunks
mod Tests
