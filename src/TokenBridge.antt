-- ===== src/TokenBridge.antt =====
-- rita/src/rita_common/token_bridge/mod.rs: the bridge between the chains, its state and its futures.
pub mod Bridge
pub mod Futures
pub mod Handlers
pub mod Deposits
pub mod Withdraws
pub mod Mailbox
pub mod Wanted
pub mod Trace
mod Tests
