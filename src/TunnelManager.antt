-- ===== src/TunnelManager.antt =====
-- rita/src/rita_common/tunnel_manager/mod.rs and id_callback.rs: the tunnels to the neighbours.
pub mod Tunnel
pub mod Manager
pub mod Expiry
pub mod Contact
pub mod Payment
pub mod Ports
pub mod Opening
pub mod Collection
pub mod Limits
pub mod Effects
pub mod Billing
pub mod Flight
pub mod Messages
pub mod Changes
pub mod Lending
pub mod Closing
pub mod Answers
mod Tests
