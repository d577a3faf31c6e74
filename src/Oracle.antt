-- ===== src/Oracle.antt =====
-- rita/src/rita_common/oracle/mod.rs: what the full node and the settings server change in the
-- settings, and `DAOManager` of rita/src/rita_common/dao_manager/mod.rs.
pub mod Json
pub mod Chain
pub mod Gas
pub mod Prices
pub mod Paths
pub mod Merge
mod Tests
