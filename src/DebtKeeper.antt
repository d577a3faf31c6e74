-- ===== src/DebtKeeper.antt =====
-- rita/src/rita_common/debt_keeper/mod.rs: who owes whom. `Peer` has the state of one peer and the
-- operations on it, `Keeper` the actor with its message handlers; the others prove their laws.
pub mod Peer
pub mod Update
pub mod Payments
pub mod Flight
pub mod Decision
pub mod Keeper
pub mod Reload
pub mod Rounds
mod Tests
pub mod Peers
