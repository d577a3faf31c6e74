-- ===== src/PaymentValidator.antt =====
-- rita/src/rita_common/payment_validator/mod.rs: payments that wait for the blockchain. `Validator`
-- has the actor and its messages, `Judging` what a full node's answer leads to; the others prove
-- their laws.
pub mod Validator
pub mod Judging
pub mod Spent
pub mod Replay
pub mod Arrival
pub mod Timeout
mod Tests
