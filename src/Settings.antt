-- ===== src/Settings.antt =====
-- settings/src/payment.rs: the payment settings that the modelled code reads. A call receives the
-- settings in force when it runs.
use althea_rs.Prelude.{ℕ, Bool, Option}
use althea_rs.Prelude.Int.{ℤ}

pub record PaymentSettings : Type 0 where
  pub close_threshold : ℤ
  pub pay_threshold : ℤ
  pub fudge_factor : ℕ  -- u8
  pub debt_limit_enabled : Bool
  pub apply_incoming_credit_immediately : Bool
  pub eth_address : Option ℕ
  pub balance : ℕ
  pub nonce : ℕ
  pub gas_price : ℕ
  pub eth_private_key : Option ℕ
  pub net_version : Option ℕ
  pub simulated_transaction_fee : ℕ  -- u8
