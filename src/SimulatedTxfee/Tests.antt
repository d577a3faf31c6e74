-- ===== src/SimulatedTxfee/Tests.antt =====
-- Runs of the fee manager, and an instance of its theorem.
use althea_rs.Prelude.{ℕ, ◌≡◌, refl, true, false, Option, none, some, List, [], ◌∷◌}
use althea_rs.Prelude.Int.{pos, negsuc}
use althea_rs.Num256.Sample.{sample}
use althea_rs.AltheaTypes.{Identity}
use althea_rs.Settings.{PaymentSettings}
use althea_rs.PaymentController.{Clarity}
use althea_rs.SimulatedTxfee.{SimulatedTxFeeManager, add_tx_to_total}

abbrev us : Identity
us = record { mesh_ip = 1; eth_address = 5; wg_public_key = 7; nickname = none }

abbrev settings : PaymentSettings
settings = record {
  close_threshold = negsuc 9;
  pay_threshold = pos 5;
  fudge_factor = 0;
  debt_limit_enabled = true;
  apply_incoming_credit_immediately = false;
  eth_address = some 5;
  balance = 1000;
  nonce = 3;
  gas_price = 1;
  eth_private_key = some 77;
  net_version = some 100;
  simulated_transaction_fee = 10;
}

abbrev clarity : Clarity
clarity = record { sign_to_bytes = λ tx key net. some (tx.nonce ∷ (tx.value ∷ (key ∷ []))) }

abbrev maintainer : Identity
maintainer = record { mesh_ip = 1; eth_address = 6; wg_public_key = 8; nickname = none }

abbrev manager : SimulatedTxFeeManager
manager = record { amount_owed = 40 }

-- A payment of 70 adds a tenth of it.
abbrev later : SimulatedTxFeeManager
later = record { amount_owed = 47 }

abbrev full_node : List ℕ → Option ℕ
full_node bytes = some 99

adds_a_tenth : add_tx_to_total sample settings 70 manager ≡ some later
unfolding add_tx_to_total sample
adds_a_tenth = refl
