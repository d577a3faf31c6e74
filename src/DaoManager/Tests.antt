-- ===== src/DaoManager/Tests.antt =====
-- A tick of the DAO manager with two addresses, and an instance of its theorem.
use althea_rs.Prelude.{ℕ, ◌≡◌, refl, true, false, none, some, [], ◌∷◌, arith}
use althea_rs.Prelude.Int.{pos, negsuc}
use althea_rs.Prelude.Outcome.{ok}
use althea_rs.Num256.Sample.{sample, FitsInt256-small}
use althea_rs.AltheaTypes.{Identity}
use althea_rs.Settings.{PaymentSettings}
use althea_rs.PaymentController.{Clarity}
use althea_rs.DaoManager.{
  Order, handle_tick, settle, dao_identity, update_payments, add_tx_to_total, successful,
}
use althea_rs.DaoManager.Payments.{transactions, handle_tick-pays}

abbrev us : Identity
us = record { mesh_ip = 1; eth_address = 5; wg_public_key = 7; nickname = none }

abbrev settings : PaymentSettings
settings = record {
  close_threshold = negsuc 399;
  pay_threshold = pos 100;
  fudge_factor = 0;
  debt_limit_enabled = true;
  apply_incoming_credit_immediately = false;
  eth_address = some 5;
  balance = 1000;
  nonce = 3;
  gas_price = 1;
  eth_private_key = some 77;
  net_version = some 100;
  simulated_transaction_fee = 10;
}

abbrev clarity : Clarity
clarity = record { sign_to_bytes = λ tx key net. some (tx.nonce ∷ tx.to ∷ tx.value ∷ key ∷ []) }

abbrev order : ℕ → Order
order address = record {
  transaction = record { nonce = 3; gas_price = 1; to = address; value = 100 };
  bytes = 3 ∷ address ∷ 100 ∷ 77 ∷ [];
  amount = 100;
}

-- A fee of 20 for 6.5 seconds: both addresses are paid.
due :
    handle_tick sample clarity settings
      (some us)
      (8 ∷ 9 ∷ [])
      20
      6_500_000_000
      (record { last_payment_time = 0 })
    ≡ (ok tt, order 8 ∷ order 9 ∷ [])
unfolding handle_tick sample
due = refl

-- The same for 5.9 seconds, which count as 5.
not_due :
    handle_tick sample clarity settings
      (some us)
      (8 ∷ 9 ∷ [])
      20
      5_900_000_000
      (record { last_payment_time = 0 })
    ≡ (ok tt, [])
unfolding handle_tick sample
not_due = refl

paid : settle 12 us (order 8) (some 4242) ≡ (
    update_payments (record { to = dao_identity 12 8; from = us; amount = 100; txid = some 4242 })
    ∷ add_tx_to_total 100
    ∷ successful
    ∷ [])
unfolding settle
paid = refl

handle_tick-pays_example :
    let (r, orders) =
      handle_tick sample clarity settings
        (some us)
        (8 ∷ 9 ∷ [])
        20
        6_500_000_000
        (record { last_payment_time = 0 }) in
    (r ≡ ok tt)
    × (transactions orders
        ≡ record { nonce = 3; gas_price = 1; to = 8; value = 100 }
          ∷ record { nonce = 3; gas_price = 1; to = 9; value = 100 }
          ∷ [])
handle_tick-pays_example =
    handle_tick-pays sample clarity settings 77 us (8 ∷ 9 ∷ []) 20 6_500_000_000
      (record { last_payment_time = 0 }) 100 refl refl
      (λ tx. (tx.nonce ∷ tx.to ∷ tx.value ∷ 77 ∷ [], refl))
      (FitsInt256-small (pos 20) (omega arith) (omega arith))
      (FitsInt256-small (pos 120) (omega arith) (omega arith))
