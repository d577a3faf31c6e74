-- ===== src/DebtKeeper/Tests.antt =====
-- Runs of the debt keeper, after the unit tests of rita/src/rita_common/debt_keeper/mod.rs, and
-- instances of its theorems.
use althea_rs.Prelude.{◌≡◌, refl, true, false, none, some, List, [], ◌∷◌, arith}
use althea_rs.Prelude.Int.{pos, negsuc, ◌≤ℤ◌, ◌+ℤ◌, ◌-ℤ◌, abs}
use althea_rs.Prelude.Maps.{get, insert}
use althea_rs.Prelude.Outcome.{ok}
use althea_rs.Num256.Sample.{sample, FitsInt256-small, FitsUint256-small}
use althea_rs.AltheaTypes.{Identity, identity_key}
use althea_rs.Settings.{PaymentSettings}
use althea_rs.DebtKeeper.Peer.{
  suspend_tunnel, open_tunnel, make_payment, NodeDebtData, new_debt_data, payment_received,
  apply_incoming, debt_limit, traffic_update,
}
use althea_rs.DebtKeeper.Update.{limit_debt, suspend, overpay, start_payment, act, send_update}
use althea_rs.DebtKeeper.Payments.{Received, payment_received-Received}
use althea_rs.DebtKeeper.Flight.{
  Event, received, traffic, replaced, updated, IsTimed, InFlight, run, run-InFlight,
}
use althea_rs.DebtKeeper.Decision.{
  IsValid, IsInRange, Decides, send_update-Decides, send_update-IsBounded,
}
use althea_rs.DebtKeeper.Keeper.{
  DebtKeeper, Traffic, load, handle_send_update, on_peer, traffic_updates, debt_data_or_new,
}
use althea_rs.DebtKeeper.Reload.{saved, reloaded, get-load}
use althea_rs.DebtKeeper.Rounds.{payments_due, changes_due, handle_send_update-due}

abbrev bob : Identity
bob = record { mesh_ip = 3; eth_address = 1; wg_public_key = 9; nickname = none }

abbrev alice : Identity
alice = record { mesh_ip = 4; eth_address = 2; wg_public_key = 8; nickname = none }

abbrev us : Identity
us = record { mesh_ip = 1; eth_address = 5; wg_public_key = 7; nickname = none }

-- The thresholds of the unit tests, with the limit.
abbrev limited_settings : PaymentSettings
limited_settings = record {
  close_threshold = negsuc 9;
  pay_threshold = pos 5;
  fudge_factor = 0;
  debt_limit_enabled = true;
  apply_incoming_credit_immediately = false;
  eth_address = some 5;
  balance = 1000;
  nonce = 0;
  gas_price = 1;
  eth_private_key = some 77;
  net_version = some 100;
  simulated_transaction_fee = 10;
}

abbrev owing : NodeDebtData
owing = record {
  total_payment_received = 0;
  total_payment_sent = 0;
  debt = pos 100;
  incoming_payments = 0;
  action = open_tunnel;
  payment_in_flight = false;
  payment_in_flight_start = none;
  last_successful_payment = none;
}

abbrev owed : NodeDebtData
owed = record owing { debt = negsuc 99; incoming_payments = 30 }

-- `test_single_pay_limited`
single_pay_limited : (send_update sample limited_settings 0 bob owing).0 ≡ ok (make_payment bob 11)
unfolding send_update limit_debt debt_limit act start_payment overpay sample ◌+ℤ◌ ◌-ℤ◌
single_pay_limited = refl

-- `test_single_suspend`
single_suspend :
    (send_update sample limited_settings 0 bob (record owing { debt = negsuc 99 })).0
    ≡ ok suspend_tunnel
unfolding send_update limit_debt debt_limit act suspend sample ◌+ℤ◌ ◌-ℤ◌
single_suspend = refl

-- A payment of 50 onto a credit of 30 against a debt of 100.
underpaid :
    payment_received sample 50 owed
    ≡ (ok tt, record owed { total_payment_received = 50; debt = negsuc 19; incoming_payments = 0 })
unfolding payment_received apply_incoming sample ◌+ℤ◌
underpaid = refl

payment_received-Received_example :
    ((payment_received sample 50 owed).0 ≡ ok tt)
    × Received 50 owed (payment_received sample 50 owed).1
payment_received-Received_example =
    payment_received-Received sample 50 owed (FitsInt256-small _ (omega arith) (omega arith))
      (FitsUint256-small _ (omega arith)) (FitsUint256-small _ (omega arith))
      (FitsInt256-small _ (omega arith) (omega arith))

abbrev flying : NodeDebtData
flying = record owing { payment_in_flight = true; payment_in_flight_start = some 1000 }

abbrev messages : List Event
messages = traffic (pos 500) ∷ updated 2000 ∷ received 3 ∷ replaced 2500 (pos 7) ∷ updated 3000 ∷ []

run-InFlight_example :
    ((run sample limited_settings bob messages flying).0 ≡ [])
    × InFlight 1000 (run sample limited_settings bob messages flying).1
run-InFlight_example =
    run-InFlight sample limited_settings bob 1000 messages flying (omega arith) (refl, refl)

new_debt_data-IsTimed : IsTimed new_debt_data
unfolding new_debt_data
new_debt_data-IsTimed = λ e. absurd (cc e)

settings-IsValid : IsValid limited_settings
settings-IsValid = omega arith

owing-IsInRange : IsInRange limited_settings owing
unfolding ◌+ℤ◌ ◌-ℤ◌
owing-IsInRange = record {
  lower = FitsInt256-small _ (omega arith) (omega arith);
  upper = FitsInt256-small _ (omega arith) (omega arith);
  debt = FitsInt256-small _ (omega arith) (omega arith);
  total = FitsUint256-small _ (omega arith);
  incoming = FitsUint256-small _ (omega arith);
  incoming_signed = FitsInt256-small _ (omega arith) (omega arith);
}

owed-IsInRange : IsInRange limited_settings owed
unfolding ◌+ℤ◌ ◌-ℤ◌
owed-IsInRange = record {
  lower = FitsInt256-small _ (omega arith) (omega arith);
  upper = FitsInt256-small _ (omega arith) (omega arith);
  debt = FitsInt256-small _ (omega arith) (omega arith);
  total = FitsUint256-small _ (omega arith);
  incoming = FitsUint256-small _ (omega arith);
  incoming_signed = FitsInt256-small _ (omega arith) (omega arith);
}

send_update-Decides_example :
    Decides sample limited_settings 0 bob owing (send_update sample limited_settings 0 bob owing).0
send_update-Decides_example =
    send_update-Decides sample limited_settings 0 bob owing settings-IsValid owing-IsInRange refl

send_update-IsBounded_example :
    let debt = (send_update sample limited_settings 0 bob owing).1.debt in
    (negsuc 9 -ℤ pos 1 ≤ℤ debt) × (debt ≤ℤ abs (negsuc 9) +ℤ pos 1)
send_update-IsBounded_example =
    send_update-IsBounded sample limited_settings 0 bob owing settings-IsValid owing-IsInRange refl

abbrev keeper : DebtKeeper
keeper = record { last_save = none; debt_data = (bob, owing) ∷ (alice, owed) ∷ [] }

get-load_example : get alice (load (some (saved keeper.debt_data))).debt_data ≡ reloaded owed
unfolding get
get-load_example = get-load keeper alice (refl, (refl, tt))

handle_send_update-due_example :
    let (r, sent, last) = handle_send_update sample limited_settings 9 (some us) true keeper in
    (r ≡ ok tt)
    × (sent.payments ≡ payments_due limited_settings us keeper.debt_data)
    × (sent.tunnels ≡ some (changes_due limited_settings keeper.debt_data))
unfolding get
handle_send_update-due_example =
    handle_send_update-due sample limited_settings 9 us true keeper settings-IsValid refl
      (owing-IsInRange, (owed-IsInRange, tt)) (refl, (refl, tt))

abbrev round : List Traffic
round =
    record { from = bob; amount = pos 5 }
    ∷ record { from = alice; amount = negsuc 8 }
    ∷ record { from = bob; amount = pos 7 }
    ∷ []

round_ok : (traffic_updates sample round keeper).0 ≡ ok tt
unfolding traffic_updates on_peer traffic_update debt_data_or_new get insert sample ◌+ℤ◌
round_ok = refl
