-- ===== src/Oracle/Tests.antt =====
-- Runs of the oracle, and instances of its theorems.
use Prim.Native.String.{String}
use althea_rs.Prelude.{◌*◌, ◌<◌, ◌≡◌, refl, true, false, none, some, [], ◌∷◌, arith}
use althea_rs.Prelude.Int.{pos, negsuc, ◌+ℤ◌, ◌-ℤ◌}
use althea_rs.Prelude.Outcome.{ok}
use althea_rs.Num256.Sample.{sample, FitsInt256-small, FitsUint256-small}
use althea_rs.AltheaTypes.{Identity}
use althea_rs.DebtKeeper.Peer.{open_tunnel, make_payment, NodeDebtData, debt_limit}
use althea_rs.DebtKeeper.Update.{limit_debt, overpay, start_payment, act, send_update}
use althea_rs.DebtKeeper.Decision.{IsValid, IsInRange}
use althea_rs.Oracle.Json.{
  Value, scalar, array, object, cons, nil, Fields, end, field, put_field, entry, json_merge,
  contains_forbidden_key,
}
use althea_rs.Prelude.Sets.{contains}
use mathlib.Core.Path.{subst}
use mathlib.Core.Option.{some_inj}
use althea_rs.Oracle.Chain.{GasSettings, update_balance, update_gas_price}
use althea_rs.Oracle.Gas.{repriced, update_gas_price-pays_above}
use althea_rs.Oracle.Paths.{value_at}
use althea_rs.Oracle.Prices.{
  Serde, forbidden_merge_values, merge_settings_safely, handle_release_feed_update, pre_release,
  custom,
}
use althea_rs.Oracle.Merge.{Prints, merge_settings_safely-keeps}

-- `test_contains_key`
abbrev test_map : String → Fields
test_map name =
    field "localization"
      (object (
        field "wyre_enabled" (scalar "true")
          (field "wyre_account_id" (scalar "test_key") (field name (scalar "false") end))))
      end

contains_key_exact :
    contains_forbidden_key ("test_key" ∷ "other_test_key" ∷ []) (test_map "test_key") ≡ true
unfolding contains_forbidden_key
contains_key_exact = refl

contains_key_other :
    contains_forbidden_key ("test_key" ∷ "other_test_key" ∷ []) (test_map "test_key1") ≡ false
unfolding contains_forbidden_key
contains_key_other = refl

-- A forbidden name inside an array is not seen, and the array replaces what was there.
abbrev in_array : Fields
in_array =
    field "payment" (array (cons (object (field "eth_private_key" (scalar "evil") end)) nil)) end

array_passes : contains_forbidden_key forbidden_merge_values in_array ≡ false
unfolding contains_forbidden_key
array_passes = refl

abbrev document : Value
document = object (
    field "payment"
      (object (field "eth_private_key" (scalar "secret") (field "max_fee" (scalar "5") end)))
      (field "log" (scalar "on") end))

array_replaces :
    json_merge document (object in_array)
    ≡ object (
        field "payment"
          (array (cons (object (field "eth_private_key" (scalar "evil") end)) nil))
          (field "log" (scalar "on") end))
unfolding json_merge put_field entry
array_replaces = refl

abbrev plain : Serde Value
plain = record { to_value = λ v. v; from_value = λ v. some v }

abbrev new_fee : Value
new_fee = object (field "payment" (object (field "max_fee" (scalar "9") end)) end)

fee_merged :
    merge_settings_safely plain new_fee document
    ≡ object (
        field "payment"
          (object (field "eth_private_key" (scalar "secret") (field "max_fee" (scalar "9") end)))
          (field "log" (scalar "on") end))
unfolding merge_settings_safely json_merge put_field entry contains_forbidden_key
fee_merged = refl

plain-Prints : Prints plain ("payment" ∷ []) "eth_private_key"
plain-Prints s s' v read same =
    subst
      (λ w.
        value_at ("payment" ∷ []) "eth_private_key" w
        ≡ value_at ("payment" ∷ []) "eth_private_key" s)
      (some_inj.0 read) same

merge_settings_safely-keeps_example :
    value_at ("payment" ∷ []) "eth_private_key" (merge_settings_safely plain new_fee document)
    ≡ some (scalar "secret")
unfolding entry contains
merge_settings_safely-keeps_example =
    merge_settings_safely-keeps plain "eth_private_key" ("payment" ∷ []) new_fee document
      plain-Prints refl ((λ same. tt), tt)

feed_set : handle_release_feed_update (some "custom") (some pre_release) ≡ some (custom "custom")
unfolding handle_release_feed_update
feed_set = refl

abbrev settings : GasSettings
settings = record {
  payment = record {
    close_threshold = negsuc 9;
    pay_threshold = pos 5;
    fudge_factor = 0;
    debt_limit_enabled = true;
    apply_incoming_credit_immediately = false;
    eth_address = some 5;
    balance = 1000;
    nonce = 3;
    gas_price = 1;
    eth_private_key = some 77;
    net_version = some 100;
    simulated_transaction_fee = 10;
  };
  dynamic_fee_multiplier = 20;
  min_gas = 1;
  max_gas = 200;
}

-- A price of 100 is raised to 105; a payment is due above 44,100,000.
priced : update_gas_price sample 100 settings ≡ (ok tt, repriced settings 100)
unfolding update_gas_price sample
priced = refl

-- Without a window a zero balance is refused, and `Update` takes it all the same.
zero_refused : update_balance 0 none 1000 0 ≡ 1000
unfolding update_balance
zero_refused = refl

abbrev bob : Identity
bob = record { mesh_ip = 3; eth_address = 1; wg_public_key = 9; nickname = none }

abbrev due : NodeDebtData
due = record {
  total_payment_received = 0;
  total_payment_sent = 0;
  debt = pos 100_000_000;
  incoming_payments = 0;
  action = open_tunnel;
  payment_in_flight = false;
  payment_in_flight_start = none;
  last_successful_payment = none;
}

due-IsInRange : IsInRange (update_gas_price sample 100 settings).1.payment due
unfolding update_gas_price sample ◌+ℤ◌ ◌-ℤ◌
due-IsInRange = record {
  lower = FitsInt256-small (negsuc 176_400_000) (omega arith) (omega arith);
  upper = FitsInt256-small (pos 176_400_001) (omega arith) (omega arith);
  debt = FitsInt256-small (pos 100_000_000) (omega arith) (omega arith);
  total = FitsUint256-small 0 (omega arith);
  incoming = FitsUint256-small 0 (omega arith);
  incoming_signed = FitsInt256-small (pos 0) (omega arith) (omega arith);
}

due_is_paid :
    (send_update sample (update_gas_price sample 100 settings).1.payment 0 bob due).0
    ≡ ok (make_payment bob 100_000_000)
unfolding update_gas_price sample send_update limit_debt debt_limit act start_payment overpay ◌+ℤ◌
    ◌-ℤ◌
due_is_paid = refl

update_gas_price-pays_above_example :
    let prices = (update_gas_price sample 100 settings).1.payment in
    IsValid prices × (bob ≡ bob) × (21000 * prices.gas_price * 20 < 100_000_000)
update_gas_price-pays_above_example =
    update_gas_price-pays_above sample settings 100 0 bob due bob 100_000_000
      (record { multiplier = omega arith; least = omega arith; most = omega arith })
      (FitsUint256-small 105 (omega arith)) refl due-IsInRange due_is_paid
