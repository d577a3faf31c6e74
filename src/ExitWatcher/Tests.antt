-- ===== src/ExitWatcher/Tests.antt =====
-- Rounds of the exit's traffic watcher, and an instance of its theorem.
use althea_rs.Prelude.{◌*◌, ◌-◌, ◌+◌, ◌^◌, ◌≡◌, refl, true, none, some, [], ◌∷◌, arith}
use althea_rs.Prelude.Int.{pos, negsuc, ◌-ℤ◌}
use althea_rs.Prelude.Maps.{get, insert}
use althea_rs.AltheaTypes.{Identity, identity_key}
use althea_rs.UsageTracker.{exit as exit_usage}
use althea_rs.TrafficWatcher.Keys.{ip_key}
use althea_rs.TrafficWatcher.Watch.{traffic_vec}
use althea_rs.ExitWatcher.{
  WgUsage, Usages, Inputs, refreshed, prepare_usage_history, helper_maps, destinations_of, moved,
  total_moved, counters_logging, setup_debts, bill_one, bill_input, bill_output, watch,
}
use althea_rs.ExitWatcher.Rounds.{bill_output-billed}

abbrev us : Identity
us = record { mesh_ip = 1; eth_address = 5; wg_public_key = 7; nickname = none }

abbrev alice : Identity
alice = record { mesh_ip = 4; eth_address = 2; wg_public_key = 8; nickname = none }

-- An exit price of 3, and a price of 10 to the client.
abbrev round : Usages → Inputs
round counters = record {
  clients = alice ∷ [];
  routes = record { prefix = some (4, 128); installed = true; price = 10 } ∷ [];
  max_fee = 50;
  local_fee = 2;
  exit_price = 3;
  our_id = some us;
  counters = some counters;
}

abbrev before : Usages
before = (8, record { upload = 100; download = 50 }) ∷ []

-- 20 more bytes up and 10 more down.
normal_round : watch (round ((8, record { upload = 120; download = 60 }) ∷ [])) before ≡ (
  some (
    record { kind = exit_usage; up = 20; down = 10; price = 3 },
    record { from = alice; amount = negsuc 289 } ∷ [],
  ),
  (8, record { upload = 120; download = 60 }) ∷ [],
)
unfolding watch helper_maps destinations_of prepare_usage_history refreshed counters_logging
    total_moved moved setup_debts bill_input bill_output bill_one traffic_vec get insert ◌-ℤ◌
normal_round = refl

bill_output-billed_example :
    let bytes : WgUsage = record { upload = 20; download = 60 } in
    let history : WgUsage = record { upload = 100; download = 50 } in
    let counters : Usages = (8, bytes) ∷ [] in
    let after = bill_output ((8, alice) ∷ []) ((8, 10) ∷ []) 3 counters (
      bill_input
        ((8, alice) ∷ [])
        ((8, 10) ∷ [])
        3
        counters
        ((alice, pos 0) ∷ [], prepare_usage_history counters before)) in
    (get alice after.0 ≡ some (pos 0 -ℤ pos (3 * 60) -ℤ pos (13 * (2 ^ 64 + 20 - 100))))
    × (get 8 after.1 ≡ some bytes)
unfolding get
bill_output-billed_example =
    bill_output-billed ((8, alice) ∷ []) ((8, 10) ∷ []) 3 8 (record { upload = 20; download = 60 })
      (record { upload = 100; download = 50 }) ((alice, pos 0) ∷ []) before alice 10 (pos 0) refl
      refl refl refl (omega arith) (omega arith) (omega arith) (omega arith)
