-- ===== src/TrafficWatcher/Tests.antt =====
-- A round of the traffic watcher, and an instance of its theorem.
use althea_rs.Prelude.{◌≡◌, refl, true, none, some, [], ◌∷◌}
use althea_rs.Prelude.Int.{pos, negsuc, ◌+ℤ◌, ◌-ℤ◌}
use althea_rs.Prelude.Maps.{get, insert}
use althea_rs.Num256.Sample.{sample}
use althea_rs.AltheaTypes.{Identity, identity_key}
use althea_rs.UsageTracker.{relay}
use althea_rs.DebtKeeper.Peer.{new_debt_data, traffic_update}
use althea_rs.DebtKeeper.Keeper.{DebtKeeper, traffic_updates, on_peer, debt_data_or_new}
use althea_rs.DebtKeeper.Peers.{debt_of}
use althea_rs.TrafficWatcher.Keys.{ip_key, name_key, counter_key}
use althea_rs.TrafficWatcher.Watch.{
  Inputs, helper_maps, destinations_of, get_babel_info, get_counters, add_billable, add_forwarded,
  update_usage, setup_debts, scale, bill_one, bill, traffic_vec, final_debts, watch,
}
use althea_rs.TrafficWatcher.Debts.{due, watch-debt_of}

abbrev bob : Identity
bob = record { mesh_ip = 3; eth_address = 1; wg_public_key = 9; nickname = none }

-- The destination 8 costs 10 beyond our fee of 2; bob sends 100 bytes to it and gets 40 for it, and
-- 5 bytes to it come from an interface that is unknown.
abbrev inputs : Inputs
inputs = record {
  neighbors =
      record {
        identity = record { wg_port = 60000; have_tunnel = some true; global = bob };
        iface_name = "wg0";
        tunnel_ip = 7;
        speed_limit = none;
      }
      ∷ [];
  routes = record { prefix = some (8, 128); installed = true; price = 10 } ∷ [];
  max_fee = 50;
  local_fee = 2;
  mesh_ip = some 1;
  input = some [];
  forward_input = some (((8, "wg0"), 100) ∷ ((8, "wg1"), 5) ∷ []);
  output = some [];
  forward_output = some (((8, "wg0"), 40) ∷ []);
}

abbrev keeper : DebtKeeper
keeper = record { last_save = none; debt_data = [] }

watch-debt_of_example :
    debt_of bob (traffic_updates sample (record { from = bob; amount = negsuc 799 } ∷ []) keeper).1
    ≡ debt_of bob keeper
      +ℤ due inputs
          ((8, 12) ∷ (1, 0) ∷ [])
          (((8, "wg0"), 100) ∷ ((8, "wg1"), 5) ∷ [])
          (((8, "wg0"), 40) ∷ [])
          bob
unfolding watch get_babel_info destinations_of get_counters add_billable add_forwarded update_usage
    final_debts helper_maps setup_debts bill bill_one scale traffic_vec traffic_updates on_peer
    debt_data_or_new new_debt_data traffic_update sample get insert ◌+ℤ◌ ◌-ℤ◌
watch-debt_of_example =
    watch-debt_of inputs ((8, 12) ∷ (1, 0) ∷ []) (((8, "wg0"), 100) ∷ ((8, "wg1"), 5) ∷ [])
      (((8, "wg0"), 40) ∷ []) bob sample keeper
      (record { kind = relay; up = 40; down = 105; price = 2 })
      (record { from = bob; amount = negsuc 799 } ∷ []) (pos 0) refl refl refl refl refl refl
