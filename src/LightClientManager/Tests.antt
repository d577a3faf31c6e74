-- ===== src/LightClientManager/Tests.antt =====
-- Runs of the light client manager, and instances of its theorems.
use althea_rs.Prelude.{arith, ℕ, ◌≡◌, refl, false, none, some, List, [], ◌∷◌}
use althea_rs.Prelude.Int.{pos, negsuc, ◌-ℤ◌, ◌+ℤ◌}
use althea_rs.Prelude.Maps.{get, insert}
use althea_rs.Prelude.Outcome.{ok}
use althea_rs.AltheaTypes.{LocalIdentity, local_identity_key}
use althea_rs.Num256.Sample.{sample}
use althea_rs.DebtKeeper.Peer.{new_debt_data, traffic_update}
use althea_rs.DebtKeeper.Keeper.{DebtKeeper, Traffic, debt_data_or_new, on_peer, traffic_updates}
use althea_rs.DebtKeeper.Peers.{debt_of}
use althea_rs.TrafficWatcher.Watch.{traffic_vec}
use althea_rs.ExitWatcher.{refreshed, prepare_usage_history, moved}
use althea_rs.IpIncrement.{Octets, incrementv4, increment_loop, down}
use althea_rs.LightClientManager.{
  LightClientManager, get_address, return_addresses, addresses_to_remove, remove_all, first_unused,
}
use althea_rs.LightClientManager.Addresses.{Answers, get_address-Answers}
use althea_rs.LightClientManager.Watching.{
  Watched, subtract_or_insert_and_subtract, charge, bill_tunnels, watch,
}
use althea_rs.LightClientManager.Moved.{watch-debt_of_client}
use althea_rs.LightClientManager.Garbage.{from_first_used, return_addresses-from_first_used}

abbrev phone : LocalIdentity
phone = record {
  wg_port = 60000;
  have_tunnel = some false;
  global = record { mesh_ip = 3; eth_address = 1; wg_public_key = 9; nickname = none };
}

abbrev tablet : LocalIdentity
tablet = record {
  wg_port = 60000;
  have_tunnel = some false;
  global = record { mesh_ip = 4; eth_address = 2; wg_public_key = 8; nickname = none };
}

abbrev client_ip : ℕ → Octets
client_ip n = 192 ∷ (168 ∷ (20 ∷ (n ∷ [])))

-- The phone has the first address.
abbrev manager : LightClientManager
manager = record {
  start_address = client_ip 1;
  prefix = 24;
  assigned_addresses = (phone, client_ip 1) ∷ [];
  last_seen_bytes = [];
}

next_client : (get_address tablet manager).0 ≡ some (ok (client_ip 2))
unfolding get_address first_unused get incrementv4 increment_loop down
next_client = refl

get_address-Answers_example :
    Answers tablet manager (get_address tablet manager).0 (get_address tablet manager).1
get_address-Answers_example = get_address-Answers tablet manager refl refl (refl, tt)

-- The tablet has no tunnel, but it comes after the phone, which has one.
return_addresses-from_first_used_example :
    return_addresses (some (client_ip 1) ∷ []) ((phone, client_ip 1) ∷ ((tablet, client_ip 2) ∷ []))
    ≡ (phone, client_ip 1) ∷ ((tablet, client_ip 2) ∷ [])
unfolding from_first_used
return_addresses-from_first_used_example =
    return_addresses-from_first_used (some (client_ip 1) ∷ [])
      ((phone, client_ip 1) ∷ ((tablet, client_ip 2) ∷ []))

-- The phone is seen again with 20 more bytes up and 10 more down.
abbrev seen_before : LightClientManager
seen_before = record manager { last_seen_bytes = (9, record { upload = 100; download = 50 }) ∷ [] }

abbrev seen_now : LightClientManager
seen_now = record manager { last_seen_bytes = (9, record { upload = 120; download = 60 }) ∷ [] }

abbrev phone_tunnel : Watched
phone_tunnel = record {
  light_client_details = some (client_ip 1);
  global = phone.global;
  counter = some ((9, record { upload = 120; download = 60 }) ∷ []);
}

abbrev phone_traffic : List Traffic
phone_traffic = record { from = phone.global; amount = negsuc 1109 } ∷ []

phone_watched : watch 2 35 (phone_tunnel ∷ []) seen_before ≡ some (phone_traffic, seen_now)
unfolding watch bill_tunnels charge subtract_or_insert_and_subtract prepare_usage_history refreshed
    moved get insert traffic_vec return_addresses addresses_to_remove remove_all ◌-ℤ◌
phone_watched = refl

abbrev no_debts : DebtKeeper
no_debts = record { last_save = none; debt_data = [] }

watch-debt_of_client_example :
    (traffic : List Traffic) × (last : LightClientManager) × (watch 2 35
        (phone_tunnel ∷ [])
        seen_before
      ≡ some (traffic, last))
    × (debt_of phone.global (traffic_updates sample traffic no_debts).1
        ≡ debt_of phone.global no_debts -ℤ pos 1110)
unfolding watch bill_tunnels charge subtract_or_insert_and_subtract prepare_usage_history refreshed
    moved get insert traffic_vec return_addresses addresses_to_remove remove_all ◌-ℤ◌
    traffic_updates on_peer debt_data_or_new traffic_update new_debt_data sample ◌+ℤ◌
watch-debt_of_client_example =
    watch-debt_of_client sample phone.global 2 35 (phone_tunnel ∷ []) seen_before no_debts
      (omega arith) ((omega arith, omega arith, omega arith, omega arith), tt) refl
