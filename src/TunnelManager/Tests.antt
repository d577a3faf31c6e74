-- ===== src/TunnelManager/Tests.antt =====
-- Runs of the tunnel manager, and instances of its theorems.
use mathlib.Core.List.{◌++◌}
use althea_rs.Prelude.{map, ◌+◌, ◌≤◌, ◌≡◌, refl, true, false, none, some, [], ◌∷◌, ◌==◌, not, count}
use althea_rs.Prelude.Int.{pos, negsuc}
use althea_rs.Prelude.Maps.{get, insert}
use althea_rs.Prelude.Outcome.{ok}
use althea_rs.AltheaTypes.{Identity, LocalIdentity, identity_key}
use althea_rs.Settings.{PaymentSettings}
use althea_rs.DebtKeeper.Peer.{open_tunnel as keep_tunnel}
use althea_rs.DebtKeeper.Keeper.{DebtData, tunnel_change}
use althea_rs.DebtKeeper.Rounds.{answer, changes_due}
use althea_rs.TunnelManager.Tunnel.{
  Tunnel, new_tunnel, have_tunnel_by_ip, have_tunnel_by_ifidx, get_tunnel_by_ifidx, overdue,
  registered, paid,
}
use althea_rs.TunnelManager.Manager.{
  Tunnels, TunnelManager, System, Peer, hello, monitor, port_callback, del_interface, tunnels_of,
  manager_new, try_port, get_port, neighbor_inquiry, create_new_tunnel, open_tunnel, chosen_port,
  identity_callback,
}
use althea_rs.TunnelManager.Expiry.{
  is_good, close, close_all, all_tunnels, Order, Reordered, same, swapped, trigger_gc,
}
use althea_rs.TunnelManager.Payment.{
  Shaper, set_classless_limit, shape_list, shape_all, tunnel_bw_limit_update, change_tunnel,
  change_tunnels, tunnel_state_change, tunnel_state_changes,
}
use althea_rs.TunnelManager.Ports.{lent_in}
use althea_rs.TunnelManager.Flight.{in_flight}
use althea_rs.TunnelManager.Contact.{neighbor_inquiry_hostname}
use althea_rs.TunnelManager.Messages.{world, Reach, started, next, inquired, answered, collected}
use althea_rs.TunnelManager.Lending.{Reach-places}
use althea_rs.TunnelManager.Collection.{retain, trigger_gc_lem}
use althea_rs.TunnelManager.Closing.{follow, close-follow}
use althea_rs.TunnelManager.Answers.{reaches, open_tunnel-reaches}
use althea_rs.TunnelManager.Limits.{limited_to, tunnel_bw_limit_update-limited_to}
use althea_rs.TunnelManager.Billing.{billed_as, tunnel_state_changes-due}

abbrev alice : Identity
alice = record { mesh_ip = 4; eth_address = 2; wg_public_key = 8; nickname = none }

abbrev alice_here : LocalIdentity
alice_here = record { wg_port = 60000; have_tunnel = some true; global = alice }

-- Nothing else uses a port, and every call succeeds.
abbrev idle : System
idle = record {
  used_ports = λ level. some [];
  gen_range = λ level n. 0;
  setup_wg_if = some "wg0";
  opened = ok tt;
}

abbrev neighbor : Peer
neighbor = record { ifidx = 3; ip = 7 }

abbrev tunnel : Tunnel
tunnel = record {
  ip = 7;
  iface_name = "wg0";
  listen_ifidx = 3;
  listen_port = 65533;
  neigh_id = alice_here;
  last_contact = 100;
  speed_limit = none;
  light_client_details = none;
  payment_state = overdue;
  registration_state = registered;
}

abbrev elsewhere : Tunnel
elsewhere = record tunnel { ip = 9; iface_name = "wg1"; listen_port = 65534; last_contact = 900 }

abbrev manager : TunnelManager
manager = record { free_ports = 65532 ∷ []; tunnels = (alice, tunnel ∷ elsewhere ∷ []) ∷ [] }

-- A hello is sent and answered, and the tunnel is collected.
abbrev opened : TunnelManager
opened =
    (identity_callback idle 100 alice_here neighbor (some 65532) none
      (neighbor_inquiry true idle (manager_new 65532)).2).2

abbrev as_filled : Order
as_filled = record { order = λ m. m; reorders = λ m. same }

-- The first two entries exchanged.
abbrev swap_first : Tunnels → Tunnels
swap_first [] = []
swap_first (e ∷ []) = e ∷ []
swap_first (e ∷ (f ∷ m)) = f ∷ (e ∷ m)

swap_first-Reordered : (m : Tunnels) → Reordered m (swap_first m)
swap_first-Reordered [] = same
swap_first-Reordered (e ∷ []) = same
swap_first-Reordered ((key, ts) ∷ ((other, us) ∷ m)) = swapped key other ts us

abbrev second_first : Order
second_first = record { order = swap_first; reorders = swap_first-Reordered }

Reach-places_example :
    count 65532 (trigger_gc as_filled second_first 700 500 opened).1.free_ports
      + lent_in 65532 (trigger_gc as_filled second_first 700 500 opened).1.tunnels
      + in_flight 65532 (trigger_gc as_filled second_first 700 500 opened).0
    ≤ 1
unfolding neighbor_inquiry get_port try_port manager_new identity_callback chosen_port open_tunnel
    create_new_tunnel new_tunnel have_tunnel_by_ifidx have_tunnel_by_ip get insert trigger_gc
Reach-places_example =
    let asked : Reach 65532
        (world (neighbor_inquiry true idle (manager_new 65532)).2 (hello 65532 ∷ [])) =
      next started (inquired true idle (manager_new 65532) []) in
    let met : Reach 65532
        (world opened (monitor (new_tunnel 100 7 "wg0" 65532 3 alice_here none) 0 ∷ [])) =
      next asked (
        answered idle 100 alice_here neighbor 65532 none
          (neighbor_inquiry true idle (manager_new 65532)).2 [] []) in
    Reach-places 65532 65532 (
      next met (
        collected as_filled second_first 700 500 opened
          (monitor (new_tunnel 100 7 "wg0" 65532 3 alice_here none) 0 ∷ [])))

-- Two manual peers share the interface index 0: the answer to the second names the tunnel to the first.
other_address :
    (open_tunnel idle 950 alice_here (record { ifidx = 3; ip = 9 }) 65531 none manager).0
    ≡ ok (tunnel, true)
unfolding open_tunnel have_tunnel_by_ip have_tunnel_by_ifidx get_tunnel_by_ifidx get insert
other_address = refl

-- A name with two addresses, and a call of `contact_neighbor` that fails.
shared_port :
    (neighbor_inquiry_hostname true (some (true ∷ true ∷ [])) idle manager).1
    ≡ hello 65532 ∷ hello 65532 ∷ []
unfolding neighbor_inquiry_hostname get_port try_port
shared_port = refl

lost_port :
    (neighbor_inquiry false idle manager).1
      ++ map port_callback (neighbor_inquiry false idle manager).2.free_ports
    ≡ []
unfolding neighbor_inquiry get_port try_port
lost_port = refl

trigger_gc_lem_example : trigger_gc as_filled second_first 1000 500 manager ≡ (
  close_all (all_tunnels (swap_first (retain (λ t. not (is_good 1000 500 t)) manager.tunnels))),
  record manager { tunnels = retain (is_good 1000 500) manager.tunnels },
)
unfolding get
trigger_gc_lem_example = trigger_gc_lem as_filled second_first 1000 500 manager (refl, tt)

close-follow_example :
    follow (λ n. n == 4) 11 (close tunnel) ≡ del_interface "wg0" ∷ port_callback 65533 ∷ []
close-follow_example = close-follow (λ n. n == 4) tunnel

abbrev shaper : Shaper
shaper = record { has_limit = λ iface. some false; sets = λ iface. true }

tunnel_bw_limit_update-limited_to_example :
    limited_to (set_classless_limit "wg0" 500 ∷ set_classless_limit "wg1" 500 ∷ []) ≤ 1001
unfolding tunnel_bw_limit_update shape_all shape_list
tunnel_bw_limit_update-limited_to_example =
    tunnel_bw_limit_update-limited_to shaper 1001 manager.tunnels
      (set_classless_limit "wg0" 500 ∷ set_classless_limit "wg1" 500 ∷ []) true refl

open_tunnel-reaches_example :
    (tunnel.listen_ifidx ≡ 3)
    × (reaches neighbor
          (tunnels_of alice (open_tunnel idle 950 alice_here neighbor 65531 none manager).2.tunnels)
        ≡ true)
unfolding open_tunnel have_tunnel_by_ip have_tunnel_by_ifidx get_tunnel_by_ifidx get insert
open_tunnel-reaches_example =
    open_tunnel-reaches idle 950 alice_here neighbor 65531 none manager
      (record tunnel { last_contact = 950 }) true refl

abbrev settings : PaymentSettings
settings = record {
  close_threshold = negsuc 9;
  pay_threshold = pos 5;
  fudge_factor = 0;
  debt_limit_enabled = true;
  apply_incoming_credit_immediately = false;
  eth_address = some 5;
  balance = 1000;
  nonce = 0;
  gas_price = 1;
  eth_private_key = some 77;
  net_version = some 100;
  simulated_transaction_fee = 10;
}

abbrev debts : DebtData
debts =
    (
      alice,
      record {
        total_payment_received = 0;
        total_payment_sent = 0;
        debt = pos 1;
        incoming_payments = 0;
        action = keep_tunnel;
        payment_in_flight = false;
        payment_in_flight_start = none;
        last_successful_payment = none;
      },
    )
    ∷ []

tunnel_state_changes-due_example :
    tunnels_of alice (
      (
        alice,
        record tunnel { payment_state = paid } ∷ record elsewhere { payment_state = paid } ∷ [],
      )
      ∷ [])
    ≡ billed_as settings alice (get alice debts) (tunnels_of alice manager.tunnels)
unfolding tunnel_state_changes tunnel_state_change change_tunnels change_tunnel
    tunnel_bw_limit_update shape_all shape_list changes_due tunnel_change answer get insert
tunnel_state_changes-due_example =
    tunnel_state_changes-due shaper 1001 settings alice debts manager.tunnels [] []
      ((
        alice,
        record tunnel { payment_state = paid } ∷ record elsewhere { payment_state = paid } ∷ [],
      )
        ∷ [])
      (refl, tt) refl
