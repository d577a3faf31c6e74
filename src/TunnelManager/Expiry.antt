-- ===== src/TunnelManager/Expiry.antt =====
-- rita/src/rita_common/tunnel_manager/mod.rs: how tunnels without contact are closed, and the attempts
-- to monitor and to unmonitor an interface.
use althea_rs.Prelude.{
  ℕ, ◌+◌, ◌-◌, Bool, true, false, none, some, List, [], ◌∷◌, ◌++◌, ltb, if◌then◌else◌,
}
use althea_rs.Prelude.Maps.{insert}
use althea_rs.Prelude.Outcome.{Outcome, ok, panic}
use althea_rs.AltheaTypes.{Identity, identity_key}
use althea_rs.Time.{Instant, Duration}
use althea_rs.TunnelManager.Tunnel.{Tunnel}
use althea_rs.TunnelManager.Manager.{
  Tunnels, TunnelManager, Error, Call, del_interface, monitor, unmonitor, port_callback, tunnels_of,
}

-- The push into a map of lists, as `TriggerGC` builds its two maps.
unfoldable pub push_tunnel : Identity → Tunnel → Tunnels → Tunnels
push_tunnel identity tunnel m = insert identity (tunnels_of identity m ++ (tunnel ∷ [])) m

-- `last_contact.elapsed() < limit`
abbrev pub is_good : Instant → Duration → Tunnel → Bool
is_good now limit tunnel = ltb (now - tunnel.last_contact) limit

-- The loop of `TriggerGC` over the tunnels to one neighbour, on the maps `good` and `timed_out`.
unfoldable pub split_list :
    Instant → Duration → Identity → List Tunnel → Tunnels × Tunnels → Tunnels × Tunnels
unfolding push_tunnel
split_list now limit identity [] maps = maps
split_list now limit identity (tunnel ∷ tunnels) (good, timed_out) =
    split_list now limit identity tunnels (
      if is_good now limit tunnel
      then (push_tunnel identity tunnel good, timed_out)
      else (good, push_tunnel identity tunnel timed_out))

unfoldable pub split : Instant → Duration → Tunnels → Tunnels × Tunnels → Tunnels × Tunnels
unfolding split_list
split now limit [] maps = maps
split now limit ((identity, tunnels) ∷ m) maps =
    split now limit m (split_list now limit identity tunnels maps)

-- How a timed out tunnel is closed: at once, with its port returned, if it is of a light client.
unfoldable pub close : Tunnel → List Call
close tunnel = elim tunnel.light_client_details [
  | none ↦ unmonitor tunnel 0 ∷ []
  | some _ ↦ del_interface tunnel.iface_name ∷ (port_callback tunnel.listen_port ∷ [])
]

unfoldable pub close_all : List Tunnel → List Call
unfolding close
close_all [] = []
close_all (tunnel ∷ tunnels) = close tunnel ++ close_all tunnels

abbrev pub all_tunnels : Tunnels → List Tunnel
all_tunnels [] = []
all_tunnels ((identity, tunnels) ∷ m) = tunnels ++ all_tunnels m

-- The same entries in another order.
pub data Reordered : Tunnels → Tunnels → Type 0 where
  same : {m : Tunnels} → Reordered m m
  under :
      (key : Identity) (ts : List Tunnel) {m n : Tunnels}
      → Reordered m n
      → Reordered ((key, ts) ∷ m) ((key, ts) ∷ n)
  swapped :
      (key other : Identity) (ts us : List Tunnel) {m : Tunnels}
      → Reordered ((key, ts) ∷ ((other, us) ∷ m)) ((other, us) ∷ ((key, ts) ∷ m))
  chained : {m n k : Tunnels} → Reordered m n → Reordered n k → Reordered m k

-- The order in which a new map is iterated over, by the order in which it was filled.
pub record Order : Type 0 where
  pub order : Tunnels → Tunnels
  pub reorders : (m : Tunnels) → Reordered m (order m)

-- `Handler<TriggerGC>`, with the orders of the two maps that it makes.
unfoldable pub trigger_gc :
    Order → Order → Instant → Duration → TunnelManager → List Call × TunnelManager
unfolding split close_all
trigger_gc good_order late_order now limit m =
    let (good, timed_out) = split now limit m.tunnels ([], []) in
    (
      close_all (all_tunnels (late_order.order timed_out)),
      record m { tunnels = good_order.order good },
    )

-- The end of `unmonitor` after an attempt, with what `Handler<TunnelUnMonitorFailure>` does after a
-- failure: the interface is deleted and the port returned, or there is another attempt, up to ten.
unfoldable pub unmonitored : Bool → Tunnel → ℕ → List Call
unmonitored true tunnel retry_count =
    del_interface tunnel.iface_name ∷ (port_callback tunnel.listen_port ∷ [])
unmonitored false tunnel retry_count =
    if ltb retry_count 10 then unmonitor tunnel (retry_count + 1) ∷ [] else []

-- The same for `monitor` and `Handler<TunnelMonitorFailure>`, which panics at the end.
unfoldable pub monitored : Bool → Tunnel → ℕ → Outcome Error (List Call)
monitored true tunnel retry_count = ok []
monitored false tunnel retry_count =
    if ltb retry_count 10 then ok (monitor tunnel (retry_count + 1) ∷ []) else panic
