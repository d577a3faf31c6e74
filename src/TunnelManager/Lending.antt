-- ===== src/TunnelManager/Lending.antt =====
-- rita/src/rita_common/tunnel_manager/mod.rs and id_callback.rs: no port is in two places.
use althea_rs.Prelude.{
  ℕ, zero, suc, ◌+◌, ◌-◌, ◌≤◌, ◌<◌, ◌≡◌, refl, none, some, [], ◌∷◌, ◌++◌, arith, count,
  count-append,
}
use althea_rs.AltheaTypes.{identity_key}
use althea_rs.TunnelManager.Manager.{
  hello, unmonitor, port_callback, neighbor_inquiry, identity_callback, port_returned, range,
  manager_new,
}
use althea_rs.TunnelManager.Expiry.{trigger_gc, unmonitored}
use althea_rs.TunnelManager.Ports.{lent_in, owned}
use althea_rs.TunnelManager.Flight.{
  in_flight, in_flight-append, trigger_gc-owned, neighbor_inquiry-owned, identity_callback-owned,
  unmonitored-in_flight,
}
use althea_rs.TunnelManager.Messages.{
  World, Step, inquired, contacted, answered, failed_hello, collected, closed, returned, billed,
  bloated, lost, Reach, started, next,
}
use althea_rs.TunnelManager.Changes.{tunnel_state_changes-IsQuiet, got_bloat-IsKept}

-- How often a port is free, a tunnel's or under way.
abbrev pub places : ℕ → World → ℕ
places q w = owned q w.manager + in_flight q w.pending

Step-places : (q : ℕ) {v w : World} → Step v w → places q w ≤ places q v
unfolding port_returned
Step-places q (inquired contacts system m calls) = omega (
  arith,
  neighbor_inquiry-owned q contacts system m,
  in_flight-append q calls (neighbor_inquiry contacts system m).1,
)
Step-places q (contacted system now id peer light_client m calls) = omega (
  arith,
  identity_callback-owned q system now id peer none light_client m,
  in_flight-append q calls (identity_callback system now id peer none light_client m).1,
)
Step-places q (answered system now id peer port light_client m before after) = omega (
  arith,
  identity_callback-owned q system now id peer (some port) light_client m,
  in_flight-append q (before ++ after)
      (identity_callback system now id peer (some port) light_client m).1,
  in_flight-append q before after,
  in_flight-append q before (hello port ∷ after),
)
Step-places q (failed_hello port m before after) = omega (
  arith,
  in_flight-append q (before ++ after) (port_callback port ∷ []),
  in_flight-append q before after,
  in_flight-append q before (hello port ∷ after),
)
Step-places q (collected good_order late_order now limit m calls) = omega (
  arith,
  trigger_gc-owned q good_order late_order now limit m,
  in_flight-append q calls (trigger_gc good_order late_order now limit m).0,
)
Step-places q (closed succeeds t n m before after) = omega (
  arith,
  unmonitored-in_flight q succeeds t n,
  in_flight-append q (before ++ after) (unmonitored succeeds t n),
  in_flight-append q before after,
  in_flight-append q before (unmonitor t n ∷ after),
)
Step-places q (returned port m before after) = omega (
  arith,
  count-append q m.free_ports (port ∷ []),
  in_flight-append q before after,
  in_flight-append q before (port_callback port ∷ after),
)
Step-places q (billed shaper free_tier changes m calls made shaped tunnels billing done) =
    let quiet =
      rw done at (tunnel_state_changes-IsQuiet shaper free_tier changes m.tunnels billing) in
    rw quiet.0 (omega (arith, quiet.1.0 q, in_flight-append q calls []))
Step-places q (bloated bandwidth iface m calls) =
    omega (arith, (got_bloat-IsKept bandwidth iface m.tunnels).0 q)
Step-places q (lost call m before after) =
    omega (arith, in_flight-append q before after, in_flight-append q before (call ∷ after))

count-range : (q start n : ℕ) → q < start → count q (range start n) ≡ 0
count-range q start zero h = refl
count-range q start (suc n) h = ground (arith, count-range q (start + 1) n)

count-range_once : (q start n : ℕ) → count q (range start n) ≤ 1
count-range_once q start zero = omega arith
count-range_once q start (suc n) =
    ground (arith, count-range_once q (start + 1) n, count-range q (start + 1) n)

-- As long as no peer is contacted by a host name: after any sequence of rounds, identities, hellos that
-- are answered, fail or are lost, collections, changes by the debt keeper and attempts to unmonitor,
-- whatever the system answers, every port is in at most one place: free in the pool, the port of one
-- tunnel, with a hello that is under way, or on its way back to the pool.
pub Reach-places :
    (q wg_start_port : ℕ) {w : World}
    → Reach wg_start_port w
    → count q w.manager.free_ports + lent_in q w.manager.tunnels + in_flight q w.pending ≤ 1
unfolding manager_new
Reach-places q wg_start_port started =
    omega (arith, count-range_once q wg_start_port (65535 - wg_start_port))
Reach-places q wg_start_port (next r step) =
    omega (arith, Step-places q step, Reach-places q wg_start_port r)
