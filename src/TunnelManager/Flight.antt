-- ===== src/TunnelManager/Flight.antt =====
-- rita/src/rita_common/tunnel_manager/mod.rs and id_callback.rs: the ports that an operation takes from
-- the manager are those of the calls that it makes.
use althea_rs.Prelude.{
  ℕ, ◌+◌, ◌≤◌, ◌≡◌, refl, ◌∙◌, Bool, true, false, Bool-cases, Option-cases, inl, inr, Option, none,
  some, List, [], ◌∷◌, ◌++◌, arith, one, map, ◌&&◌,
}
use althea_rs.Prelude.Maps.{insert}
use althea_rs.Prelude.Outcome.{Outcome-cases}
use althea_rs.AltheaTypes.{Identity, LocalIdentity, identity_key}
use althea_rs.Time.{Instant, Duration}
use althea_rs.TunnelManager.Tunnel.{
  Tunnel, get_tunnel_by_ifidx, have_tunnel_by_ifidx, have_tunnel_by_ip,
}
use althea_rs.TunnelManager.Manager.{
  Tunnels, TunnelManager, System, Peer, Call, hello, unmonitor, port_callback, monitor,
  del_interface, tunnels_of, neighbor_inquiry, chosen_port, identity_callback, open_tunnel,
  create_new_tunnel, bump, they_have, push, drop_tunnel,
}
use althea_rs.TunnelManager.Expiry.{
  push_tunnel, is_good, split_list, split, all_tunnels, close, close_all, Order, Reordered, same,
  under, swapped, chained, trigger_gc, unmonitored,
}
use althea_rs.TunnelManager.Ports.{
  lent, lent_in, owned, lent-append, lent_in-insert, found, get_port-owned,
}
use althea_rs.TunnelManager.Opening.{open_tunnel-owned}

-- How often a port is that of a call: of a hello that is under way, of a tunnel that is being closed,
-- or on its way back to the pool.
abbrev pub carried : ℕ → Call → ℕ
carried q (del_interface name) = 0
carried q (monitor tunnel n) = 0
carried q (unmonitor tunnel n) = one tunnel.listen_port q
carried q (port_callback port) = one port q
carried q (hello port) = one port q

abbrev pub in_flight : ℕ → List Call → ℕ
in_flight q [] = 0
in_flight q (call ∷ calls) = carried q call + in_flight q calls

pub in_flight-append :
    (q : ℕ) (xs ys : List Call) → in_flight q (xs ++ ys) ≡ in_flight q xs + in_flight q ys
in_flight-append q [] ys = omega arith
in_flight-append q (x ∷ xs) ys = omega (arith, in_flight-append q xs ys)

in_flight-close : (q : ℕ) (t : Tunnel) → in_flight q (close t) ≡ one t.listen_port q
unfolding close
in_flight-close q t = ground arith

in_flight-close_all : (q : ℕ) (ts : List Tunnel) → in_flight q (close_all ts) ≡ lent q ts
unfolding close_all
in_flight-close_all q [] = refl
in_flight-close_all q (t ∷ ts) = omega (
  arith,
  in_flight-append q (close t) (close_all ts),
  in_flight-close q t,
  in_flight-close_all q ts,
)

lent-all_tunnels : (q : ℕ) (m : Tunnels) → lent q (all_tunnels m) ≡ lent_in q m
lent-all_tunnels q [] = refl
lent-all_tunnels q ((key, ts) ∷ m) =
    omega (arith, lent-append q ts (all_tunnels m), lent-all_tunnels q m)

lent_in-push_tunnel :
    (q : ℕ) (key : Identity) (t : Tunnel) (m : Tunnels)
    → lent_in q (push_tunnel key t m) ≡ lent_in q m + one t.listen_port q
unfolding push_tunnel
lent_in-push_tunnel q key t m = omega (
  arith,
  lent_in-insert q key (tunnels_of key m ++ (t ∷ [])) m,
  lent-append q (tunnels_of key m) (t ∷ []),
)

-- The ports of two maps.
abbrev lent_by : ℕ → Tunnels × Tunnels → ℕ
lent_by q (good, late) = lent_in q good + lent_in q late

lent_by-split_list :
    (q : ℕ) (now : Instant) (limit : Duration) (key : Identity) (ts : List Tunnel)
    (good late : Tunnels)
    → lent_by q (split_list now limit key ts (good, late)) ≡ lent q ts + lent_by q (good, late)
unfolding split_list
lent_by-split_list q now limit key [] good late = omega arith
lent_by-split_list q now limit key (t ∷ ts) good late = elim (Bool-cases (is_good now limit t)) [
  | inl g ↦
      rw (g, split_list)
        (omega (
          arith,
          lent_by-split_list q now limit key ts (push_tunnel key t good) late,
          lent_in-push_tunnel q key t good,
        ))
  | inr l ↦
      rw (l, split_list)
        (omega (
          arith,
          lent_by-split_list q now limit key ts good (push_tunnel key t late),
          lent_in-push_tunnel q key t late,
        ))
]

lent_by-split :
    (q : ℕ) (now : Instant) (limit : Duration) (m good late : Tunnels)
    → lent_by q (split now limit m (good, late)) ≡ lent_in q m + lent_by q (good, late)
unfolding split
lent_by-split q now limit [] good late = omega arith
lent_by-split q now limit ((key, ts) ∷ m) good late =
    let (good', late') = split_list now limit key ts (good, late) in
    omega (
      arith,
      lent_by-split q now limit m good' late',
      lent_by-split_list q now limit key ts good late,
    )

lent_in-Reordered : (q : ℕ) {m n : Tunnels} → Reordered m n → lent_in q n ≡ lent_in q m
lent_in-Reordered q same = refl
lent_in-Reordered q (under key ts r) = let rest = lent_in-Reordered q r in omega arith
lent_in-Reordered q (swapped key other ts us) = omega arith
lent_in-Reordered q (chained r s) = lent_in-Reordered q s ∙ lent_in-Reordered q r

pub trigger_gc-owned :
    (q : ℕ) (good_order late_order : Order) (now : Instant) (limit : Duration) (m : TunnelManager)
    → owned q (trigger_gc good_order late_order now limit m).1
        + in_flight q (trigger_gc good_order late_order now limit m).0
      ≡ owned q m
unfolding trigger_gc
trigger_gc-owned q good_order late_order now limit m =
    let (good, late) = split now limit m.tunnels ([], []) in
    omega (
      arith,
      lent_by-split q now limit m.tunnels [] [],
      in_flight-close_all q (all_tunnels (late_order.order late)),
      lent-all_tunnels q (late_order.order late),
      lent_in-Reordered q (good_order.reorders good),
      lent_in-Reordered q (late_order.reorders late),
    )

pub neighbor_inquiry-owned :
    (q : ℕ) (contacts : Bool) (system : System) (m : TunnelManager)
    → owned q (neighbor_inquiry contacts system m).2
        + in_flight q (neighbor_inquiry contacts system m).1
      ≤ owned q m
unfolding neighbor_inquiry
neighbor_inquiry-owned q contacts system m = ground (arith, get_port-owned q 10 0 system m)

create_new_tunnel-in_flight :
    (q : ℕ) (system : System) (now : Instant) (id : LocalIdentity) (peer : Peer) (our_port : ℕ)
    (light_client : Option ℕ) (flag : Bool) (m : TunnelManager)
    → in_flight q (create_new_tunnel system now id peer our_port light_client flag m).1 ≡ 0
unfolding create_new_tunnel
create_new_tunnel-in_flight q system now id peer our_port light_client flag m = ground arith

open_tunnel-in_flight :
    (q : ℕ) (system : System) (now : Instant) (id : LocalIdentity) (peer : Peer) (our_port : ℕ)
    (light_client : Option ℕ) (m : TunnelManager)
    → in_flight q (open_tunnel system now id peer our_port light_client m).1 ≡ 0
unfolding open_tunnel
open_tunnel-in_flight q system now id peer our_port light_client m =
    let key = id.global in
    let tunnels = tunnels_of key m.tunnels in
    let bumped = map (bump now peer id) tunnels in
    let m' : TunnelManager = record m { tunnels = insert key bumped m.tunnels } in
    let created = create_new_tunnel-in_flight q system now id peer our_port light_client in
    elim (Bool-cases
      (have_tunnel_by_ifidx peer.ifidx tunnels && have_tunnel_by_ip peer.ip tunnels)) [
        | inr new ↦ rw (new, open_tunnel) (created false m)
        | inl known ↦ elim (Option-cases (get_tunnel_by_ifidx peer.ifidx bumped)) [
          | inl missing ↦ rw (known, missing, open_tunnel) refl
          | inr (t, there) ↦ elim (Bool-cases (they_have id.have_tunnel)) [
            | inl both ↦ rw (known, there, both, open_tunnel) refl
            | inr lost ↦
                rw (known, there, lost, open_tunnel)
                  (omega (
                    arith,
                    created true (
                        push t.listen_port
                          (record m' { tunnels = drop_tunnel key t bumped m'.tunnels })),
                  ))
          ]
        ]
      ]

-- The port that a callback brings.
abbrev pub brought : ℕ → Option ℕ → ℕ
brought q none = 0
brought q (some port) = one port q

chosen_port-owned :
    (q : ℕ) (system : System) (our_port : Option ℕ) (m : TunnelManager)
    → found q (chosen_port system our_port m).0 + owned q (chosen_port system our_port m).1
      ≤ owned q m + brought q our_port
unfolding chosen_port
chosen_port-owned q system none m = omega (arith, get_port-owned q 10 0 system m)
chosen_port-owned q system (some port) m = omega arith

pub identity_callback-owned :
    (q : ℕ) (system : System) (now : Instant) (id : LocalIdentity) (peer : Peer)
    (our_port : Option ℕ) (light_client : Option ℕ) (m : TunnelManager)
    → owned q (identity_callback system now id peer our_port light_client m).2
        + in_flight q (identity_callback system now id peer our_port light_client m).1
      ≤ owned q m + brought q our_port
unfolding identity_callback
identity_callback-owned q system now id peer our_port light_client m =
    let m' = (chosen_port system our_port m).1 in
    let chosen = chosen_port-owned q system our_port m in
    elim (Outcome-cases (chosen_port system our_port m).0) [
      | inl crash ↦ rw (crash, identity_callback) (omega (arith, rw crash at chosen))
      | inr (inl (e, fails)) ↦ rw (fails, identity_callback) (omega (arith, rw fails at chosen))
      | inr (inr (none, empty)) ↦ rw (empty, identity_callback) (omega (arith, rw empty at chosen))
      | inr (inr (some port, drawn)) ↦
          rw (drawn, identity_callback)
            (omega (
              arith,
              rw drawn at chosen,
              open_tunnel-owned q system now id peer port light_client m',
              open_tunnel-in_flight q system now id peer port light_client m',
            ))
    ]

pub unmonitored-in_flight :
    (q : ℕ) (succeeds : Bool) (t : Tunnel) (n : ℕ)
    → in_flight q (unmonitored succeeds t n) ≤ one t.listen_port q
unfolding unmonitored
unmonitored-in_flight q succeeds t n = ground arith
