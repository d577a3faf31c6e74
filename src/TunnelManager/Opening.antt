-- ===== src/TunnelManager/Opening.antt =====
-- rita/src/rita_common/tunnel_manager/mod.rs: opening a tunnel takes no port but the one that is given.
use althea_rs.Prelude.{
  ap, ℕ, ◌+◌, ◌≤◌, ◌≡◌, refl, Bool, true, false, Bool-cases, Option-cases, inl, inr, Option, some,
  List, [], ◌∷◌, ◌++◌, map, ◌&&◌, one, count-append, arith,
}
use althea_rs.Prelude.Maps.{insert, get-insert_self}
use althea_rs.AltheaTypes.{Identity, LocalIdentity, identity_key}
use althea_rs.Time.{Instant}
use althea_rs.TunnelManager.Tunnel.{Tunnel, get_tunnel_by_ifidx, new_tunnel}
use althea_rs.TunnelManager.Manager.{
  Tunnels, TunnelManager, Peer, System, push, bump, tunnels_of, create_new_tunnel, drop_tunnel,
  open_tunnel,
}
use althea_rs.TunnelManager.Manager.{they_have}
use althea_rs.TunnelManager.Tunnel.{have_tunnel_by_ifidx, have_tunnel_by_ip}
use althea_rs.TunnelManager.Ports.{
  lent, owned, lent-append, lent_in-insert, lent-bump, lent-del_tunnel_found, lent_in-drop_tunnel,
}

pub tunnels_of-insert :
    (key : Identity) (ts : List Tunnel) (m : Tunnels) → tunnels_of key (insert key ts m) ≡ ts
tunnels_of-insert key ts m = rw (get-insert_self key ts m, tunnels_of) refl

-- A tunnel is dropped to be opened anew, and its port returned.
reopened-owned :
    (q ifidx : ℕ) (key : Identity) (t : Tunnel) (bumped : List Tunnel) (m : TunnelManager)
    → get_tunnel_by_ifidx ifidx bumped ≡ some t
    → lent q bumped ≡ lent q (tunnels_of key m.tunnels)
    → owned q (
        push t.listen_port
          (record m { tunnels = drop_tunnel key t bumped (insert key bumped m.tunnels) }))
      ≤ owned q m
reopened-owned q ifidx key t bumped m found same =
    let in_map = lent_in-drop_tunnel q key t bumped (insert key bumped m.tunnels) in
    let in_list = lent-del_tunnel_found q ifidx t bumped found in
    let now_there = ap (lent q) (tunnels_of-insert key bumped m.tunnels) in
    omega (
      arith,
      in_map,
      in_list,
      now_there,
      same,
      lent_in-insert q key bumped m.tunnels,
      count-append q m.free_ports (t.listen_port ∷ []),
    )

create_new_tunnel-owned :
    (q : ℕ) (system : System) (now : Instant) (id : LocalIdentity) (peer : Peer) (our_port : ℕ)
    (light_client : Option ℕ) (flag : Bool) (m : TunnelManager)
    → owned q (create_new_tunnel system now id peer our_port light_client flag m).2
      ≤ owned q m + one our_port q
unfolding create_new_tunnel new_tunnel
create_new_tunnel-owned q system now id peer our_port light_client flag m =
    elim (Option-cases system.setup_wg_if) [
      | inl fails ↦ rw (fails, create_new_tunnel) (omega arith)
      | inr (iface_name, set_up) ↦ ground (
        arith,
        set_up,
        lent_in-insert q id.global
            (tunnels_of id.global m.tunnels
              ++ (new_tunnel now peer.ip iface_name our_port peer.ifidx id light_client ∷ []))
            m.tunnels,
        lent-append q (tunnels_of id.global m.tunnels)
            (new_tunnel now peer.ip iface_name our_port peer.ifidx id light_client ∷ []),
      )
    ]

pub open_tunnel-owned :
    (q : ℕ) (system : System) (now : Instant) (id : LocalIdentity) (peer : Peer) (our_port : ℕ)
    (light_client : Option ℕ) (m : TunnelManager)
    → owned q (open_tunnel system now id peer our_port light_client m).2
      ≤ owned q m + one our_port q
unfolding open_tunnel
open_tunnel-owned q system now id peer our_port light_client m =
    let key = id.global in
    let tunnels = tunnels_of key m.tunnels in
    let bumped = map (bump now peer id) tunnels in
    let m' : TunnelManager = record m { tunnels = insert key bumped m.tunnels } in
    let same = lent-bump q now peer id tunnels in
    let kept = lent_in-insert q key bumped m.tunnels in
    elim (Bool-cases
      (have_tunnel_by_ifidx peer.ifidx tunnels && have_tunnel_by_ip peer.ip tunnels)) [
        | inr new ↦
            rw (new, open_tunnel)
              (create_new_tunnel-owned q system now id peer our_port light_client false m)
        | inl known ↦ elim (Option-cases (get_tunnel_by_ifidx peer.ifidx bumped)) [
          | inl missing ↦ rw (known, missing, open_tunnel) (omega (arith, same, kept))
          | inr (t, there) ↦ elim (Bool-cases (they_have id.have_tunnel)) [
            | inl both ↦
                rw (known, there, both, open_tunnel)
                  (omega (arith, same, kept, count-append q m.free_ports (our_port ∷ [])))
            | inr lost ↦
                rw (known, there, lost, open_tunnel)
                  (omega (
                    arith,
                    reopened-owned q peer.ifidx key t bumped m there same,
                    create_new_tunnel-owned q system now id peer our_port light_client true (
                        push t.listen_port
                          (record m' { tunnels = drop_tunnel key t bumped m'.tunnels })),
                  ))
          ]
        ]
      ]
