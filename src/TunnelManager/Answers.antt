-- ===== src/TunnelManager/Answers.antt =====
-- rita/src/rita_common/tunnel_manager/mod.rs: what `open_tunnel` answers, and the tunnels it leaves.
use mathlib.Core.Path.{subst}
use althea_rs.Prelude.{
  ℕ, ◌≡◌, refl, ap, ◌∙◌, Bool, true, false, Bool-cases, Option-cases, inl, inr, Option, some, List,
  [], ◌∷◌, ◌++◌, arith, map, ◌&&◌, ◌==◌, ◌||◌,
}
use althea_rs.Prelude.Maps.{insert}
use althea_rs.Prelude.Outcome.{Outcome, ok, err, panic, Outcome-cases}
use althea_rs.AltheaTypes.{Identity, LocalIdentity, identity_key}
use althea_rs.Time.{Instant}
use althea_rs.TunnelManager.Tunnel.{
  Tunnel, new_tunnel, get_tunnel_by_ifidx, have_tunnel_by_ifidx, have_tunnel_by_ip,
}
use althea_rs.TunnelManager.Manager.{
  TunnelManager, System, Peer, Error, Call, del_interface, tunnels_of, open_tunnel,
  create_new_tunnel, bump, they_have, push, drop_tunnel,
}
use althea_rs.TunnelManager.Opening.{tunnels_of-insert}

-- Whether a list has a tunnel on the interface of a peer, and one to its address.
abbrev pub reaches : Peer → List Tunnel → Bool
reaches peer ts = have_tunnel_by_ifidx peer.ifidx ts && have_tunnel_by_ip peer.ip ts

-- An answer names a tunnel on the interface of the peer, and the identity's tunnels reach the peer.
abbrev IsAnswer :
    Identity → Peer → Outcome Error (Tunnel × Bool) × List Call × TunnelManager → Type 0
IsAnswer key peer (ok (t, flag), calls, m) =
    (t.listen_ifidx ≡ peer.ifidx) × (reaches peer (tunnels_of key m.tunnels) ≡ true)
IsAnswer key peer (err e, calls, m) = Unit
IsAnswer key peer (panic, calls, m) = Unit

reaches-append :
    (peer : Peer) (ts : List Tunnel) (t : Tunnel)
    → t.listen_ifidx ≡ peer.ifidx
    → t.ip ≡ peer.ip
    → reaches peer (ts ++ (t ∷ [])) ≡ true
unfolding have_tunnel_by_ifidx have_tunnel_by_ip
reaches-append peer [] t same_ifidx same_ip = ground arith
reaches-append peer (u ∷ ts) t same_ifidx same_ip =
    ground (arith, reaches-append peer ts t same_ifidx same_ip)

bump-place :
    (now : Instant) (by : Peer) (id : LocalIdentity) (t : Tunnel)
    → ((bump now by id t).listen_ifidx ≡ t.listen_ifidx) × ((bump now by id t).ip ≡ t.ip)
bump-place now by id t = elim (Bool-cases (t.listen_ifidx == by.ifidx && t.ip == by.ip)) [
  | inl here ↦ rw (here, bump) (refl, refl)
  | inr there ↦ rw (there, bump) (refl, refl)
]

have-bump :
    (now : Instant) (by : Peer) (id : LocalIdentity) (n : ℕ) (ts : List Tunnel)
    → (have_tunnel_by_ifidx n (map (bump now by id) ts) ≡ have_tunnel_by_ifidx n ts)
      × (have_tunnel_by_ip n (map (bump now by id) ts) ≡ have_tunnel_by_ip n ts)
unfolding have_tunnel_by_ifidx have_tunnel_by_ip
have-bump now by id n [] = (refl, refl)
have-bump now by id n (t ∷ ts) =
    let place = bump-place now by id t in
    let later = have-bump now by id n ts in
    (
      ap (λ i. i == n || have_tunnel_by_ifidx n (map (bump now by id) ts)) place.0
          ∙ ap (λ b. t.listen_ifidx == n || b) later.0,
      ap (λ i. i == n || have_tunnel_by_ip n (map (bump now by id) ts)) place.1
          ∙ ap (λ b. t.ip == n || b) later.1,
    )

reaches-bump :
    (now : Instant) (id : LocalIdentity) (peer : Peer) (ts : List Tunnel)
    → reaches peer (map (bump now peer id) ts) ≡ reaches peer ts
reaches-bump now id peer ts =
    rw ((have-bump now peer id peer.ifidx ts).0, (have-bump now peer id peer.ip ts).1) refl

IsAnswer-calls :
    (key : Identity) (peer : Peer) (r : Outcome Error (Tunnel × Bool)) (made calls : List Call)
    (m : TunnelManager)
    → IsAnswer key peer (r, made, m)
    → IsAnswer key peer (r, calls, m)
IsAnswer-calls key peer (ok (t, flag)) made calls m h = h
IsAnswer-calls key peer (err e) made calls m h = tt
IsAnswer-calls key peer panic made calls m h = tt

found_ifidx :
    (ifidx : ℕ) (ts : List Tunnel) (t : Tunnel)
    → get_tunnel_by_ifidx ifidx ts ≡ some t
    → t.listen_ifidx ≡ ifidx
unfolding get_tunnel_by_ifidx
found_ifidx ifidx [] t h = absurd (ground arith)
found_ifidx ifidx (u ∷ ts) t h = ground (arith, found_ifidx ifidx ts t)

module _ (system : System) (now : Instant) (id : LocalIdentity) (peer : Peer) (our_port : ℕ)
    (light_client : Option ℕ) where
  create_new_tunnel-IsAnswer :
      (flag : Bool) (m : TunnelManager)
      → IsAnswer id.global peer (create_new_tunnel system now id peer our_port light_client flag m)
  unfolding create_new_tunnel new_tunnel
  create_new_tunnel-IsAnswer flag m = elim (Option-cases system.setup_wg_if) [
    | inl fails ↦ rw (fails, create_new_tunnel) tt
    | inr (iface_name, set_up) ↦
        let tunnel = new_tunnel now peer.ip iface_name our_port peer.ifidx id light_client in
        let tunnels = tunnels_of id.global m.tunnels in
        elim (Outcome-cases system.opened) [
          | inl crash ↦ rw (set_up, crash, create_new_tunnel) tt
          | inr (inl (e, fails)) ↦ rw (set_up, fails, create_new_tunnel) tt
          | inr (inr (u, opens)) ↦
              rw (set_up, opens, create_new_tunnel)
                (
                  refl,
                  ap (reaches peer)
                        (tunnels_of-insert id.global (tunnels ++ (tunnel ∷ [])) m.tunnels)
                      ∙ reaches-append peer tunnels tunnel refl refl,
                )
        ]
  ]

  open_tunnel-IsAnswer :
      (m : TunnelManager)
      → IsAnswer id.global peer (open_tunnel system now id peer our_port light_client m)
  unfolding open_tunnel
  open_tunnel-IsAnswer m =
      let key = id.global in
      let tunnels = tunnels_of key m.tunnels in
      let bumped = map (bump now peer id) tunnels in
      let m' : TunnelManager = record m { tunnels = insert key bumped m.tunnels } in
      elim (Bool-cases
        (have_tunnel_by_ifidx peer.ifidx tunnels && have_tunnel_by_ip peer.ip tunnels)) [
          | inr new ↦ rw (new, open_tunnel) (create_new_tunnel-IsAnswer false m)
          | inl known ↦ elim (Option-cases (get_tunnel_by_ifidx peer.ifidx bumped)) [
            | inl missing ↦ rw (known, missing, open_tunnel) tt
            | inr (t, there) ↦ elim (Bool-cases (they_have id.have_tunnel)) [
              | inl both ↦
                  rw (known, there, both, open_tunnel)
                    (
                      found_ifidx peer.ifidx bumped t there,
                      ap (reaches peer) (tunnels_of-insert key bumped m.tunnels)
                          ∙ reaches-bump now id peer tunnels
                          ∙ known,
                    )
              | inr lost ↦
                  rw (known, there, lost, open_tunnel)
                    (let dropped =
                        push t.listen_port
                          (record m' { tunnels = drop_tunnel key t bumped m'.tunnels }) in
                      let (r, made, last) =
                        create_new_tunnel system now id peer our_port light_client true dropped in
                      IsAnswer-calls key peer r made (del_interface t.iface_name ∷ made) last
                        (create_new_tunnel-IsAnswer true dropped))
            ]
          ]
        ]

-- When `open_tunnel` succeeds, the tunnel that it answers with is on the interface of the peer, and
-- the tunnels of the identity then have one on that interface and one to the address of the peer, so
-- that the next message of the peer finds them.
pub open_tunnel-reaches :
    (system : System) (now : Instant) (id : LocalIdentity) (peer : Peer) (our_port : ℕ)
    (light_client : Option ℕ) (m : TunnelManager) (t : Tunnel) (flag : Bool)
    → (open_tunnel system now id peer our_port light_client m).0 ≡ ok (t, flag)
    → (t.listen_ifidx ≡ peer.ifidx)
      × (reaches peer (
            tunnels_of id.global (open_tunnel system now id peer our_port light_client m).2.tunnels)
          ≡ true)
open_tunnel-reaches system now id peer our_port light_client m t flag opens =
    subst
      (λ r. IsAnswer id.global peer (
        r,
        (open_tunnel system now id peer our_port light_client m).1,
        (open_tunnel system now id peer our_port light_client m).2,
      ))
      opens (open_tunnel-IsAnswer system now id peer our_port light_client m)
