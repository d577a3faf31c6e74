-- ===== src/TunnelManager/Manager.antt =====
-- rita/src/rita_common/tunnel_manager/mod.rs and id_callback.rs: the actor `TunnelManager`, how it
-- hands out ports, and opens and closes tunnels. What the system answers is an argument; the calls
-- of the kernel interface, and the messages to babel, are listed in their order.
use Prim.Native.String.{String}
use althea_rs.Prelude.{
  ℕ, zero, suc, ◌+◌, ◌-◌, Bool, true, false, Option, none, some, List, [], ◌∷◌, ◌++◌, length, map,
  ◌==◌, ◌&&◌, any, get_elem?, if◌then◌else◌,
}
use althea_rs.Prelude.Maps.{HashMap, get, insert, remove}
use althea_rs.Prelude.Outcome.{Outcome, ok, err, panic}
use althea_rs.AltheaTypes.{Identity, LocalIdentity, identity_key}
use althea_rs.Time.{Instant}
use althea_rs.TunnelManager.Tunnel.{
  Tunnel, new_tunnel, have_tunnel_by_ip, have_tunnel_by_ifidx, get_tunnel_by_ifidx, del_tunnel,
}

abbrev pub Tunnels : Type 0
Tunnels = HashMap Identity (List Tunnel)

pub record TunnelManager : Type 0 where
  pub free_ports : List ℕ
  pub tunnels : Tunnels

pub data Error : Type 0 where
  port_error no_mesh_ip kernel_error : Error

-- The calls that an operation makes.
pub data Call : Type 0 where
  del_interface : String → Call
  monitor unmonitor : Tunnel → ℕ → Call
  port_callback : ℕ → Call
  hello : ℕ → Call

-- `Peer` of peer_listener: the interface, and the address of its socket.
pub record Peer : Type 0 where
  pub ifidx : ℕ
  pub ip : ℕ

-- What the system answers: the ports in use, or an error, and the random index, at each attempt to
-- find a port; the name of a new interface; and whether opening the tunnel succeeds.
pub record System : Type 0 where
  pub used_ports : ℕ → Option (List ℕ)
  pub gen_range : ℕ → ℕ → ℕ
  pub setup_wg_if : Option String
  pub opened : Outcome Error (Unit {0})

-- `(start..end).collect()`, by the number of its elements.
abbrev pub range : ℕ → ℕ → List ℕ
range start zero = []
range start (suc n) = start ∷ range (start + 1) n

-- `TunnelManager::new`, with the setting of the port.
unfoldable pub manager_new : ℕ → TunnelManager
manager_new wg_start_port = record {
  free_ports = range wg_start_port (65535 - wg_start_port);
  tunnels = [];
}

-- `Vec::remove`
abbrev pub remove_at : ℕ → List ℕ → List ℕ
remove_at i [] = []
remove_at zero (x ∷ xs) = xs
remove_at (suc i) (x ∷ xs) = x ∷ remove_at i xs

abbrev pub push : ℕ → TunnelManager → TunnelManager
push port m = record m { free_ports = m.free_ports ++ (port ∷ []) }

-- One attempt of `get_port`: an empty pool panics in `gen_range`, and what follows a port that is in
-- use is given.
unfoldable pub try_port :
    System
    → ℕ
    → TunnelManager
    → (ℕ → TunnelManager → Outcome Error (Option ℕ) × TunnelManager)
    → Outcome Error (Option ℕ) × TunnelManager
try_port system level m on_used =
    let val = system.gen_range level (length m.free_ports) in
    elim (get_elem? m.free_ports val) [
      | none ↦ (panic, m)
      | some port ↦
          let rest = record m { free_ports = remove_at val m.free_ports } in
          elim (system.used_ports level) [
            | none ↦ (ok none, rest)
            | some used_ports ↦
                if any (λ p. p == port) used_ports
                then on_used port rest
                else (ok (some port), rest)
          ]
    ]

-- `get_port` at a level, with so many more levels up to the tenth.
unfoldable pub get_port : ℕ → System → ℕ → TunnelManager → Outcome Error (Option ℕ) × TunnelManager
unfolding try_port
get_port zero system level m = try_port system level m (λ port rest. (panic, rest))
get_port (suc more) system level m =
    try_port system level m (λ port rest. get_port more system (level + 1) (push port rest))

-- `contact_neighbor`, which fails without a route or an identity, and `neighbor_inquiry`.
unfoldable pub neighbor_inquiry :
    Bool → System → TunnelManager → Outcome Error (Unit {0}) × List Call × TunnelManager
neighbor_inquiry contacts system m =
    let (r, m') = get_port 10 system 0 m in
    elim r [
      | ok none ↦ (err port_error, [], m')
      | ok (some port) ↦ if contacts then (ok tt, hello port ∷ [], m') else (err no_mesh_ip, [], m')
      | err e ↦ (err e, [], m')
      | panic ↦ (panic, [], m')
    ]

-- What is known anew of a tunnel by a hello.
abbrev pub bump : Instant → Peer → LocalIdentity → Tunnel → Tunnel
bump now peer their_localid tunnel =
    if tunnel.listen_ifidx == peer.ifidx && tunnel.ip == peer.ip
    then record tunnel {
      last_contact = now;
      neigh_id = record (tunnel.neigh_id) {
        global = record (tunnel.neigh_id.global) { nickname = their_localid.global.nickname };
      };
    }
    else tunnel

abbrev pub tunnels_of : Identity → Tunnels → List Tunnel
tunnels_of key m = elim (get key m) [ none ↦ [] | some tunnels ↦ tunnels ]

abbrev pub they_have : Option Bool → Bool
they_have none = true
they_have (some v) = v

-- The end of `open_tunnel`, and `create_new_tunnel`.
unfoldable pub create_new_tunnel :
    System
    → Instant
    → LocalIdentity
    → Peer
    → ℕ
    → Option ℕ
    → Bool
    → TunnelManager
    → Outcome Error (Tunnel × Bool) × List Call × TunnelManager
create_new_tunnel system now their_localid peer our_port light_client return_bool m =
    elim system.setup_wg_if [
      | none ↦ (panic, [], m)
      | some iface_name ↦
          let tunnel =
            new_tunnel now peer.ip iface_name our_port peer.ifidx their_localid light_client in
          let key = their_localid.global in
          elim system.opened [
            | panic ↦ (panic, [], m)
            | err e ↦ (err e, [], m)
            | ok _ ↦ (
              ok (tunnel, return_bool),
              elim light_client [ none ↦ monitor tunnel 0 ∷ [] | some _ ↦ [] ],
              record m {
                tunnels = insert key (tunnels_of key m.tunnels ++ (tunnel ∷ [])) m.tunnels;
              },
            )
          ]
    ]

-- The tunnel is taken from the list of its identity, which goes when it is empty.
unfoldable pub drop_tunnel : Identity → Tunnel → List Tunnel → Tunnels → Tunnels
drop_tunnel key tunnel tunnels m = elim (del_tunnel tunnel tunnels) [
  | [] ↦ remove key m
  | t ∷ ts ↦ insert key (t ∷ ts) m
]

unfoldable pub open_tunnel :
    System
    → Instant
    → LocalIdentity
    → Peer
    → ℕ
    → Option ℕ
    → TunnelManager
    → Outcome Error (Tunnel × Bool) × List Call × TunnelManager
unfolding create_new_tunnel drop_tunnel
open_tunnel system now their_localid peer our_port light_client m =
    let key = their_localid.global in
    let tunnels = tunnels_of key m.tunnels in
    let we_have_tunnel =
      have_tunnel_by_ifidx peer.ifidx tunnels && have_tunnel_by_ip peer.ip tunnels in
    if we_have_tunnel
    then (let bumped = map (bump now peer their_localid) tunnels in
        let m' = record m { tunnels = insert key bumped m.tunnels } in
        elim (get_tunnel_by_ifidx peer.ifidx bumped) [
          | none ↦ (panic, [], m')
          | some tunnel ↦
              if they_have their_localid.have_tunnel
              then (ok (tunnel, true), [], push our_port m')
              else (let dropped = record m' {
                tunnels = drop_tunnel key tunnel bumped m'.tunnels;
              } in
                  let (r, calls, last) =
                    create_new_tunnel system now their_localid peer our_port light_client true
                      (push tunnel.listen_port dropped) in
                  (r, del_interface tunnel.iface_name ∷ calls, last))
        ])
    else create_new_tunnel system now their_localid peer our_port light_client false m

-- The port of a callback, or one from the pool.
unfoldable pub chosen_port :
    System → Option ℕ → TunnelManager → Outcome Error (Option ℕ) × TunnelManager
chosen_port system (some port) m = (ok (some port), m)
chosen_port system none m = get_port 10 system 0 m

-- `Handler<IdentityCallback>`: the port is given, or taken from the pool.
unfoldable pub identity_callback :
    System
    → Instant
    → LocalIdentity
    → Peer
    → Option ℕ
    → Option ℕ
    → TunnelManager
    → Outcome Error (Option (Tunnel × Bool)) × List Call × TunnelManager
unfolding chosen_port
identity_callback system now their_localid peer our_port light_client m =
    let (chosen, m') = chosen_port system our_port m in
    elim chosen [
      | ok none ↦ (ok none, [], m')
      | ok (some port) ↦
          let (r, calls, last) = open_tunnel system now their_localid peer port light_client m' in
          (elim r [ ok res ↦ ok (some res) | err e ↦ ok none | panic ↦ panic ], calls, last)
      | err e ↦ (err e, [], m')
      | panic ↦ (panic, [], m')
    ]

-- `Handler<PortCallback>`
unfoldable pub port_returned : ℕ → TunnelManager → TunnelManager
port_returned port m = push port m
