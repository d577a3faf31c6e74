-- ===== src/TunnelManager/Contact.antt =====
-- rita/src/rita_common/tunnel_manager/mod.rs: the neighbours that are contacted, by address or by
-- name, and what the other actors ask of the tunnels.
use Prim.Native.String.{String}
use althea_rs.Prelude.{ℕ, Bool, Option, none, some, List, [], ◌∷◌, ◌++◌, map, if◌then◌else◌}
use althea_rs.Prelude.Outcome.{Outcome, ok, err, panic}
use althea_rs.AltheaTypes.{LocalIdentity}
use althea_rs.TunnelManager.Tunnel.{Tunnel}
use althea_rs.TunnelManager.Manager.{
  TunnelManager, System, Error, port_error, Call, hello, port_callback, get_port, neighbor_inquiry,
}
use althea_rs.TunnelManager.Expiry.{all_tunnels}

-- What the resolver answers: whether contacting each of the addresses works, or an error.
abbrev pub Resolved : Type 0
Resolved = Option (List Bool)

-- The hellos to the addresses of a name, all with the same port.
abbrev hellos : ℕ → List Bool → List Call
hellos port [] = []
hellos port (contacts ∷ rest) = if contacts then hello port ∷ hellos port rest else hellos port rest

-- The future of `neighbor_inquiry_hostname`, which returns the port only if the name is not resolved.
abbrev after_resolving : Bool → ℕ → Resolved → List Call
after_resolving is_gateway port none = port_callback port ∷ []
after_resolving is_gateway port (some addresses) = if is_gateway then hellos port addresses else []

unfoldable pub neighbor_inquiry_hostname :
    Bool → Resolved → System → TunnelManager → Outcome Error (Unit {0}) × List Call × TunnelManager
neighbor_inquiry_hostname is_gateway dnsresult system m =
    let (r, m') = get_port 10 system 0 m in
    elim r [
      | ok none ↦ (err port_error, [], m')
      | ok (some port) ↦ (ok tt, after_resolving is_gateway port dnsresult, m')
      | err e ↦ (err e, [], m')
      | panic ↦ (panic, [], m')
    ]

-- A peer to contact: at an address, which works or not, or a manual peer with a name.
pub data Target : Type 0 where
  address : Bool → Target
  hostname : Resolved → Target

abbrev inquiry :
    Bool → Target → System → TunnelManager → Outcome Error (Unit {0}) × List Call × TunnelManager
inquiry is_gateway (address contacts) system m = neighbor_inquiry contacts system m
inquiry is_gateway (hostname dnsresult) system m =
    if is_gateway then neighbor_inquiry_hostname is_gateway dnsresult system m else (ok tt, [], m)

-- `Handler<PeersToContact>`: the peers, then the manual peers; errors are logged.
unfoldable pub peers_to_contact :
    Bool
    → List (Target × System)
    → TunnelManager
    → Outcome Error (Unit {0}) × List Call × TunnelManager
unfolding neighbor_inquiry_hostname
peers_to_contact is_gateway [] m = (ok tt, [], m)
peers_to_contact is_gateway ((target, system) ∷ rest) m =
    let (r, calls, m') = inquiry is_gateway target system m in
    let (r', calls', last) = peers_to_contact is_gateway rest m' in
    elim r [ panic ↦ (panic, calls, m') | _ ↦ (r', calls ++ calls', last) ]

pub record Neighbor : Type 0 where
  pub identity : LocalIdentity
  pub iface_name : String
  pub tunnel_ip : ℕ
  pub speed_limit : Option ℕ

-- `Handler<GetTunnels>` and `Handler<GetNeighbors>`
abbrev get_tunnels : TunnelManager → List Tunnel
get_tunnels m = all_tunnels m.tunnels

abbrev neighbor_of : Tunnel → Neighbor
neighbor_of t = record {
  identity = t.neigh_id;
  iface_name = t.iface_name;
  tunnel_ip = t.ip;
  speed_limit = t.speed_limit;
}

abbrev get_neighbors : TunnelManager → List Neighbor
get_neighbors m = map neighbor_of (get_tunnels m)
