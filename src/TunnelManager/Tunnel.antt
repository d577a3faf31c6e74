-- ===== src/TunnelManager/Tunnel.antt =====
-- rita/src/rita_common/tunnel_manager/mod.rs: a tunnel and its state, and the searches in the list of
-- the tunnels to one neighbour. An `IpAddr` is the number that its bytes spell.
use Prim.Native.String.{String}
use text.Mathlib.Text.{◌==◌ as str_eq}
use althea_rs.Prelude.{
  ℕ, Bool, true, false, Option, none, some, List, [], ◌∷◌, ◌==◌, ◌&&◌, ◌||◌, if◌then◌else◌,
}
use althea_rs.AltheaTypes.{Identity, LocalIdentity, local_identity_eq, txid_eq}
use althea_rs.Time.{Instant}

-- The actions that `DebtKeeper` sends are the last two.
pub data TunnelAction : Type 0 where
  membership_confirmed membership_expired payment_overdue paid_on_time : TunnelAction

pub record TunnelChange : Type 0 where
  pub identity : Identity
  pub action : TunnelAction

pub data RegistrationState : Type 0 where
  not_registered registered : RegistrationState

pub data PaymentState : Type 0 where
  paid overdue : PaymentState

pub record Tunnel : Type 0 where
  pub ip : ℕ
  pub iface_name : String
  pub listen_ifidx : ℕ
  pub listen_port : ℕ
  pub neigh_id : LocalIdentity
  pub last_contact : Instant
  pub speed_limit : Option ℕ
  pub light_client_details : Option ℕ
  pub payment_state : PaymentState
  pub registration_state : RegistrationState

abbrev pub payment_state_eq : PaymentState → PaymentState → Bool
payment_state_eq paid paid = true
payment_state_eq paid overdue = false
payment_state_eq overdue paid = false
payment_state_eq overdue overdue = true

abbrev pub registration_state_eq : RegistrationState → RegistrationState → Bool
registration_state_eq not_registered not_registered = true
registration_state_eq not_registered registered = false
registration_state_eq registered not_registered = false
registration_state_eq registered registered = true

-- The derived `PartialEq`.
unfoldable pub tunnel_eq : Tunnel → Tunnel → Bool
tunnel_eq a b =
    a.ip == b.ip
    && str_eq a.iface_name b.iface_name
    && a.listen_ifidx == b.listen_ifidx
    && a.listen_port == b.listen_port
    && local_identity_eq a.neigh_id b.neigh_id
    && a.last_contact == b.last_contact
    && txid_eq a.speed_limit b.speed_limit
    && txid_eq a.light_client_details b.light_client_details
    && payment_state_eq a.payment_state b.payment_state
    && registration_state_eq a.registration_state b.registration_state

-- `Tunnel::new`, at the time `now`.
unfoldable pub new_tunnel : Instant → ℕ → String → ℕ → ℕ → LocalIdentity → Option ℕ → Tunnel
new_tunnel now ip iface_name our_listen_port ifidx their_id light_client_details = record {
  ip = ip;
  iface_name = iface_name;
  listen_ifidx = ifidx;
  listen_port = our_listen_port;
  neigh_id = their_id;
  last_contact = now;
  speed_limit = none;
  light_client_details = light_client_details;
  payment_state = paid;
  registration_state = registered;
}

unfoldable pub have_tunnel_by_ip : ℕ → List Tunnel → Bool
have_tunnel_by_ip ip [] = false
have_tunnel_by_ip ip (tunnel ∷ tunnels) = tunnel.ip == ip || have_tunnel_by_ip ip tunnels

unfoldable pub have_tunnel_by_ifidx : ℕ → List Tunnel → Bool
have_tunnel_by_ifidx ifidx [] = false
have_tunnel_by_ifidx ifidx (tunnel ∷ tunnels) =
    tunnel.listen_ifidx == ifidx || have_tunnel_by_ifidx ifidx tunnels

unfoldable pub get_tunnel_by_ifidx : ℕ → List Tunnel → Option Tunnel
get_tunnel_by_ifidx ifidx [] = none
get_tunnel_by_ifidx ifidx (tunnel ∷ tunnels) =
    if tunnel.listen_ifidx == ifidx then some tunnel else get_tunnel_by_ifidx ifidx tunnels

-- Every tunnel that equals the given one goes.
unfoldable pub del_tunnel : Tunnel → List Tunnel → List Tunnel
del_tunnel to_del [] = []
del_tunnel to_del (tunnel ∷ tunnels) =
    if tunnel_eq tunnel to_del
    then del_tunnel to_del tunnels
    else tunnel ∷ del_tunnel to_del tunnels
