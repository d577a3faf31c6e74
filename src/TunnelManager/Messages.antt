-- ===== src/TunnelManager/Messages.antt =====
-- rita/src/rita_common/tunnel_manager/mod.rs and id_callback.rs: the manager among its messages, in any
-- order.
use althea_rs.Prelude.{ℕ, ◌≡◌, Bool, true, false, Option, none, some, List, [], ◌∷◌, ◌++◌, All}
use Prim.Native.String.{String}
use althea_rs.Prelude.Outcome.{ok}
use althea_rs.AltheaTypes.{LocalIdentity, identity_key}
use althea_rs.Time.{Instant, Duration}
use althea_rs.TunnelManager.Tunnel.{
  Tunnel, TunnelAction, TunnelChange, payment_overdue, paid_on_time, membership_confirmed,
  membership_expired,
}
use althea_rs.TunnelManager.Manager.{
  Tunnels, TunnelManager, System, Peer, Call, hello, unmonitor, port_callback, neighbor_inquiry,
  identity_callback, port_returned, manager_new,
}
use althea_rs.TunnelManager.Expiry.{Order, trigger_gc, unmonitored}
use althea_rs.TunnelManager.Payment.{Shaper, Shaping, Bandwidth, tunnel_state_changes, got_bloat}

-- The manager, and the calls that are under way.
pub record World : Type 0 where
  pub manager : TunnelManager
  pub pending : List Call

abbrev pub world : TunnelManager → List Call → World
world m calls = record { manager = m; pending = calls }

-- The two actions that `DebtKeeper` sends.
abbrev pub is_billing : TunnelAction → Bool
is_billing membership_confirmed = false
is_billing membership_expired = false
is_billing payment_overdue = true
is_billing paid_on_time = true

-- One message handled, but for peers that are given by a name, whatever the system answers: a round
-- over the peers, an identity with or without the port of a hello under way, a hello that fails, the
-- end of an attempt to unmonitor, a port that comes back, or a call that is lost. A hello is answered,
-- fails or is lost, each once.
pub data Step : World → World → Type 0 where
  inquired :
      (contacts : Bool) (system : System) (m : TunnelManager) (calls : List Call)
      → Step (world m calls) (
          world
            (neighbor_inquiry contacts system m).2
            (calls ++ (neighbor_inquiry contacts system m).1))
  contacted :
      (system : System) (now : Instant) (id : LocalIdentity) (peer : Peer) (light_client : Option ℕ)
      (m : TunnelManager) (calls : List Call)
      → Step (world m calls) (
          world
            (identity_callback system now id peer none light_client m).2
            (calls ++ (identity_callback system now id peer none light_client m).1))
  answered :
      (system : System) (now : Instant) (id : LocalIdentity) (peer : Peer) (port : ℕ)
      (light_client : Option ℕ) (m : TunnelManager) (before after : List Call)
      → Step (world m (before ++ (hello port ∷ after))) (
          world (identity_callback system now id peer (some port) light_client m).2 (
            (before ++ after)
            ++ (identity_callback system now id peer (some port) light_client m).1))
  -- A hello that fails gives its port back by the message `PortCallback`.
  failed_hello :
      (port : ℕ) (m : TunnelManager) (before after : List Call)
      → Step
          (world m (before ++ (hello port ∷ after)))
          (world m ((before ++ after) ++ (port_callback port ∷ [])))
  collected :
      (good_order late_order : Order) (now : Instant) (limit : Duration) (m : TunnelManager)
      (calls : List Call)
      → Step (world m calls) (
          world
            (trigger_gc good_order late_order now limit m).1
            (calls ++ (trigger_gc good_order late_order now limit m).0))
  closed :
      (succeeds : Bool) (t : Tunnel) (n : ℕ) (m : TunnelManager) (before after : List Call)
      → Step
          (world m (before ++ (unmonitor t n ∷ after)))
          (world m ((before ++ after) ++ unmonitored succeeds t n))
  returned :
      (port : ℕ) (m : TunnelManager) (before after : List Call)
      → Step
          (world m (before ++ (port_callback port ∷ after)))
          (world (port_returned port m) (before ++ after))
  billed :
      (shaper : Shaper) (free_tier : ℕ) (changes : List TunnelChange) (m : TunnelManager)
      (calls : List Call) (made : List Call) (shaped : List Shaping) (tunnels : Tunnels)
      → All (λ c. is_billing c.action ≡ true) changes
      → tunnel_state_changes shaper free_tier changes m.tunnels ≡ ok (made, shaped, tunnels)
      → Step (world m calls) (world (record m { tunnels = tunnels }) (calls ++ made))
  bloated :
      (bandwidth : Bandwidth) (iface : String) (m : TunnelManager) (calls : List Call)
      → Step
          (world m calls)
          (world (record m { tunnels = (got_bloat bandwidth iface m.tunnels).1 }) calls)
  lost :
      (call : Call) (m : TunnelManager) (before after : List Call)
      → Step (world m (before ++ (call ∷ after))) (world m (before ++ after))

-- From the start, with the setting of the port.
pub data Reach (wg_start_port : ℕ) : World → Type 0 where
  started : Reach wg_start_port (world (manager_new wg_start_port) [])
  next : {v w : World} → Reach wg_start_port v → Step v w → Reach wg_start_port w
