-- ===== src/NetworkMonitor/Monitor.antt =====
-- rita/src/rita_common/network_monitor/mod.rs: the actor, and `observe_network`. What is only logged,
-- `network_stats` with it, is left out.
use Prim.Native.String.{String}
use text.Mathlib.Text.{find?}
use althea_rs.Prelude.{ℕ, Bool, true, false, Option, none, some, List, [], ◌∷◌, if◌then◌else◌}
use althea_rs.Prelude.Maps.{HashMap, get, insert}
use althea_rs.Prelude.Outcome.{Outcome, ok, err}
use althea_rs.TunnelManager.Contact.{Neighbor}
use althea_rs.TrafficWatcher.Keys.{name_key}
use althea_rs.Float32.{Float32}
use althea_rs.BabelMonitor.Records.{Route, Neighbor as BabelNeighbor}
use althea_rs.NetworkMonitor.Latency.{
  RunningLatencyStats, new_latency_stats, is_bloated, reset, get_avg, get_std_dev, add_sample,
}
use althea_rs.NetworkMonitor.Loss.{RunningPacketLossStats, new_loss_stats}
use althea_rs.NetworkMonitor.Loss

-- `iface_name.contains(&iface)`
abbrev pub mentions : String → String → Bool
mentions iface_name iface = elim (find? iface_name iface) [ none ↦ false | some at ↦ true ]

module _ (float : Float32) where
  open float use {F}

  pub record NetworkInfo : Type 0 where
    pub babel_neighbors : List (BabelNeighbor float)
    pub babel_routes : List (Route float)
    pub rita_neighbors : List Neighbor

  pub record NetworkMonitor : Type 0 where
    pub latency_history : HashMap String (RunningLatencyStats float)
    pub packet_loss_history : HashMap String RunningPacketLossStats
    pub last_babel_dump : Option NetworkInfo

  unfoldable pub new_monitor : NetworkMonitor
  new_monitor = record { latency_history = []; packet_loss_history = []; last_babel_dump = none }

  unfoldable pub get_wg_key_by_ifname : BabelNeighbor float → List Neighbor → Option ℕ
  get_wg_key_by_ifname neigh [] = none
  get_wg_key_by_ifname neigh (rita_neigh ∷ rita_neighbors) =
      if mentions rita_neigh.iface_name neigh.iface
      then some rita_neigh.identity.global.wg_public_key
      else get_wg_key_by_ifname neigh rita_neighbors

  -- A turn of the first loop on the entry of its interface: whether `GotBloat` is sent, and the
  -- entry after it.
  unfoldable pub judge_latency :
      BabelNeighbor float
      → List Neighbor
      → RunningLatencyStats float
      → Bool × RunningLatencyStats float
  judge_latency neigh rita_neighbors running_stats =
      if is_bloated float running_stats
      then (elim (get_wg_key_by_ifname neigh rita_neighbors) [
        | none ↦ (false, add_sample float neigh.rtt running_stats)
        | some key ↦ (true, add_sample float neigh.rtt (reset float running_stats))
      ])
      else (false, add_sample float neigh.rtt running_stats)

  abbrev pub Latencies : Type 0
  Latencies = HashMap String (RunningLatencyStats float)

  abbrev pub entry_of : String → Latencies → RunningLatencyStats float
  entry_of iface latency_history = elim (get iface latency_history) [
    | none ↦ new_latency_stats float
    | some running_stats ↦ running_stats
  ]

  -- The first loop, with the interfaces that `GotBloat` names.
  unfoldable pub observe_latency :
      List (BabelNeighbor float) → List Neighbor → Latencies → List String × Latencies
  observe_latency [] rita_neighbors latency_history = ([], latency_history)
  observe_latency (neigh ∷ babel_neighbors) rita_neighbors latency_history =
      let (bloated, running_stats) =
        judge_latency neigh rita_neighbors (entry_of neigh.iface latency_history) in
      let (sent, last) =
        observe_latency babel_neighbors rita_neighbors
          (insert neigh.iface running_stats latency_history) in
      (if bloated then neigh.iface ∷ sent else sent, last)

  abbrev pub Losses : Type 0
  Losses = HashMap String RunningPacketLossStats

  -- The second loop; `none` is a panic.
  unfoldable pub observe_loss : List (BabelNeighbor float) → Losses → Option Losses
  observe_loss [] packet_loss_history = some packet_loss_history
  observe_loss (neigh ∷ babel_neighbors) packet_loss_history =
      let rest = λ (running_stats : RunningPacketLossStats).
        observe_loss babel_neighbors (insert neigh.iface running_stats packet_loss_history) in
      elim (Loss.add_sample neigh.reach (elim (get neigh.iface packet_loss_history) [
        | none ↦ new_loss_stats
        | some running_stats ↦ running_stats
      ])) [ none ↦ none | some running_stats ↦ rest running_stats ]

  -- `Handler<NetworkInfo>::handle`, with `observe_network`.
  unfoldable pub handle_network_info :
      NetworkInfo → NetworkMonitor → Option (List String × NetworkMonitor)
  unfolding observe_latency observe_loss
  handle_network_info msg m =
      let (sent, latency_history) =
        observe_latency msg.babel_neighbors msg.rita_neighbors m.latency_history in
      elim (observe_loss msg.babel_neighbors m.packet_loss_history) [
        | none ↦ none
        | some packet_loss_history ↦ some (
          sent,
          record {
            latency_history = latency_history;
            packet_loss_history = packet_loss_history;
            last_babel_dump = some msg;
          },
        )
      ]

  -- `Handler<GetNetworkInfo>::handle`
  unfoldable pub get_network_info : NetworkMonitor → Outcome (Unit {0}) NetworkInfo
  get_network_info m = elim (m.last_babel_dump) [ none ↦ err tt | some dump ↦ ok dump ]

  -- Averages as the numbers that are divided, where they are of counts.
  pub record IfaceStats : Type 0 where
    pub latency_avg : Option F
    pub latency_std_dev : Option F
    pub packet_loss_avg : Option (ℕ × ℕ)
    pub packet_loss_five_min_avg : ℕ × ℕ

  -- `Handler<GetStats>::handle`
  unfoldable pub get_stats :
      Latencies → Losses → HashMap String IfaceStats → HashMap String IfaceStats
  get_stats [] packet_loss_history stats = stats
  get_stats ((iface, latency_stats) ∷ latency_history) packet_loss_history stats =
      get_stats latency_history packet_loss_history (elim (get iface packet_loss_history) [
        | none ↦ stats
        | some packet_loss_stats ↦
            insert iface
              (record {
                latency_avg = get_avg float latency_stats;
                latency_std_dev = get_std_dev float latency_stats;
                packet_loss_avg = Loss.get_avg packet_loss_stats;
                packet_loss_five_min_avg = Loss.get_five_min_average packet_loss_stats;
              })
              stats
      ])
