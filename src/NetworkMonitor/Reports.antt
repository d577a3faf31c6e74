-- ===== src/NetworkMonitor/Reports.antt =====
-- rita/src/rita_common/network_monitor/mod.rs: how often a connection can be reported as bloated.
use Prim.Native.String.{String}
use text.Mathlib.Text.{◌==◌ as str_eq}
use text.Mathlib.TextEquality.{eq_iff}
use althea_rs.Prelude.{
  ℕ, ◌+◌, ◌*◌, ◌≡◌, ◌≤◌, ◌<◌, refl, ap, Bool, true, false, List, [], ◌∷◌, arith, inl, inr,
  Bool-cases, if◌then◌else◌,
}
use althea_rs.Prelude.Maps.{insert, get-insert}
use althea_rs.Float32.{Float32}
use althea_rs.BabelMonitor.Records.{Neighbor as BabelNeighbor}
use althea_rs.TunnelManager.Contact.{Neighbor}
use althea_rs.TrafficWatcher.Keys.{name_key}
use althea_rs.NetworkMonitor.Latency.{RunningLatencyStats, is_bloated, reset, add_sample}
use althea_rs.NetworkMonitor.Monitor.{Latencies, entry_of, judge_latency, observe_latency}

-- How often a name is listed.
abbrev pub times : String → List String → ℕ
times q [] = 0
times q (iface ∷ names) = (if str_eq iface q then 1 else 0) + times q names

nothing : (b : Bool) (n : ℕ) → 3 * (if b then 0 else 0) + n ≤ 0 + n
nothing true n = omega arith
nothing false n = omega arith

module _ (float : Float32) where
  -- How often an interface is among the neighbours.
  abbrev pub rounds_of : String → List (BabelNeighbor float) → ℕ
  rounds_of q [] = 0
  rounds_of q (neigh ∷ neighbors) = (if str_eq neigh.iface q then 1 else 0) + rounds_of q neighbors

  abbrev pub samples_of : String → Latencies float → ℕ
  samples_of q latency_history = (entry_of float q latency_history).count

  bloated-count : (s : RunningLatencyStats float) → is_bloated float s ≡ true → 2 < s.count
  unfolding is_bloated
  bloated-count s h = ground arith

  count-add_sample :
      (sample : float.F) (s : RunningLatencyStats float)
      → (add_sample float sample s).count ≤ s.count + 1
  unfolding add_sample
  count-add_sample sample s = omega arith

  -- A report needs three samples, and leaves one.
  judge_latency-count :
      (neigh : BabelNeighbor float) (rita_neighbors : List Neighbor) (s : RunningLatencyStats float)
      → let (bloated, s') = judge_latency float neigh rita_neighbors s in
        3 * (if bloated then 1 else 0) + s'.count ≤ 1 + s.count
  unfolding judge_latency reset
  judge_latency-count neigh rita_neighbors s = ground (
    arith,
    bloated-count s,
    count-add_sample neigh.rtt s,
    count-add_sample neigh.rtt (reset float s),
  )

  samples_of-insert :
      (q iface : String) (s : RunningLatencyStats float) (latency_history : Latencies float)
      → samples_of q (insert iface s latency_history)
        ≡ (if str_eq iface q then s.count else samples_of q latency_history)
  samples_of-insert q iface s latency_history = ground (arith, get-insert iface q s latency_history)

  times-listed :
      (q iface : String) (sent : List String) (bloated : Bool)
      → times q (if bloated then iface ∷ sent else sent)
        ≡ (if bloated then (if str_eq iface q then 1 else 0) else 0) + times q sent
  times-listed q iface sent true = refl
  times-listed q iface sent false = omega arith

  -- One turn of the loop, for any interface.
  turn :
      (q : String) (neigh : BabelNeighbor float) (rita_neighbors : List Neighbor)
      (latency_history : Latencies float)
      → let (bloated, s) =
          judge_latency float neigh rita_neighbors (entry_of float neigh.iface latency_history) in
        3 * (if bloated then (if str_eq neigh.iface q then 1 else 0) else 0)
          + samples_of q (insert neigh.iface s latency_history)
        ≤ (if str_eq neigh.iface q then 1 else 0) + samples_of q latency_history
  turn q neigh rita_neighbors latency_history =
      let old = entry_of float neigh.iface latency_history in
      let (bloated, s) = judge_latency float neigh rita_neighbors old in
      elim (Bool-cases (str_eq neigh.iface q)) [
        | inl same ↦
            let here : samples_of neigh.iface latency_history ≡ samples_of q latency_history =
              ap (λ i. samples_of i latency_history) ((eq_iff neigh.iface q).0 same) in
            let after : samples_of q (insert neigh.iface s latency_history) ≡ s.count =
              rw same at (samples_of-insert q neigh.iface s latency_history) in
            rw (same, after) (omega (arith, here, judge_latency-count neigh rita_neighbors old))
        | inr other ↦
            let after : samples_of q (insert neigh.iface s latency_history)
                ≡ samples_of q latency_history =
              rw other at (samples_of-insert q neigh.iface s latency_history) in
            rw (other, after) (nothing bloated (samples_of q latency_history))
      ]

  -- Over any number of rounds, whatever the round trip times are, an interface is reported as bloated
  -- at most once for three of its samples, those that were there at the start included.
  pub observe_latency-rare :
      (q : String) (babel_neighbors : List (BabelNeighbor float)) (rita_neighbors : List Neighbor)
      (latency_history : Latencies float)
      → let (sent, last) = observe_latency float babel_neighbors rita_neighbors latency_history in
        3 * times q sent + samples_of q last
        ≤ rounds_of q babel_neighbors + samples_of q latency_history
  unfolding observe_latency
  observe_latency-rare q [] rita_neighbors latency_history = omega arith
  observe_latency-rare q (neigh ∷ babel_neighbors) rita_neighbors latency_history =
      let (bloated, s) =
        judge_latency float neigh rita_neighbors (entry_of float neigh.iface latency_history) in
      let (sent, last) =
        observe_latency float babel_neighbors rita_neighbors
          (insert neigh.iface s latency_history) in
      omega (
        arith,
        turn q neigh rita_neighbors latency_history,
        times-listed q neigh.iface sent bloated,
        observe_latency-rare q babel_neighbors rita_neighbors
            (insert neigh.iface s latency_history),
      )
