-- ===== src/NetworkMonitor/Latency.antt =====
-- rita/src/rita_common/network_monitor/mod.rs: `RunningLatencyStats`.
use althea_rs.Prelude.{ℕ, ◌+◌, ◌%◌, ◌^◌, Bool, false, Option, none, some, ltb, if◌then◌else◌}
use althea_rs.Float32.{Float32}

module _ (float : Float32) where
  open float use {F, from_ℕ, plus, minus, times, divided, less}

  pub record RunningLatencyStats : Type 0 where
    pub count : ℕ  -- u32
    pub mean : F
    pub m2 : F

  unfoldable pub new_latency_stats : RunningLatencyStats
  new_latency_stats = record { count = 0; mean = from_ℕ 0; m2 = from_ℕ 0 }

  unfoldable pub get_avg : RunningLatencyStats → Option F
  get_avg s = if ltb 2 s.count then some s.mean else none

  unfoldable pub get_std_dev : RunningLatencyStats → Option F
  get_std_dev s = if ltb 2 s.count then some (divided s.m2 (from_ℕ s.count)) else none

  unfoldable pub add_sample : F → RunningLatencyStats → RunningLatencyStats
  add_sample sample s =
      let count = (s.count + 1) % 2 ^ 32 in
      let delta = minus sample s.mean in
      let mean = plus s.mean (divided delta (from_ℕ count)) in
      let delta2 = minus sample mean in
      record { count = count; mean = mean; m2 = plus s.m2 (times delta delta2) }

  unfoldable pub is_bloated : RunningLatencyStats → Bool
  unfolding get_avg get_std_dev
  is_bloated s = elim (get_avg s) [
    | none ↦ false
    | some avg ↦ elim (get_std_dev s) [
      | none ↦ false
      | some std_dev ↦ less (times avg (from_ℕ 10)) std_dev
    ]
  ]

  unfoldable pub reset : RunningLatencyStats → RunningLatencyStats
  reset s = record s { count = 0; mean = from_ℕ 0; m2 = from_ℕ 0 }
