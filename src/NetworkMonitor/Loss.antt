-- ===== src/NetworkMonitor/Loss.antt =====
-- rita/src/rita_common/network_monitor/mod.rs: `RunningPacketLossStats`, and the bits that are set in
-- the window of hellos that babel reports.
use Prim.Native.Nat.{bit_and}
use althea_rs.Prelude.{
  ℕ, zero, suc, ◌+◌, ◌-◌, ◌*◌, ◌/◌, ◌%◌, ◌^◌, Bool, Option, none, some, List, [], ◌∷◌, ltb, leb,
  set, if◌then◌else◌,
}

abbrev pub sample_period : ℕ
sample_period = 5

abbrev pub samples_in_five_minutes : ℕ
samples_in_five_minutes = 60

-- The loop, by the rounds that are left: from the bit `i` down, with `i` below 16.
unfoldable pub count_bits : ℕ → ℕ → ℕ → ℕ → ℕ → ℕ
count_bits zero sample i mask total_set_bits = total_set_bits
count_bits (suc rounds) sample i mask total_set_bits =
    count_bits rounds sample (i - 1) (mask / 2)
      ((total_set_bits + bit_and sample mask / 2 ^ i % 2 ^ 8) % 2 ^ 8)

-- `none` is the assertion that fails.
unfoldable pub get_first_n_set_bits : ℕ → ℕ → Option ℕ
unfolding count_bits
get_first_n_set_bits sample n =
    if leb n 16 then some (count_bits n sample 15 0b1000_0000_0000_0000 0) else none

-- The packets that a sample lost; `none` also where the difference would be negative.
unfoldable pub lost_of : ℕ → Option ℕ
unfolding get_first_n_set_bits
lost_of sample = elim (get_first_n_set_bits sample sample_period) [
  | none ↦ none
  | some bits ↦ if leb bits sample_period then some (sample_period - bits) else none
]

unfoldable pub has_packet_loss : ℕ → Option Bool
unfolding lost_of
has_packet_loss sample = elim (lost_of sample) [
  | none ↦ none
  | some lost_packets ↦ some (ltb 0 lost_packets)
]

pub record RunningPacketLossStats : Type 0 where
  pub five_minute_loss : List ℕ
  pub front : ℕ
  pub total_packets : ℕ  -- u32
  pub total_lost : ℕ  -- u32

abbrev pub zeros : ℕ → List ℕ
zeros zero = []
zeros (suc n) = 0 ∷ zeros n

unfoldable pub new_loss_stats : RunningPacketLossStats
new_loss_stats = record {
  five_minute_loss = zeros samples_in_five_minutes;
  front = 0;
  total_packets = 0;
  total_lost = 0;
}

-- The change for a number of lost packets.
unfoldable pub add_lost : ℕ → RunningPacketLossStats → RunningPacketLossStats
add_lost lost_packets s = record {
  five_minute_loss = set s.five_minute_loss s.front lost_packets;
  front = (s.front + 1) % samples_in_five_minutes;
  total_packets = (s.total_packets + sample_period) % 2 ^ 32;
  total_lost = (s.total_lost + lost_packets) % 2 ^ 32;
}

unfoldable pub add_sample : ℕ → RunningPacketLossStats → Option RunningPacketLossStats
unfolding lost_of add_lost
add_sample sample s = elim (lost_of sample) [
  | none ↦ none
  | some lost_packets ↦ some (add_lost lost_packets s)
]

-- `get_avg`, as the two numbers that are divided.
unfoldable pub get_avg : RunningPacketLossStats → Option (ℕ × ℕ)
get_avg s = if ltb 0 s.total_packets then some (s.total_lost, s.total_packets) else none

unfoldable pub sum : List ℕ → ℕ
sum [] = 0
sum (x ∷ xs) = x + sum xs

-- `get_five_min_average`, as the two numbers that are divided.
unfoldable pub get_five_min_average : RunningPacketLossStats → ℕ × ℕ
unfolding sum
get_five_min_average s = (sum s.five_minute_loss, samples_in_five_minutes * sample_period)
