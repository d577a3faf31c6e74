-- ===== src/NetworkMonitor/Tests.antt =====
-- Samples of the network monitor, and instances of its theorems.
use althea_rs.Prelude.{
  ℕ, ◌+◌, ◌-◌, ◌*◌, ◌/◌, ◌^◌, ◌≡◌, refl, true, none, some, List, [], ◌∷◌, ◌++◌, map, ltb, ◌%◌,
}
use althea_rs.Prelude.Maps.{get, insert}
use althea_rs.Float32.{Float32}
use althea_rs.BabelMonitor.Records.{Neighbor as BabelNeighbor, v6}
use althea_rs.TunnelManager.Contact.{Neighbor}
use althea_rs.TrafficWatcher.Keys.{name_key}
use althea_rs.NetworkMonitor.Latency.{is_bloated, reset, add_sample}
use althea_rs.NetworkMonitor.Loss.{
  get_first_n_set_bits, has_packet_loss, zeros, sum, new_loss_stats, get_five_min_average,
  RunningPacketLossStats,
}
use althea_rs.NetworkMonitor.Monitor.{
  Latencies, judge_latency, get_wg_key_by_ifname, observe_latency,
}
use althea_rs.NetworkMonitor.BitCount.{ones, get_first_n_set_bits-ones}
use althea_rs.NetworkMonitor.Windows.{drop, lost, add_all, add_all-window}

-- `test_get_first_n_set_bits`, `..._limit` and `..._lower_longer_range`
first_five : get_first_n_set_bits 0b1110_0000_0000_0000 5 ≡ some 3
unfolding get_first_n_set_bits
first_five = refl

all_five : get_first_n_set_bits 0b1111_1100_0000_0000 5 ≡ some 5
unfolding get_first_n_set_bits
all_five = refl

lower_bits : get_first_n_set_bits 0b1110_0000_0000_1100 16 ≡ some 5
unfolding get_first_n_set_bits
lower_bits = refl

too_many : get_first_n_set_bits 0b1110_0000_0000_1100 32 ≡ none
unfolding get_first_n_set_bits
too_many = refl

loses : has_packet_loss 0b1110_1000_0000_0000 ≡ some true
unfolding has_packet_loss
loses = refl

get_first_n_set_bits-ones_example :
    get_first_n_set_bits 0b1110_0000_0000_1100 5 ≡ some (ones 5 (0b1110_0000_0000_1100 / 2 ^ 11))
get_first_n_set_bits-ones_example = get_first_n_set_bits-ones 0b1110_0000_0000_1100 5

abbrev samples : List ℕ
samples = 0b1110_0000_0000_0000 ∷ 0xffff ∷ []

add_all-window_example :
    (s : RunningPacketLossStats) × (add_all samples new_loss_stats ≡ some s)
    × (get_five_min_average s ≡ (sum (drop 2 (zeros 60 ++ map lost samples)), 300))
    × (s.total_lost ≡ sum (map lost samples) % 2 ^ 32)
    × (s.total_packets ≡ 5 * 2 % 2 ^ 32)
add_all-window_example = add_all-window samples

-- Whole numbers for floats.
abbrev whole : Float32
whole = record {
  F = ℕ;
  from_ℕ = λ n. n;
  plus = ◌+◌;
  minus = ◌-◌;
  times = ◌*◌;
  divided = ◌/◌;
  less = ltb;
}

abbrev neigh : BabelNeighbor whole
neigh = record {
  id = "14f19a8";
  address = v6 1;
  iface = "wg0";
  reach = 0xffff;
  txcost = 256;
  rxcost = 256;
  rtt = 26;
  rttcost = 912;
  cost = 1168;
}

abbrev peer : Neighbor
peer = record {
  identity = record {
    wg_port = 60000;
    have_tunnel = some true;
    global = record { mesh_ip = 3; eth_address = 1; wg_public_key = 9; nickname = none };
  };
  iface_name = "wg0";
  tunnel_ip = 7;
  speed_limit = none;
}

-- A name is found inside a longer one: the peer on wg01 stands for the one on wg0.
other_interface :
    get_wg_key_by_ifname whole neigh (record peer { iface_name = "wg01" } ∷ []) ≡ some 9
unfolding get_wg_key_by_ifname
other_interface = refl

-- Three samples with a great variance.
abbrev history : Latencies whole
history = ("wg0", record { count = 3; mean = 20; m2 = 1000 }) ∷ []

reported : (observe_latency whole (neigh ∷ neigh ∷ []) (peer ∷ []) history).0 ≡ "wg0" ∷ []
unfolding observe_latency judge_latency is_bloated get_wg_key_by_ifname reset add_sample get insert
reported = refl
