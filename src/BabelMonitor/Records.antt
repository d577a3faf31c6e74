-- ===== src/BabelMonitor/Records.antt =====
-- babel_monitor/src/lib.rs: routes and neighbours. An address is the number that its bytes spell;
-- round trip times are of the type of floats.
use Prim.Native.String.{String}
use althea_rs.Prelude.{ℕ, Bool, false, ◌==◌}
use althea_rs.Float32.{Float32}

pub data IpAddr : Type 0 where
  v4 v6 : ℕ → IpAddr

-- `PartialEq` of `IpAddr`
abbrev pub ip_eq : IpAddr → IpAddr → Bool
ip_eq (v4 a) (v4 b) = a == b
ip_eq (v6 a) (v6 b) = a == b
ip_eq (v4 a) (v6 b) = false
ip_eq (v6 a) (v4 b) = false

-- An address and the length of its prefix.
pub data IpNetwork : Type 0 where
  net4 net6 : ℕ → ℕ → IpNetwork

module _ (float : Float32) where
  open float use {F}

  pub record Route : Type 0 where
    pub id : String
    pub iface : String
    pub xroute : Bool
    pub installed : Bool
    pub neigh_ip : IpAddr
    pub prefix : IpNetwork
    pub metric : ℕ  -- u16
    pub refmetric : ℕ  -- u16
    pub full_path_rtt : F
    pub price : ℕ  -- u32
    pub fee : ℕ  -- u32

  pub record Neighbor : Type 0 where
    pub id : String
    pub address : IpAddr
    pub iface : String
    pub reach : ℕ  -- u16
    pub txcost : ℕ  -- u16
    pub rxcost : ℕ  -- u16
    pub rtt : F
    pub rttcost : ℕ  -- u16
    pub cost : ℕ  -- u16
