-- ===== src/TokenBridge/Bridge.antt =====
-- rita/src/rita_common/token_bridge/mod.rs: the state of the bridge, the amounts, and what the crates
-- auto_bridge and web30 answer.
use althea_rs.Prelude.{
  ℕ, ◌-◌, ◌*◌, ◌/◌, ◌%◌, ◌^◌, Bool, true, false, Option, none, leb, ◌==◌, ◌&&◌, if◌then◌else◌,
}
use althea_rs.Num256.{Num256}
use althea_rs.Time.{Instant, Duration, from_secs, elapsed_over}

abbrev pub bridge_timeout : Duration
bridge_timeout = from_secs 3600

abbrev pub dai_wei_cent : ℕ
dai_wei_cent = 10_000_000_000_000_000

unfoldable pub is_timed_out : Instant → Instant → Bool
is_timed_out now started = elapsed_over now started bridge_timeout

-- The product is one of `u64`.
unfoldable pub eth_to_wei : ℕ → ℕ
eth_to_wei eth = eth * 1_000_000_000_000_000_000 % 2 ^ 64

abbrev wei_dai_to_dai_cents : ℕ → ℕ
wei_dai_to_dai_cents dai_wei = dai_wei / dai_wei_cent

-- A product beyond `Uint256` panics.
unfoldable pub eth_equal : Num256 → ℕ → ℕ → Option ℕ
eth_equal num dai_in_wei wei_per_cent = num.uint256 (wei_dai_to_dai_cents dai_in_wei * wei_per_cent)

-- A difference that is negative panics.
unfoldable pub minus : Num256 → ℕ → ℕ → Option ℕ
minus num a b = if leb b a then num.uint256 (a - b) else none

pub record Withdrawal : Type 0 where
  pub amount : ℕ
  pub to : ℕ
  pub timestamp : Instant
  pub withdraw_all : Bool

-- `ready_after` is `Ready` with its former state.
pub data State : Type 0 where
  ready : State
  ready_after : State → State
  depositing : State
  withdrawing : Withdrawal → State

abbrev bool_eq : Bool → Bool → Bool
bool_eq true b = b
bool_eq false true = false
bool_eq false false = true

abbrev withdrawal_eq : Withdrawal → Withdrawal → Bool
withdrawal_eq a b =
    a.amount == b.amount
    && a.to == b.to
    && a.timestamp == b.timestamp
    && bool_eq a.withdraw_all b.withdraw_all

-- The derived `PartialEq`.
unfoldable pub state_eq : State → State → Bool
state_eq ready ready = true
state_eq ready (ready_after b) = false
state_eq ready depositing = false
state_eq ready (withdrawing v) = false
state_eq (ready_after a) ready = false
state_eq (ready_after a) (ready_after b) = state_eq a b
state_eq (ready_after a) depositing = false
state_eq (ready_after a) (withdrawing v) = false
state_eq depositing ready = false
state_eq depositing (ready_after b) = false
state_eq depositing depositing = true
state_eq depositing (withdrawing v) = false
state_eq (withdrawing w) ready = false
state_eq (withdrawing w) (ready_after b) = false
state_eq (withdrawing w) depositing = false
state_eq (withdrawing w) (withdrawing v) = withdrawal_eq w v

pub data DetailedBridgeState : Type 0 where
  eth_to_dai dai_to_eth no_op : ℕ → ℕ → DetailedBridgeState
  dai_to_xdai xdai_to_dai : ℕ → DetailedBridgeState
  eth_to_dest : ℕ → ℕ → ℕ → DetailedBridgeState

pub record TokenBridge : Type 0 where
  pub state : State
  pub reserve_amount : ℕ
  pub minimum_to_exchange : ℕ
  pub minimum_stranded_dai_transfer : ℕ
  pub detailed_state : DetailedBridgeState

-- `Default`, but for the object of auto_bridge, and the assertion at the start.
unfoldable pub default_bridge : TokenBridge
default_bridge = record {
  state = ready;
  reserve_amount = 1;
  minimum_to_exchange = 2;
  minimum_stranded_dai_transfer = 1;
  detailed_state = no_op 0 0;
}

-- What the full nodes and the exchange answer to one future, with `none` or `false` for an error.
pub record Answers : Type 0 where
  pub dai_balance : Option ℕ
  pub eth_balance : Option ℕ
  pub xdai_balance : Option ℕ
  pub eth_gas_price : Option ℕ
  pub dai_to_eth_price : ℕ → Option ℕ
  pub dai_bought : ℕ → Option ℕ
  pub swaps_dai : ℕ → Bool
  pub bridges_dai : ℕ → Bool
  pub bridges_xdai : ℕ → Bool
  pub transfers : ℕ → ℕ → Bool

-- What a future does: messages to the bridge, and orders to move money, whether or not they succeed.
pub data Effect : Type 0 where
  state_change : State → Effect
  detailed_state_change : DetailedBridgeState → Effect
  dai_to_xdai_bridge xdai_to_dai_bridge eth_to_dai_swap dai_to_eth_swap : ℕ → Effect
  eth_transfer : ℕ → ℕ → Effect
