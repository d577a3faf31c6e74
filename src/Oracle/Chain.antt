-- ===== src/Oracle/Chain.antt =====
-- rita/src/rita_common/oracle/mod.rs: what the answers of a full node change in the payment
-- settings. The requests are made through the crate web30; their answers are arguments.
use althea_rs.Prelude.{
  List, [], ◌∷◌, ℕ, zero, suc, ◌+◌, ◌*◌, ◌/◌, ◌-◌, Bool, not, Option, none, some, ltb, leb, ◌==◌,
  ◌&&◌, if◌then◌else◌,
}
use althea_rs.Prelude.Int.{ℤ, pos, negsuc, pos_part}
use althea_rs.Prelude.Outcome.{Outcome, ok, panic, Action, unwrap, modify, gets, pure, ◌>>=◌, ◌>>◌}
use althea_rs.Num256.{Num256}
use althea_rs.Settings.{PaymentSettings}
use althea_rs.Time.{Instant, Duration, from_secs}

pub record Oracle : Type 0 where
  pub zero_window : Option Instant

unfoldable pub default : Oracle
default = record { zero_window = none }

abbrev pub zero_window_time : Duration
zero_window_time = from_secs 300

-- `Handler<ZeroWindowStart>::handle`
unfoldable pub zero_window_start : Instant → Oracle → Oracle
zero_window_start now o = record o { zero_window = some now }

-- The payment settings, with the fields that only the gas price needs.
pub record GasSettings : Type 0 where
  pub payment : PaymentSettings
  pub dynamic_fee_multiplier : ℕ  -- u32
  pub min_gas : ℕ  -- u64
  pub max_gas : ℕ  -- u64

unfoldable pub update_balance : Instant → Option Instant → ℕ → ℕ → ℕ
update_balance now zero_window our_balance new_balance =
    let zeroed = not (our_balance == 0) && new_balance == 0 in
    if zeroed
    then (elim zero_window [
      | none ↦ our_balance
      | some time ↦ if leb (now - time) zero_window_time then new_balance else our_balance
    ])
    else new_balance

-- The answer is a text: its number, if it spells one.
unfoldable pub get_net_version : Option ℕ → Option ℕ → Option ℕ
get_net_version net_version none = net_version
get_net_version none (some net_id_num) = some net_id_num
get_net_version (some known) (some net_id_num) = some known

unfoldable pub update_nonce : ℕ → ℕ → ℕ
update_nonce transaction_count nonce = transaction_count

-- Minus four times a number that need not be positive.
abbrev pub minus_four_times : ℤ → ℤ
minus_four_times (pos zero) = pos 0
minus_four_times (pos (suc n)) = negsuc (4 * n + 3)
minus_four_times (negsuc n) = pos (4 * (n + 1))

abbrev pub clamped : ℕ → ℕ → ℕ → ℕ
clamped min_gas max_gas value =
    if ltb value min_gas then min_gas else if ltb max_gas value then max_gas else value

-- The answers to the four requests, when all arrive.
pub record Answers : Type 0 where
  pub balance : ℕ
  pub nonce : ℕ
  pub net_version : Option ℕ
  pub gas_price : ℕ

module _ (num : Num256) where
  open num use {uint256, int256, to_int256}

  abbrev Step : Type 0 → Type 0
  Step A = Action GasSettings (Unit {0}) A

  set_gas_price : ℕ → Step (Unit {0})
  set_gas_price gas_price =
      modify λ s. record s { payment = record (s.payment) { gas_price = gas_price } }

  -- `transaction_gas * gas_price * dynamic_fee_factor`, where the gas price is an `Int256`.
  set_pay_threshold : Step (Unit {0})
  set_pay_threshold s = elim (to_int256 s.payment.gas_price) [
    | none ↦ (ok tt, s)
    | some gas_price ↦
        (do
          gas ← unwrap (int256 (pos (21000 * pos_part gas_price)))
          threshold ← λ t. unwrap (int256 (pos (pos_part gas * t.dynamic_fee_multiplier))) t
          modify λ t. record t { payment = record (t.payment) { pay_threshold = threshold } })
          s
  ]

  set_close_threshold : Step (Unit {0})
  set_close_threshold = do
    threshold ← gets (λ s. s.payment.pay_threshold)
    close ← unwrap (int256 (minus_four_times threshold))
    modify λ s. record s { payment = record (s.payment) { close_threshold = close } }

  unfoldable pub update_gas_price : ℕ → Step (Unit {0})
  unfolding set_gas_price set_pay_threshold set_close_threshold
  update_gas_price new_gas_price = do
    value ← unwrap (uint256 (new_gas_price + new_gas_price / 20))
    (λ s. set_gas_price (clamped s.min_gas s.max_gas value) s)
    set_pay_threshold
    set_close_threshold

  change_payment : (PaymentSettings → PaymentSettings) → Step (Unit {0})
  change_payment f = modify λ s. record s { payment = f s.payment }

  unfoldable pub update_blockchain_info :
      Instant → Option Instant → Option Answers → Step (Unit {0})
  unfolding change_payment
  update_blockchain_info now zero_window none = pure tt
  update_blockchain_info now zero_window (some a) = do
    change_payment λ p. record p { balance = update_balance now zero_window p.balance a.balance }
    update_gas_price a.gas_price
    change_payment λ p. record p { nonce = update_nonce a.nonce p.nonce }
    change_payment λ p. record p { net_version = get_net_version p.net_version a.net_version }

-- The two futures that an update spawns: the requests to the full node, with a zero window, and that
-- to the settings server, which is `update_oracle` of Prices. Their answers come in any order.
pub data Task : Type 0 where
  ask_node : Option Instant → Task
  ask_server : Task

-- `Handler<Update>::handle`, run at a time, which panics without an address. The window that it hands
-- on is the time at which it runs.
unfoldable pub handle_update : Oracle → Instant → PaymentSettings → Outcome (Unit {0}) (List Task)
handle_update o now settings = elim settings.eth_address [
  | none ↦ panic
  | some our_address ↦ ok (ask_node (some now) ∷ ask_server ∷ [])
]

-- `trigger_update_nonce`, with the answer of the full node.
unfoldable pub trigger_update_nonce : Option ℕ → PaymentSettings → PaymentSettings
trigger_update_nonce none settings = settings
trigger_update_nonce (some value) settings = record settings {
  nonce = update_nonce value settings.nonce;
}

unfoldable pub low_balance : ℕ → ℕ → Bool
low_balance balance balance_warning_level = ltb balance balance_warning_level
