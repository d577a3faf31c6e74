-- ===== src/DaoManager.antt =====
-- rita/src/rita_common/dao_manager/mod.rs: the fee that is paid to the addresses of the subnet DAO.
pub mod Payments
mod Tests
use althea_rs.Prelude.{
  ℕ, ◌+◌, ◌-◌, ◌*◌, ◌/◌, Bool, true, false, not, Option, none, some, List, [], ◌∷◌, ◌&&◌,
  if◌then◌else◌,
}
use althea_rs.Prelude.Int.{ℤ, pos, ltb_ℤ, nat_abs}
use althea_rs.Prelude.Outcome.{Outcome, ok, panic}
use althea_rs.Num256.{Num256}
use althea_rs.AltheaTypes.{Identity, PaymentTx}
use althea_rs.Settings.{PaymentSettings}
use althea_rs.Time.{Instant}
use althea_rs.PaymentController.{Transaction, Clarity}

pub record DaoManager : Type 0 where
  pub last_payment_time : Instant

-- `Handler<SuccessfulPayment>::handle`
unfoldable pub successful_payment : Instant → DaoManager → DaoManager
successful_payment now m = record m { last_payment_time = now }

-- What a tick hands to a full node: a signed transaction for an address, and its amount.
pub record Order : Type 0 where
  pub transaction : Transaction
  pub bytes : List ℕ
  pub amount : ℕ

pub data Message : Type 0 where
  update_payments : PaymentTx → Message
  add_tx_to_total : ℕ → Message
  successful : Message

-- The identity that stands for an address; the key and the address ::1 are constants.
unfoldable pub dao_identity : ℕ → ℕ → Identity
dao_identity key address = record {
  mesh_ip = 1;
  eth_address = address;
  wg_public_key = key;
  nickname = none;
}

-- What follows an order, by the txid that the full node answers.
unfoldable pub settle : ℕ → Identity → Order → Option ℕ → List Message
unfolding dao_identity
settle key our_id order none = []
settle key our_id order (some txid) =
    update_payments (record {
      to = dao_identity key order.transaction.to;
      from = our_id;
      amount = order.amount;
      txid = some txid;
    })
    ∷ add_tx_to_total order.amount
    ∷ successful
    ∷ []

unfoldable pub dao_transaction : PaymentSettings → ℕ → ℕ → Transaction
dao_transaction settings amount address = record {
  nonce = settings.nonce;
  gas_price = settings.gas_price;
  to = address;
  value = amount;
}

module _ (num : Num256) (clarity : Clarity) (settings : PaymentSettings) where
  open num use {int256, to_int256, to_uint256}

  -- The loop over the addresses; a transaction without bytes ends it.
  unfoldable pub pay_all : List ℕ → Outcome (Unit {0}) (Unit {0}) × List Order
  unfolding dao_transaction
  pay_all [] = (ok tt, [])
  pay_all (address ∷ addresses) =
      let (r, orders) = pay_all addresses in
      elim (to_uint256 (pos (nat_abs settings.pay_threshold))) [
        | none ↦ (ok tt, [])
        | some amount ↦ elim settings.eth_private_key [
          | none ↦ (panic, [])
          | some eth_private_key ↦
              let tx = dao_transaction settings amount address in
              elim (clarity.sign_to_bytes tx eth_private_key settings.net_version) [
                | none ↦ (ok tt, [])
                | some bytes ↦
                    (r, record { transaction = tx; bytes = bytes; amount = amount } ∷ orders)
              ]
        ]
      ]

  -- `Handler<Tick>::handle`; the time since the last payment counts in whole seconds.
  unfoldable pub handle_tick :
      Option Identity
      → List ℕ
      → ℕ
      → Instant
      → DaoManager
      → Outcome (Unit {0}) (Unit {0}) × List Order
  unfolding pay_all
  handle_tick none dao_addresses dao_fee now m = (ok tt, [])
  handle_tick (some our_id) dao_addresses dao_fee now m = elim (to_int256 dao_fee) [
    | none ↦ (ok tt, [])
    | some fee ↦ elim (int256 (pos ((now - m.last_payment_time) / 1_000_000_000 * nat_abs fee))) [
      | none ↦ (panic, [])
      | some owed ↦ if ltb_ℤ settings.pay_threshold owed then pay_all dao_addresses else (ok tt, [])
    ]
  ]
