-- ===== src/SimulatedTxfee.antt =====
-- rita/src/rita_common/simulated_txfee_manager/mod.rs: the fee on payments that is owed to the
-- maintainers, and its payment. The address of the fee, the keys of its identity and what the full
-- node answers are arguments.
pub mod Fees
mod Tests
use althea_rs.Prelude.{
  ℕ, ◌+◌, ◌-◌, ◌/◌, Option, none, some, List, [], ◌∷◌, ltb, leb, ◌==◌, if◌then◌else◌,
}
use althea_rs.Prelude.Int.{ℤ, abs}
use althea_rs.Prelude.Outcome.{Outcome, ok, err, panic}
use althea_rs.Num256.{Num256}
use althea_rs.AltheaTypes.{Identity, PaymentTx}
use althea_rs.Settings.{PaymentSettings}
use althea_rs.PaymentController.{Clarity, Transaction}

pub record SimulatedTxFeeManager : Type 0 where
  pub amount_owed : ℕ

-- `SimulatedTxFeeManager::new`
unfoldable pub new_manager : SimulatedTxFeeManager
new_manager = record { amount_owed = 0 }

-- `Handler<SuccessfulPayment>`
unfoldable pub successful_payment : ℕ → SimulatedTxFeeManager → SimulatedTxFeeManager
successful_payment payment_amount m =
    if leb payment_amount m.amount_owed
    then record { amount_owed = m.amount_owed - payment_amount }
    else m

-- The messages that a payment of the fee leads to.
pub data Message : Type 0 where
  update_payments : PaymentTx → Message
  paid : ℕ → Message

pub data Error : Type 0 where
  no_identity no_bytes : Error

module _ (num : Num256) (settings : PaymentSettings) where
  open num use {uint256, to_uint256}

  -- `Handler<AddTxToTotal>`; a division by zero panics.
  unfoldable pub add_tx_to_total : ℕ → SimulatedTxFeeManager → Option SimulatedTxFeeManager
  add_tx_to_total amount m =
      if settings.simulated_transaction_fee == 0
      then none
      else (elim (uint256 (m.amount_owed + amount / settings.simulated_transaction_fee)) [
        | none ↦ none
        | some owed ↦ some (record { amount_owed = owed })
      ])

  module _ (clarity : Clarity) (txfee_identity : Identity) where
    open clarity use {sign_to_bytes}

    -- The payment itself, with the answer of the full node to its bytes.
    unfoldable pub pay_fee : (List ℕ → Option ℕ) → Identity → ℕ → Outcome Error (List Message)
    pay_fee eth_send_raw_transaction our_id amount_to_pay =
        let tx : Transaction = record {
          nonce = settings.nonce;
          gas_price = settings.gas_price;
          to = txfee_identity.eth_address;
          value = amount_to_pay;
        } in
        elim settings.eth_private_key [
          | none ↦ panic
          | some key ↦ elim (sign_to_bytes tx key settings.net_version) [
            | none ↦ err no_bytes
            | some bytes ↦ elim (eth_send_raw_transaction bytes) [
              | none ↦ ok []
              | some txid ↦ ok (
                  update_payments (record {
                    to = txfee_identity;
                    from = our_id;
                    amount = amount_to_pay;
                    txid = some txid;
                  })
                  ∷ (paid amount_to_pay ∷ []))
            ]
          ]
        ]

    -- `Handler<Tick>`
    unfoldable pub tick :
        (List ℕ → Option ℕ) → Option Identity → SimulatedTxFeeManager → Outcome Error (List Message)
    unfolding pay_fee
    tick eth_send_raw_transaction identity m = elim identity [
      | none ↦ err no_identity
      | some our_id ↦ elim (to_uint256 (abs settings.pay_threshold)) [
        | none ↦ panic
        | some threshold ↦
            if ltb threshold m.amount_owed
            then pay_fee eth_send_raw_transaction our_id m.amount_owed
            else ok []
      ]
    ]
