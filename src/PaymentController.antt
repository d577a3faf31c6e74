-- ===== src/PaymentController.antt =====
-- rita/src/rita_common/payment_controller/mod.rs: the payment of a neighbour, and the retries of its
-- notification. What connections, the full node and the neighbour answer is an argument; which full
-- node is asked makes no difference here. Messages to actors are listed in the order of sending.
pub mod Outcomes
pub mod Resend
pub mod Validated
mod Tests
use althea_rs.Prelude.{
  ℕ, ◌+◌, ◌-◌, ◌<◌, Bool, true, false, Option, none, some, List, [], ◌∷◌, ◌++◌, ltb, leb, ◌==◌,
  ◌&&◌, if◌then◌else◌,
}
use althea_rs.Prelude.Outcome.{Outcome, ok, err, panic}
use althea_rs.AltheaTypes.{Identity, PaymentTx}
use althea_rs.Settings.{PaymentSettings}
use althea_rs.Time.{Instant}
use althea_rs.PaymentValidator.Validator.{ToValidate}

-- `MAX_TXID_RETRIES`
abbrev pub max_txid_retries : ℕ
max_txid_retries = 15

-- `clarity::Transaction`, without the fields that are always the same.
pub record Transaction : Type 0 where
  pub nonce : ℕ
  pub gas_price : ℕ
  pub to : ℕ
  pub value : ℕ

-- What is used of the crate clarity: the signature by a key for a network, as bytes.
pub record Clarity : Type 0 where
  pub sign_to_bytes : Transaction → ℕ → Option ℕ → Option (List ℕ)

-- What the network answers to one attempt: whether the neighbour takes a connection, the txid that
-- the full node gives for the bytes of a transaction, and the status that the neighbour answers.
pub record Network : Type 0 where
  pub connected : Bool
  pub eth_send_raw_transaction : List ℕ → Option ℕ
  pub acknowledged : Option ℕ

pub data Error : Type 0 where
  not_enough_money zero_payment no_socket no_bytes : Error

pub record ResendInfo : Type 0 where
  pub txid : ℕ
  pub pmt : PaymentTx
  pub attempt : ℕ

-- The messages that the controller sends.
pub data Message : Type 0 where
  payment_failed : Identity → Message
  resend : ResendInfo → Message
  validate_later : ToValidate → Message
  update_nonce : Message

-- `StatusCode::is_success`
abbrev pub is_success : ℕ → Bool
is_success status = leb 200 status && ltb status 300

-- The chain of futures, with whether it raises the nonce of the settings, as they are then, by one.
unfoldable pub notify : Network → Instant → ℕ → PaymentTx → List Message × Bool
notify network now tx_id pmt =
    let again = resend (record { txid = tx_id; pmt = pmt; attempt = 0 }) in
    let later = validate_later (record { payment = pmt; recieved = now; checked = false }) in
    elim network.acknowledged [
      | none ↦ (again ∷ [], false)
      | some status ↦ (if is_success status then later ∷ [] else again ∷ (later ∷ []), true)
    ]

unfoldable pub futures_chain : Network → Instant → List ℕ → PaymentTx → List Message × Bool
futures_chain network now transaction_bytes pmt =
    let failed = payment_failed pmt.to in
    if network.connected
    then (elim (network.eth_send_raw_transaction transaction_bytes) [
      | none ↦ (update_nonce ∷ (failed ∷ []), false)
      | some tx_id ↦ notify network now tx_id (record pmt { txid = some tx_id })
    ])
    else (failed ∷ [], false)

module _ (clarity : Clarity) (has_socket : Identity → Bool) where
  open clarity use {sign_to_bytes}

  abbrev pub transaction : PaymentSettings → PaymentTx → Transaction
  transaction settings pmt = record {
    nonce = settings.nonce;
    gas_price = settings.gas_price;
    to = pmt.to.eth_address;
    value = pmt.amount;
  }

  -- `make_payment`, up to the chain that it spawns.
  unfoldable pub make_payment : PaymentSettings → PaymentTx → Outcome Error (List ℕ)
  make_payment settings pmt = elim settings.eth_address [
    | none ↦ panic
    | some our_address ↦
        if ltb settings.balance pmt.amount
        then err not_enough_money
        else (if pmt.amount == 0
            then err zero_payment
            else (if has_socket pmt.to
                then (elim settings.eth_private_key [
                  | none ↦ panic
                  | some key ↦
                      elim (sign_to_bytes (transaction settings pmt) key settings.net_version) [
                        | none ↦ err no_bytes
                        | some bytes ↦ ok bytes
                      ]
                ])
                else err no_socket))
  ]

  -- `Handler<MakePayment>`, with what the spawned chain does.
  unfoldable pub handle_make_payment :
      PaymentSettings → Network → Instant → PaymentTx → Outcome Error (List Message × Bool)
  handle_make_payment settings network now pmt = elim (make_payment settings pmt) [
    | panic ↦ panic
    | err e ↦ ok (payment_failed pmt.to ∷ [], false)
    | ok bytes ↦ ok (futures_chain network now bytes pmt)
  ]

-- `resend_txid`; the attempt is a `u8`.
unfoldable pub resend_txid : Network → ResendInfo → Outcome Error (List Message)
resend_txid network input =
    let attempt = input.attempt + 1 in
    let again = resend (record input { attempt = attempt }) ∷ [] in
    if ltb 255 attempt
    then panic
    else (if ltb max_txid_retries attempt
        then ok []
        else (if network.connected
            then (elim network.acknowledged [
              | none ↦ ok again
              | some status ↦ ok (if is_success status then [] else again)
            ])
            else ok again))
