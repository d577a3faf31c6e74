-- ===== src/PaymentValidator/Judging.antt =====
-- rita/src/rita_common/payment_validator/mod.rs: what the answer of a full node about a transaction
-- leads to. The requests that it sends back to the actor are values, which the actor may handle
-- later and in any order.
use althea_rs.Prelude.{
  ℕ, ◌-◌, Bool, true, false, Option, none, some, List, [], ◌∷◌, ◌++◌, ◌==◌, ltb, leb, if◌then◌else◌,
}
use althea_rs.Prelude.Outcome.{Outcome, ok, err, panic}
use althea_rs.Time.{Instant}
use althea_rs.AltheaTypes.{Identity, PaymentTx}
use althea_rs.PaymentValidator.Validator.{
  ToValidate, PaymentValidator, Error, remove, mark_checked, validate_later, validate,
}

-- The fields of web30's `TransactionResponse` that the code reads.
pub record TransactionResponse : Type 0 where
  pub to : ℕ
  pub from : ℕ
  pub value : ℕ
  pub block_number : Option ℕ

abbrev pub blocks_to_confirm : ℕ
blocks_to_confirm = 4

abbrev pub blocks_to_old : ℕ
blocks_to_old = 1440

unfoldable pub payment_in_chain : ℕ → Option ℕ → Bool
payment_in_chain chain_height none = false
payment_in_chain chain_height (some tx_block) =
    if ltb chain_height tx_block then false else leb blocks_to_confirm (chain_height - tx_block)

unfoldable pub payment_is_old : ℕ → Option ℕ → Bool
payment_is_old chain_height none = false
payment_is_old chain_height (some tx_block) =
    if ltb chain_height tx_block then false else ltb blocks_to_old (chain_height - tx_block)

-- What is sent to `DebtKeeper` and `UsageTracker`.
pub data Message : Type 0 where
  payment_received payment_succeeded : Identity → ℕ → Message
  update_payments : PaymentTx → Message

-- A message `Remove` with what its sender does if the answer is `Ok`.
pub record Removal : Type 0 where
  pub tx : ToValidate
  pub success : Bool
  pub on_ok : List Message

-- The `match` on `(to_us, from_us, is_in_chain)`.
unfoldable pub settle : ToValidate → Bool → Bool → Bool → Option Removal
settle ts true false true = some record {
  tx = ts;
  success = true;
  on_ok = payment_received ts.payment.from ts.payment.amount ∷ update_payments ts.payment ∷ [];
}
settle ts false true true = some record {
  tx = ts;
  success = true;
  on_ok = payment_succeeded ts.payment.to ts.payment.amount ∷ update_payments ts.payment ∷ [];
}
settle ts true true _ = some record { tx = ts; success = false; on_ok = [] }
settle ts false false _ = some record { tx = ts; success = false; on_ok = [] }
settle ts true false false = none
settle ts false true false = none

-- With our own address, which the settings have where this does not panic.
unfoldable pub handle_tx_messaging : ℕ → TransactionResponse → ToValidate → ℕ → Option Removal
handle_tx_messaging our_address transaction ts current_block =
    let rejected : Option Removal = some (record { tx = ts; success = false; on_ok = [] }) in
    if transaction.value == ts.payment.amount
    then (if payment_is_old current_block transaction.block_number
        then rejected
        else settle ts (transaction.to == our_address) (transaction.from == our_address)
            (payment_in_chain current_block transaction.block_number))
    else rejected

-- What `validate_transaction` sends to the actor: `Checked`, and a removal.
pub data Queued : Type 0 where
  check : ToValidate → Queued
  removal : Removal → Queued

abbrev pub queue_removal : Option Removal → List Queued
queue_removal none = []
queue_removal (some r) = removal r ∷ []

-- `validate_transaction` on the answer of the full node: the block height and the transaction, if
-- it knows it; `none` for a failure or a timeout. Without an own address the panic of
-- `handle_tx_messaging` comes after the first message.
unfoldable pub validate_transaction :
    Option ℕ
    → ToValidate
    → Option (ℕ × Option TransactionResponse)
    → Outcome Error (Unit {0}) × List Queued
unfolding handle_tx_messaging
validate_transaction our_address ts none = (ok tt, [])
validate_transaction our_address ts (some (block_num, tx_status)) =
    let checks = if ts.checked then [] else check ts ∷ [] in
    elim tx_status [
      | none ↦ (ok tt, checks)
      | some transaction ↦ elim our_address [
        | none ↦ (panic, checks)
        | some address ↦
            (ok tt, checks ++ queue_removal (handle_tx_messaging address transaction ts block_num))
      ]
    ]

-- The actor handles a request, and the sender of a removal its answer.
unfoldable pub handle_queued : Queued → PaymentValidator → List Message × PaymentValidator
handle_queued (check ts) v = ([], mark_checked ts v)
handle_queued (removal r) v =
    let (answer, v') = remove r.tx r.success v in
    (elim answer [ ok _ ↦ r.on_ok | err _ ↦ [] | panic ↦ [] ], v')

-- Everything that reaches the actor, with the time at which `Validate` runs. What a `Validate` asks full
-- nodes comes back as queued requests, in any order.
pub data Event : Type 0 where
  later : ToValidate → Event
  queued : Queued → Event
  validated : Instant → Event

unfoldable pub handle : Event → PaymentValidator → List Message × PaymentValidator
unfolding validate
handle (later ts) v = ([], validate_later ts v)
handle (queued q) v = handle_queued q v
handle (validated now) v = ([], (validate now v).1)

-- A run over any messages in any order, with what it makes the actors send.
unfoldable pub run : List Event → PaymentValidator → List Message × PaymentValidator
run [] v = ([], v)
run (e ∷ es) v = let (sent, v') = handle e v in let (more, last) = run es v' in (sent ++ more, last)
