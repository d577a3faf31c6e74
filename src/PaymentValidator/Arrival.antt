-- ===== src/PaymentValidator/Arrival.antt =====
-- rita/src/rita_common/payment_validator/mod.rs: how a claimed payment enters, and when the answer of
-- a full node credits it.
use althea_rs.Prelude.{
  ℕ, ◌+◌, ◌≤◌, ◌≡◌, ◌≢◌, refl, ◌∙◌, ◌⊎◌, Bool, true, false, ◌||◌, some, [], ◌∷◌, arith, inl, inr,
}
use althea_rs.Prelude.Sets.{contains, contains-add}
use althea_rs.Time.{Instant}
use althea_rs.AltheaTypes.{PaymentTx}
use althea_rs.PaymentValidator.Validator.{
  ToValidate, PaymentValidator, validate_later, make_payments, to_validate_key, to_validate_eq,
  to_validate_eq_refl, number_key,
}
use althea_rs.PaymentValidator.Judging.{
  TransactionResponse, Removal, payment_received, payment_succeeded, update_payments,
  payment_in_chain, payment_is_old, settle, handle_tx_messaging,
}

-- The claim that `make_payments` makes of a payment.
abbrev pub claim : Instant → PaymentTx → ToValidate
claim now pmt = record { payment = pmt; recieved = now; checked = false }

make_payments-contains :
    (now : Instant) (pmt : PaymentTx) (txid : ℕ) (v : PaymentValidator) (ts : ToValidate)
    → pmt.txid ≡ some txid
    → contains txid v.successful_transactions ≡ false
    → let v' = (make_payments now pmt v).1 in
      (v'.successful_transactions ≡ v.successful_transactions)
      × (contains ts v'.unvalidated_transactions
          ≡ (to_validate_eq (claim now pmt) ts || contains ts v.unvalidated_transactions))
unfolding make_payments validate_later
make_payments-contains now pmt txid v ts e new =
    ground (arith, contains-add (claim now pmt) ts v.unvalidated_transactions)

or_left : (a b : Bool) → a ≡ true → (a || b) ≡ true
or_left a b h = rw h refl

or_right : (a b : Bool) → b ≡ true → (a || b) ≡ true
or_right true b h = refl
or_right false b h = h

-- A payment whose transaction has not been accepted and that is claimed twice, at different times,
-- waits twice: the second claim is kept beside the first.
pub make_payments-both_wait :
    (first second : Instant) (pmt : PaymentTx) (txid : ℕ) (v : PaymentValidator)
    → first ≢ second
    → pmt.txid ≡ some txid
    → contains txid v.successful_transactions ≡ false
    → let waiting =
        (make_payments second pmt (make_payments first pmt v).1).1.unvalidated_transactions in
      (contains (claim first pmt) waiting ≡ true)
      × (contains (claim second pmt) waiting ≡ true)
      × (to_validate_eq (claim first pmt) (claim second pmt) ≡ false)
make_payments-both_wait first second pmt txid v apart e new =
    let v' = (make_payments first pmt v).1 in
    let once = make_payments-contains first pmt txid v (claim first pmt) e new in
    let new' : contains txid v'.successful_transactions ≡ false = rw (once.0) new in
    let twice = make_payments-contains second pmt txid v' in
    let mine = to_validate_eq_refl (claim first pmt) in
    let theirs = to_validate_eq_refl (claim second pmt) in
    (
      (twice (claim first pmt) e new').1 ∙ or_right _ _ (once.1 ∙ or_left _ _ mine),
      (twice (claim second pmt) e new').1 ∙ or_left _ _ theirs,
      ground (arith, apart),
    )

-- A removal with success: what the transaction must be like, and what goes out.
pub record Accepts (our_address : ℕ) (tx : TransactionResponse) (ts : ToValidate) (block : ℕ)
    (r : Removal) : Type 0 where
  pub whole : tx.value ≡ ts.payment.amount
  pub mined : (b : ℕ) × (tx.block_number ≡ some b) × (b + 4 ≤ block) × (block ≤ b + 1440)
  pub entry : r.tx ≡ ts
  pub sent :
      ((tx.to ≡ our_address)
        × (tx.from ≢ our_address)
        × (r.on_ok
            ≡ payment_received ts.payment.from ts.payment.amount ∷ update_payments ts.payment ∷ []))
      ⊎ ((tx.to ≢ our_address)
          × (tx.from ≡ our_address)
          × (r.on_ok
              ≡ payment_succeeded ts.payment.to ts.payment.amount
                ∷ update_payments ts.payment
                ∷ []))

-- A full node's answer leads to a removal with success only for a transaction of the claimed value
-- that is at least 4 and at most 1440 blocks deep and goes either to us or from us, not both; then
-- the payer is credited, or our payment to the payee is confirmed, with the claimed amount.
pub handle_tx_messaging-Accepts :
    (our_address : ℕ) (tx : TransactionResponse) (ts : ToValidate) (block : ℕ) (r : Removal)
    → handle_tx_messaging our_address tx ts block ≡ some r
    → r.success ≡ true
    → Accepts our_address tx ts block r
unfolding handle_tx_messaging settle payment_in_chain payment_is_old
handle_tx_messaging-Accepts our_address tx ts block r h good = ground arith

-- Conversely such a transaction always leads to a removal with success.
pub handle_tx_messaging-accepts :
    (our_address : ℕ) (tx : TransactionResponse) (ts : ToValidate) (block b : ℕ)
    → tx.value ≡ ts.payment.amount
    → tx.block_number ≡ some b
    → b + 4 ≤ block
    → block ≤ b + 1440
    → ((tx.to ≡ our_address) × (tx.from ≢ our_address))
      ⊎ ((tx.to ≢ our_address) × (tx.from ≡ our_address))
    → (r : Removal) × (handle_tx_messaging our_address tx ts block ≡ some r)
      × (r.success ≡ true)
      × (r.tx ≡ ts)
unfolding handle_tx_messaging settle payment_in_chain payment_is_old
handle_tx_messaging-accepts our_address tx ts block b value mined deep young sides = elim sides [
  | inl to_us ↦ (
    record {
      tx = ts;
      success = true;
      on_ok = payment_received ts.payment.from ts.payment.amount ∷ update_payments ts.payment ∷ [];
    },
    ground arith,
    ground arith,
    ground arith,
  )
  | inr from_us ↦ (
    record {
      tx = ts;
      success = true;
      on_ok = payment_succeeded ts.payment.to ts.payment.amount ∷ update_payments ts.payment ∷ [];
    },
    ground arith,
    ground arith,
    ground arith,
  )
]
