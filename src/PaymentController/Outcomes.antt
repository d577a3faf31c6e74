-- ===== src/PaymentController/Outcomes.antt =====
-- rita/src/rita_common/payment_controller/mod.rs: what is reported of a payment that was made or not.
use althea_rs.Prelude.{
  ℕ, Bool, true, false, Option, none, some, List, [], ◌∷◌, ◌≡◌, ◌≢◌, refl, if◌then◌else◌, any,
  arith,
}
use althea_rs.Prelude.Sets.{contains, contains-add}
use althea_rs.Prelude.Outcome.{Outcome, ok, err, panic}
use althea_rs.AltheaTypes.{Identity, PaymentTx, identity_eq, identity_eq_refl}
use althea_rs.Settings.{PaymentSettings}
use althea_rs.Time.{Instant}
use althea_rs.PaymentValidator.Validator.{
  ToValidate, to_validate_key, to_validate_eq_refl, number_key, PaymentValidator,
}
use althea_rs.PaymentValidator.Validator
use althea_rs.PaymentController.{
  Clarity, Network, Error, Message, payment_failed, resend, validate_later, update_nonce,
  is_success, notify, futures_chain, make_payment, handle_make_payment,
}

-- The message tells the debt keeper that the payment to a peer has failed.
abbrev pub reports_failure : Identity → Message → Bool
reports_failure to (payment_failed who) = identity_eq who to
reports_failure to (resend info) = false
reports_failure to (validate_later ts) = false
reports_failure to update_nonce = false

-- The txid under which the full node has taken a transaction, where it was asked to.
abbrev pub published : Network → Outcome Error (List ℕ) → Option ℕ
published network (ok bytes) =
    if network.connected then network.eth_send_raw_transaction bytes else none
published network (err e) = none
published network panic = none

abbrev pub is_none : Option ℕ → Bool
is_none none = true
is_none (some t) = false

-- The validator after it has received the messages that are meant for it.
unfoldable pub deliver : List Message → PaymentValidator → PaymentValidator
deliver [] v = v
deliver (validate_later ts ∷ ms) v = deliver ms (Validator.validate_later ts v)
deliver (payment_failed who ∷ ms) v = deliver ms v
deliver (resend info ∷ ms) v = deliver ms v
deliver (update_nonce ∷ ms) v = deliver ms v

-- The outcome is a value with the property.
abbrev pub OnOk : {E A : Type 0} → (A → Type 0) → Outcome E A → Type 0
OnOk P (ok a) = P a
OnOk P (err e) = ⊥
OnOk P panic = ⊥

OnOk-when :
    {E A : Type 0} (H : Type 0) (Q : A → Type 0) (out : Outcome E A)
    → H
    → OnOk (λ a. H → Q a) out
    → OnOk Q out
OnOk-when H Q (ok a) h f = f h
OnOk-when H Q (err e) h f = f
OnOk-when H Q panic h f = f

none≢some : {t : ℕ} → none ≢ some t
none≢some h = ground arith

-- The payment that is validated later.
abbrev pub entry : Instant → PaymentTx → ℕ → ToValidate
entry now pmt tx_id = record {
  payment = record pmt { txid = some tx_id };
  recieved = now;
  checked = false;
}

module _ (clarity : Clarity) (has_socket : Identity → Bool) (settings : PaymentSettings)
    (network : Network) (now : Instant) (pmt : PaymentTx) where
  -- With a wallet set up the handler never panics.
  make_payment-no_panic :
      (address key : ℕ)
      → settings.eth_address ≡ some address
      → settings.eth_private_key ≡ some key
      → make_payment clarity has_socket settings pmt ≢ panic
  unfolding make_payment
  make_payment-no_panic address key ha hk h = ground arith

  chain-reports_failure :
      (bytes : List ℕ)
      → any (reports_failure pmt.to) (futures_chain network now bytes pmt).0
        ≡ is_none (published network (ok bytes))
  unfolding futures_chain notify
  chain-reports_failure bytes = ground (arith, identity_eq_refl pmt.to)

  published-taken :
      (bytes : List ℕ) (tx_id : ℕ)
      → published network (ok bytes) ≡ some tx_id
      → network.connected ≡ true × network.eth_send_raw_transaction bytes ≡ some tx_id
  published-taken bytes tx_id h = ground arith

  validate_later-waits :
      (tx_id : ℕ) (v : PaymentValidator)
      → contains tx_id v.successful_transactions ≡ false
      → contains
          (entry now pmt tx_id)
          (Validator.validate_later (entry now pmt tx_id) v).unvalidated_transactions
        ≡ true
  unfolding Validator.validate_later
  validate_later-waits tx_id v h =
      rw (h, contains-add (entry now pmt tx_id) (entry now pmt tx_id) v.unvalidated_transactions)
        (rw (to_validate_eq_refl (entry now pmt tx_id)) refl)

  notified-waits :
      (tx_id : ℕ) (success : Bool) (v : PaymentValidator)
      → contains tx_id v.successful_transactions ≡ false
      → contains
            (entry now pmt tx_id)
            (deliver
              (if success
                then validate_later (entry now pmt tx_id) ∷ []
                else resend
                    (record { txid = tx_id; pmt = record pmt { txid = some tx_id }; attempt = 0 })
                  ∷ (validate_later (entry now pmt tx_id) ∷ []))
              v).unvalidated_transactions
          ≡ true
        × true ≡ true
  unfolding deliver
  notified-waits tx_id true v h = (validate_later-waits tx_id v h, refl)
  notified-waits tx_id false v h = (validate_later-waits tx_id v h, refl)

  chain-waits :
      (bytes : List ℕ) (tx_id status : ℕ) (v : PaymentValidator)
      → published network (ok bytes) ≡ some tx_id
      → network.acknowledged ≡ some status
      → contains tx_id v.successful_transactions ≡ false
      → let out = futures_chain network now bytes pmt in
        contains (entry now pmt tx_id) (deliver out.0 v).unvalidated_transactions ≡ true
        × out.1 ≡ true
  unfolding futures_chain contains notify
  chain-waits bytes tx_id status v hp ha hv =
      let (hc, hs) = published-taken bytes tx_id hp in
      rw (hc, hs, ha) (notified-waits tx_id (is_success status) v hv)

  pub handled :
      (address key : ℕ)
      → settings.eth_address ≡ some address
      → settings.eth_private_key ≡ some key
      → (P : Outcome Error (List ℕ) → List Message × Bool → Type 0)
      → ((e : Error) → P (err e) (payment_failed pmt.to ∷ [], false))
      → ((bytes : List ℕ) → P (ok bytes) (futures_chain network now bytes pmt))
      → OnOk
          (P (make_payment clarity has_socket settings pmt))
          (handle_make_payment clarity has_socket settings network now pmt)
  unfolding handle_make_payment
  handled address key ha hk P on_err on_ok =
      (elim (make_payment clarity has_socket settings pmt)
          as (λ made.
            made ≢ panic
            → OnOk (P made) (elim made as (λ x. Outcome Error (List Message × Bool)) [
              | panic ↦ panic
              | err e ↦ ok (payment_failed pmt.to ∷ [], false)
              | ok bytes ↦ ok (futures_chain network now bytes pmt)
            ])) [
              | panic ↦ λ n. absurd (n refl)
              | err e ↦ λ n. on_err e
              | ok bytes ↦ λ n. on_ok bytes
            ])
        (make_payment-no_panic address key ha hk)

  handled_published :
      (address key tx_id : ℕ)
      → settings.eth_address ≡ some address
      → settings.eth_private_key ≡ some key
      → published network (make_payment clarity has_socket settings pmt) ≡ some tx_id
      → (Q : List Message × Bool → Type 0)
      → ((bytes : List ℕ)
          → published network (ok bytes) ≡ some tx_id
          → Q (futures_chain network now bytes pmt))
      → OnOk Q (handle_make_payment clarity has_socket settings network now pmt)
  handled_published address key tx_id ha hk hp Q on_ok = OnOk-when _ Q _ hp (
      handled address key ha hk (λ made out. published network made ≡ some tx_id → Q out)
        (λ e h. absurd (none≢some h)) on_ok)

  -- With an address and a key configured the handler does not panic, and it reports a failure of the
  -- payment to the debt keeper exactly if no full node has taken the transaction.
  pub handle_make_payment-reports_failure :
      (address key : ℕ)
      → settings.eth_address ≡ some address
      → settings.eth_private_key ≡ some key
      → let made = make_payment clarity has_socket settings pmt in
        OnOk
          (λ (messages, raised).
            any (reports_failure pmt.to) messages ≡ is_none (published network made))
          (handle_make_payment clarity has_socket settings network now pmt)
  handle_make_payment-reports_failure address key ha hk =
      handled address key ha hk
        (λ made (messages, raised).
          any (reports_failure pmt.to) messages ≡ is_none (published network made))
        (λ e. ground (arith, identity_eq_refl pmt.to)) chain-reports_failure

  -- A transaction that is published, and whose notification the neighbour answers with any status,
  -- raises the nonce by one, and its entry then waits in the validator, unless the validator has
  -- accepted the txid before.
  pub handle_make_payment-waits :
      (address key tx_id status : ℕ) (v : PaymentValidator)
      → settings.eth_address ≡ some address
      → settings.eth_private_key ≡ some key
      → published network (make_payment clarity has_socket settings pmt) ≡ some tx_id
      → network.acknowledged ≡ some status
      → contains tx_id v.successful_transactions ≡ false
      → OnOk
          (λ (messages, raised).
            contains (entry now pmt tx_id) (deliver messages v).unvalidated_transactions ≡ true
            × raised ≡ true)
          (handle_make_payment clarity has_socket settings network now pmt)
  handle_make_payment-waits address key tx_id status v ha hk hp hs hv =
      handled_published address key tx_id ha hk hp _
        (λ bytes h. chain-waits bytes tx_id status v h hs hv)
