-- ===== src/PaymentController/Validated.antt =====
-- rita/src/rita_common/payment_controller/mod.rs: which payments reach the payment validator.
use althea_rs.Prelude.{
  ℕ, zero, suc, ◌+◌, Bool, true, false, Option, none, some, List, [], ◌∷◌, ◌++◌, ◌≡◌, refl, ap, ◌∙◌,
  arith,
}
use althea_rs.Prelude.Outcome.{Outcome, ok, err, panic}
use althea_rs.AltheaTypes.{Identity, PaymentTx}
use althea_rs.Settings.{PaymentSettings}
use althea_rs.Time.{Instant}
use althea_rs.PaymentValidator.Validator.{ToValidate}
use althea_rs.PaymentController.{
  Clarity, Network, Error, Message, ResendInfo, payment_failed, resend, validate_later,
  update_nonce, notify, futures_chain, make_payment, handle_make_payment, resend_txid,
}
use althea_rs.PaymentController.Outcomes.{OnOk, published, entry, handled}

-- The messages for the validator.
abbrev pub validated : List Message → List ToValidate
validated [] = []
validated (validate_later ts ∷ ms) = ts ∷ validated ms
validated (payment_failed who ∷ ms) = validated ms
validated (resend info ∷ ms) = validated ms
validated (update_nonce ∷ ms) = validated ms

abbrev pub sent : Outcome Error (List Message) → List Message
sent (ok ms) = ms
sent (err e) = []
sent panic = []

-- Messages with all that the resends among them lead to, for a number of messages that are handled;
-- `network k` answers the attempt with number `k`.
abbrev pub with_resends : ℕ → (ℕ → Network) → List Message → List Message
with_resends zero network ms = ms
with_resends (suc n) network [] = []
with_resends (suc n) network (resend info ∷ ms) =
    resend info
    ∷ with_resends n network (sent (resend_txid (network (info.attempt + 1)) info) ++ ms)
with_resends (suc n) network (payment_failed who ∷ ms) =
    payment_failed who ∷ with_resends n network ms
with_resends (suc n) network (validate_later ts ∷ ms) =
    validate_later ts ∷ with_resends n network ms
with_resends (suc n) network (update_nonce ∷ ms) = update_nonce ∷ with_resends n network ms

-- What the validator is to be given: the entry of a transaction that a full node has taken and whose
-- notification was answered.
abbrev pub due : Instant → PaymentTx → Option ℕ → Option ℕ → List ToValidate
due now pmt none acknowledged = []
due now pmt (some tx_id) none = []
due now pmt (some tx_id) (some status) = entry now pmt tx_id ∷ []

abbrev pub is_due : Option ℕ → Option ℕ → Bool
is_due none acknowledged = false
is_due (some tx_id) none = false
is_due (some tx_id) (some status) = true

validated-resend_txid :
    (network : Network) (info : ResendInfo) (ms : List Message)
    → validated (sent (resend_txid network info) ++ ms) ≡ validated ms
unfolding resend_txid
validated-resend_txid network info ms = ground arith

validated-with_resends :
    (n : ℕ) (network : ℕ → Network) (ms : List Message)
    → validated (with_resends n network ms) ≡ validated ms
validated-with_resends zero network ms = refl
validated-with_resends (suc n) network [] = refl
validated-with_resends (suc n) network (resend info ∷ ms) =
    validated-with_resends n network (sent (resend_txid (network (info.attempt + 1)) info) ++ ms)
    ∙ validated-resend_txid (network (info.attempt + 1)) info ms
validated-with_resends (suc n) network (payment_failed who ∷ ms) =
    validated-with_resends n network ms
validated-with_resends (suc n) network (validate_later ts ∷ ms) =
    ap (λ tss. ts ∷ tss) (validated-with_resends n network ms)
validated-with_resends (suc n) network (update_nonce ∷ ms) = validated-with_resends n network ms

module _ (clarity : Clarity) (has_socket : Identity → Bool) (settings : PaymentSettings)
    (network : Network) (now : Instant) (pmt : PaymentTx) where
  chain-due :
      (bytes : List ℕ)
      → let (messages, raised) = futures_chain network now bytes pmt in
        (validated messages ≡ due now pmt (published network (ok bytes)) network.acknowledged)
        × (raised ≡ is_due (published network (ok bytes)) network.acknowledged)
  unfolding futures_chain notify
  chain-due bytes = ground arith

  -- With an address and a key configured the handler does not panic, and of all the messages that it
  -- and the resends after it send, however many of those are handled and whatever they are answered,
  -- the validator gets one entry if a full node has taken the transaction and the neighbour has
  -- answered its first notification with any status, and else none; the nonce is raised exactly then.
  pub handle_make_payment-validates :
      (address key n : ℕ) (later : ℕ → Network)
      → settings.eth_address ≡ some address
      → settings.eth_private_key ≡ some key
      → let taken = published network (make_payment clarity has_socket settings pmt) in
        OnOk
          (λ (messages, raised).
            (validated (with_resends n later messages) ≡ due now pmt taken network.acknowledged)
            × (raised ≡ is_due taken network.acknowledged))
          (handle_make_payment clarity has_socket settings network now pmt)
  handle_make_payment-validates address key n later ha hk =
      handled clarity has_socket settings network now pmt address key ha hk
        (λ made (messages, raised).
          (validated (with_resends n later messages)
            ≡ due now pmt (published network made) network.acknowledged)
          × (raised ≡ is_due (published network made) network.acknowledged))
        (λ e. (validated-with_resends n later (payment_failed pmt.to ∷ []), refl))
        (λ bytes. (
          validated-with_resends n later (futures_chain network now bytes pmt).0
              ∙ (chain-due bytes).0,
          (chain-due bytes).1,
        ))
