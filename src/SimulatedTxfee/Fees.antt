-- ===== src/SimulatedTxfee/Fees.antt =====
-- rita/src/rita_common/simulated_txfee_manager/mod.rs: what is paid of the fee is what is no longer
-- owed.
use althea_rs.Prelude.{
  ℕ, ◌+◌, ◌<◌, ◌≤◌, ◌≡◌, Bool-cases, Option-cases, inl, inr, Option, some, List, [], ◌∷◌, ltb,
  arith,
}
use althea_rs.Prelude.Int.{ℤ, nat_abs}
use althea_rs.Prelude.Outcome.{Outcome, ok, err, panic}
use althea_rs.Num256.{Num256}
use althea_rs.AltheaTypes.{Identity}
use althea_rs.Settings.{PaymentSettings}
use althea_rs.PaymentController.{Clarity, Transaction}
use althea_rs.SimulatedTxfee.{
  SimulatedTxFeeManager, Message, update_payments, paid, Error, successful_payment, pay_fee, tick,
}

-- The manager after the messages that are meant for it.
unfoldable pub deliver : List Message → SimulatedTxFeeManager → SimulatedTxFeeManager
deliver [] m = m
deliver (update_payments pmt ∷ ms) m = deliver ms m
deliver (paid amount ∷ ms) m = deliver ms (successful_payment amount m)

-- The sum of the payments that are reported to the usage tracker.
abbrev pub sent : List Message → ℕ
sent [] = 0
sent (update_payments pmt ∷ ms) = pmt.amount + sent ms
sent (paid amount ∷ ms) = sent ms

-- What a tick sends from a manager, where its messages arrive at one that owes no less: a payment is
-- made only above the threshold, of all that was owed then, and what is paid is no longer owed.
abbrev pub Settles :
    ℤ → SimulatedTxFeeManager → SimulatedTxFeeManager → Outcome Error (List Message) → Type 0
Settles threshold m later (ok ms) =
    (deliver ms later).amount_owed + sent ms ≡ later.amount_owed
    × (0 < sent ms → nat_abs threshold < m.amount_owed × sent ms ≡ m.amount_owed)
Settles threshold m later (err e) = Unit
Settles threshold m later panic = ⊥

abbrev transaction_of : PaymentSettings → Identity → ℕ → Transaction
transaction_of settings to amount = record {
  nonce = settings.nonce;
  gas_price = settings.gas_price;
  to = to.eth_address;
  value = amount;
}

module _ (num : Num256) (settings : PaymentSettings) (clarity : Clarity) (txfee_identity : Identity)
    (eth_send_raw_transaction : List ℕ → Option ℕ) (our_id : Identity) (key : ℕ)
    (has_key : settings.eth_private_key ≡ some key) (m later : SimulatedTxFeeManager)
    (no_less : m.amount_owed ≤ later.amount_owed) where
  silent-Settles : Settles settings.pay_threshold m later (ok [])
  unfolding deliver
  silent-Settles = (omega arith, λ h. absurd (omega arith))

  successful_payment-owed :
      (successful_payment m.amount_owed later).amount_owed + m.amount_owed ≡ later.amount_owed
  unfolding successful_payment
  successful_payment-owed = ground arith

  paying-Settles :
      (txid : ℕ)
      → nat_abs settings.pay_threshold < m.amount_owed
      → Settles settings.pay_threshold m later (
          ok (
            update_payments (record {
              to = txfee_identity;
              from = our_id;
              amount = m.amount_owed;
              txid = some txid;
            })
            ∷ (paid m.amount_owed ∷ [])))
  unfolding deliver
  paying-Settles txid above =
      let e = successful_payment-owed in (omega arith, λ h. (above, omega arith))

  pay_fee-Settles :
      nat_abs settings.pay_threshold < m.amount_owed
      → Settles settings.pay_threshold m later (
          pay_fee num settings clarity txfee_identity eth_send_raw_transaction our_id m.amount_owed)
  unfolding pay_fee
  pay_fee-Settles above =
      let tx = transaction_of settings txfee_identity m.amount_owed in
      elim (Option-cases (clarity.sign_to_bytes tx key settings.net_version)) [
        | inl e ↦ rw (has_key, e, pay_fee) tt
        | inr (bytes, e) ↦ elim (Option-cases (eth_send_raw_transaction bytes)) [
          | inl e' ↦ rw (has_key, e, e', pay_fee) silent-Settles
          | inr (txid, e') ↦ rw (has_key, e, e', pay_fee) (paying-Settles txid above)
        ]
      ]

  -- With our identity and a key at hand a tick does not panic. What it pays is no longer owed once its
  -- messages have arrived, whatever fees were added in the meantime, and it pays only if more is owed
  -- than the pay threshold, and then all that is owed.
  pub tick-Settles :
      Settles settings.pay_threshold m later
        (tick num settings clarity txfee_identity eth_send_raw_transaction (some our_id) m)
  unfolding tick
  tick-Settles = elim (Bool-cases (ltb (nat_abs settings.pay_threshold) m.amount_owed)) [
    | inl above ↦
        rw (num.to_uint256_pos (nat_abs settings.pay_threshold), above, tick)
          (pay_fee-Settles (ground arith))
    | inr below ↦
        rw (num.to_uint256_pos (nat_abs settings.pay_threshold), below, tick) silent-Settles
  ]
