-- ===== src/DebtKeeper/Payments.antt =====
-- rita/src/rita_common/debt_keeper/mod.rs: `payment_received`, `payment_succeeded` and
-- `payment_failed` keep the books.
use althea_rs.Prelude.{ℕ, ◌+◌, ◌≡◌, none, some, false, arith}
use althea_rs.Prelude.Int.{ℤ, pos, ◌+ℤ◌, ◌-ℤ◌, ◌≤ℤ◌, ◌<ℤ◌, nat_abs}
use althea_rs.Prelude.Outcome.{ok}
use althea_rs.Num256.{Num256, FitsInt256, FitsUint256, FitsInt256-between}
use althea_rs.Time.{Instant}
use althea_rs.DebtKeeper.Peer.{NodeDebtData, apply_incoming, payment_received, payment_succeeded}

-- The debt and the credit that is not yet applied to it.
pub net : NodeDebtData → ℤ
net d = d.debt +ℤ pos d.incoming_payments

-- `d'` is `d` with some credit moved into the debt, and none left beside a debt of theirs.
pub record Applied (d d' : NodeDebtData) : Type 0 where
  pub same_net : net d' ≡ net d
  pub reduced : d.debt ≤ℤ d'.debt
  pub settled : d'.debt <ℤ pos 0 → d'.incoming_payments ≡ 0
  pub never_owing : d.debt ≤ℤ pos 0 → d'.debt ≤ℤ pos 0
  pub never_back : pos 0 ≤ℤ d.debt → d'.debt ≡ d.debt

-- The data on which `apply_incoming` works: both counters have the amount.
credited : ℕ → NodeDebtData → NodeDebtData
credited amount d = record d {
  total_payment_received = d.total_payment_received + amount;
  incoming_payments = d.incoming_payments + amount;
}

-- What a received payment does.
pub record Received (amount : ℕ) (d d' : NodeDebtData) : Type 0 where
  pub counted : d'.total_payment_received ≡ d.total_payment_received + amount
  pub credited_once : net d' ≡ net d +ℤ pos amount
  pub reduced : d.debt ≤ℤ d'.debt
  pub settled : d'.debt <ℤ pos 0 → d'.incoming_payments ≡ 0
  pub never_owing : d.debt ≤ℤ pos 0 → d'.debt ≤ℤ pos 0
  pub never_back : pos 0 ≤ℤ d.debt → d'.debt ≡ d.debt
  pub flight_kept :
      (d'.payment_in_flight ≡ d.payment_in_flight)
      × (d'.payment_in_flight_start ≡ d.payment_in_flight_start)

module _ (num : Num256) where
  open num use {to_uint256_pos, to_int256_fits, int256_fits}

  apply_incoming-Applied :
      (d : NodeDebtData)
      → FitsInt256 d.debt
      → FitsInt256 (pos d.incoming_payments)
      → ((apply_incoming num d).0 ≡ ok tt) × Applied d (apply_incoming num d).1
  unfolding apply_incoming net ◌+ℤ◌
  apply_incoming-Applied d fits_debt fits_incoming = ground (
    arith,
    to_uint256_pos (nat_abs d.debt),
    to_int256_fits d.incoming_payments fits_incoming,
    int256_fits (d.debt +ℤ pos d.incoming_payments),
    FitsInt256-between d.debt (pos d.incoming_payments) (d.debt +ℤ pos d.incoming_payments),
  )

  payment_received-credited :
      (amount : ℕ) (d : NodeDebtData)
      → FitsUint256 (d.total_payment_received + amount)
      → FitsUint256 (d.incoming_payments + amount)
      → payment_received num amount d ≡ apply_incoming num (credited amount d)
  unfolding payment_received credited
  payment_received-credited amount d fits_total fits_incoming = ground (
    arith,
    num.uint256_fits (d.total_payment_received + amount) fits_total,
    num.uint256_fits (d.incoming_payments + amount) fits_incoming,
  )

  apply_incoming-frame :
      (d : NodeDebtData)
      → let d' = (apply_incoming num d).1 in
        (d'.total_payment_received ≡ d.total_payment_received)
        × (d'.payment_in_flight ≡ d.payment_in_flight)
        × (d'.payment_in_flight_start ≡ d.payment_in_flight_start)
  unfolding apply_incoming
  apply_incoming-frame d = ground arith

  -- Where the sums are representable, a payment of `amount` succeeds. It raises the counter and the
  -- sum of debt and credit by exactly `amount`; afterwards no credit is left beside a debt of
  -- theirs; a debt of theirs only shrinks and does not turn into one of ours, what we owe is not touched, and a
  -- payment in flight stays in flight.
  pub payment_received-Received :
      (amount : ℕ) (d : NodeDebtData)
      → FitsInt256 d.debt
      → FitsUint256 (d.total_payment_received + amount)
      → FitsUint256 (d.incoming_payments + amount)
      → FitsInt256 (pos (d.incoming_payments + amount))
      → ((payment_received num amount d).0 ≡ ok tt)
        × Received amount d (payment_received num amount d).1
  unfolding credited net ◌+ℤ◌
  payment_received-Received amount d fits_debt fits_total fits_incoming fits_signed =
      rw (payment_received-credited amount d fits_total fits_incoming) (
        ground (
          arith,
          apply_incoming-Applied (credited amount d) fits_debt fits_signed,
          apply_incoming-frame (credited amount d),
        ))

  -- Where the sums are representable, a payment of ours that is confirmed succeeds: it raises the
  -- amount sent, lowers the debt by exactly `amount`, leaves the credit alone, ends the flight and
  -- records the time.
  pub payment_succeeded-settles :
      (now : Instant) (amount : ℕ) (d : NodeDebtData)
      → FitsUint256 (d.total_payment_sent + amount)
      → FitsInt256 (pos amount)
      → FitsInt256 (d.debt -ℤ pos amount)
      → payment_succeeded num now amount d ≡ (
        ok tt,
        record d {
          total_payment_sent = d.total_payment_sent + amount;
          debt = d.debt -ℤ pos amount;
          payment_in_flight = false;
          payment_in_flight_start = none;
          last_successful_payment = some now;
        },
      )
  unfolding payment_succeeded
  payment_succeeded-settles now amount d fits_sent fits_amount fits_debt = ground (
    arith,
    num.uint256_fits (d.total_payment_sent + amount) fits_sent,
    num.to_int256_fits amount fits_amount,
    num.int256_fits (d.debt -ℤ pos amount) fits_debt,
  )
