-- ===== src/DebtKeeper/Update.antt =====
-- rita/src/rita_common/debt_keeper/mod.rs: `DebtKeeper::send_update`, which decides once a round
-- whether a peer is suspended, paid or left alone.
use althea_rs.Prelude.{
  ℕ, ◌+◌, ◌/◌, Bool, true, false, Option, none, some, ltb, ◌==◌, ◌&&◌, if◌then◌else◌,
}
use althea_rs.Prelude.Int.{ltb_ℤ}
use althea_rs.Prelude.Outcome.{ok, panic, pure, unwrap, or_raise, modify, ◌>>=◌, ◌>>◌}
use althea_rs.Num256.{Num256}
use althea_rs.AltheaTypes.{Identity}
use althea_rs.Settings.{PaymentSettings}
use althea_rs.Time.{Instant, elapsed_over}
use althea_rs.PaymentValidator.Validator.{payment_timeout}
use althea_rs.DebtKeeper.Peer.{
  DebtAction, suspend_tunnel, open_tunnel, make_payment, debt_not_unsigned, NodeDebtData, Method,
  debt_limit, payment_received,
}

module _ (num : Num256) (settings : PaymentSettings) (now : Instant) (ident : Identity) where
  open num use {uint256, to_uint256}
  open settings use {
    close_threshold, pay_threshold, fudge_factor, debt_limit_enabled,
    apply_incoming_credit_immediately,
  }

  -- `if debt_limit_enabled { ... }`
  unfoldable pub limit_debt : Method (Unit {0})
  limit_debt d =
      if debt_limit_enabled
      then (do
        debt ← unwrap (debt_limit num d.debt close_threshold)
        modify λ e. record e { debt = debt })
          d
      else (ok tt, d)

  -- A zero payment, which applies the credit that is left.
  unfoldable pub apply_credit : Method DebtAction
  apply_credit = do
    modify λ d. record d { action = open_tunnel }
    payment_received num 0
    pure open_tunnel

  unfoldable pub suspend : Method DebtAction
  suspend d =
      if ltb 0 d.incoming_payments
      then apply_credit d
      else (ok suspend_tunnel, record d { action = suspend_tunnel })

  unfoldable pub open_up : Method DebtAction
  open_up d =
      if apply_incoming_credit_immediately && ltb 0 d.incoming_payments
      then apply_credit d
      else (ok open_tunnel, record d { action = open_tunnel })

  -- The fudge factor, where it is not zero, adds a fraction of the payment.
  unfoldable pub overpay : ℕ → Option ℕ
  overpay to_pay =
      if fudge_factor == 0 then some to_pay else uint256 (to_pay + to_pay / fudge_factor)

  unfoldable pub start_payment : Method DebtAction
  start_payment = do
    owed ← λ d. or_raise (to_uint256 d.debt) debt_not_unsigned d
    to_pay ← unwrap (overpay owed)
    modify λ d. record d {
      payment_in_flight = true;
      payment_in_flight_start = some now;
      action = make_payment ident to_pay;
    }
    pure (make_payment ident to_pay)

  unfoldable pub await_payment : Method DebtAction
  await_payment d =
      (ok open_tunnel, record (timed_out d.payment_in_flight_start) { action = open_tunnel })
    where
      timed_out : Option Instant → NodeDebtData
      timed_out (some start_time) =
          if elapsed_over now start_time payment_timeout
          then record d { payment_in_flight = false; payment_in_flight_start = none }
          else d
      timed_out none = record d { payment_in_flight = false }

  -- The `match` on `(should_close, should_pay, payment_in_flight)`.
  unfoldable pub act : Bool → Bool → Bool → Method DebtAction
  act true true _ = λ d. (panic, d)
  act true false _ = suspend
  act false true false = start_payment
  act false false _ = open_up
  act false true true = await_payment

  -- The tests look at the debt before it is limited.
  unfoldable pub send_update : Method DebtAction
  send_update d =
      (do
        limit_debt
        act (ltb_ℤ d.debt close_threshold) (ltb_ℤ pay_threshold d.debt) d.payment_in_flight)
        d
