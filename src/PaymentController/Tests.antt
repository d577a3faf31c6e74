-- ===== src/PaymentController/Tests.antt =====
-- Runs of the payment controller, and instances of its theorems.
use althea_rs.Prelude.{
  ℕ, ◌≡◌, ◌==◌, refl, Bool, true, false, Option, none, some, [], ◌∷◌, if◌then◌else◌, any,
}
use althea_rs.Prelude.Int.{pos, negsuc}
use althea_rs.Prelude.Outcome.{ok, err}
use althea_rs.AltheaTypes.{Identity, PaymentTx}
use althea_rs.Settings.{PaymentSettings}
use althea_rs.PaymentValidator.Validator.{to_validate_key, number_key}
use althea_rs.PaymentController.{
  Clarity, Network, not_enough_money, ResendInfo, payment_failed, make_payment, handle_make_payment,
  futures_chain, resend_txid,
}
use althea_rs.PaymentController.Outcomes.{
  OnOk, published, is_none, reports_failure, handle_make_payment-reports_failure,
}
use althea_rs.PaymentController.Validated.{validated, with_resends, handle_make_payment-validates}
use althea_rs.PaymentController.Resend.{resend_chain}

abbrev us : Identity
us = record { mesh_ip = 1; eth_address = 5; wg_public_key = 7; nickname = none }

abbrev them : Identity
them = record { mesh_ip = 2; eth_address = 6; wg_public_key = 8; nickname = none }

abbrev settings : PaymentSettings
settings = record {
  close_threshold = negsuc 9;
  pay_threshold = pos 5;
  fudge_factor = 0;
  debt_limit_enabled = true;
  apply_incoming_credit_immediately = false;
  eth_address = some 5;
  balance = 1000;
  nonce = 3;
  gas_price = 1;
  eth_private_key = some 77;
  net_version = some 100;
  simulated_transaction_fee = 10;
}

abbrev clarity : Clarity
clarity = record { sign_to_bytes = λ tx key net. some (tx.nonce ∷ (tx.value ∷ (key ∷ []))) }

abbrev has_socket : Identity → Bool
has_socket id = true

-- A connection, a full node that takes the transaction, and an answer of the neighbour or none.
abbrev answering : Option ℕ → Network
answering status = record {
  connected = true;
  eth_send_raw_transaction = λ bytes. some 4242;
  acknowledged = status;
}

abbrev offline : Network
offline = record {
  connected = false;
  eth_send_raw_transaction = λ bytes. none;
  acknowledged = none;
}

abbrev payment : PaymentTx
payment = record { to = them; from = us; amount = 100; txid = none }

abbrev retry : ResendInfo
retry = record { txid = 4242; pmt = record payment { txid = some 4242 }; attempt = 0 }

-- The neighbour is first told at the fourth attempt.
abbrev flaky : ℕ → Network
flaky k = if k == 4 then answering (some 200) else offline

pays_too_much :
    make_payment clarity has_socket settings (record payment { amount = 1001 })
    ≡ err not_enough_money
unfolding make_payment
pays_too_much = refl

offline_fails :
    handle_make_payment clarity has_socket settings offline 9 payment
    ≡ ok (payment_failed them ∷ [], false)
unfolding handle_make_payment make_payment futures_chain
offline_fails = refl

fourth_attempt : resend_chain 16 flaky retry ≡ some 4
unfolding resend_chain resend_txid
fourth_attempt = refl

handle_make_payment-reports_failure_example :
    OnOk
      (λ (messages, nonce).
        any (reports_failure them) messages
        ≡ is_none (published offline (make_payment clarity has_socket settings payment)))
      (handle_make_payment clarity has_socket settings offline 9 payment)
handle_make_payment-reports_failure_example =
    handle_make_payment-reports_failure clarity has_socket settings offline 9 payment 5 77 refl refl

-- The first notification gets no answer, and every later one is taken.
handle_make_payment-validates_example :
    OnOk
      (λ (messages, raised).
        (validated (with_resends 20 (λ attempt. answering (some 200)) messages) ≡ [])
        × (raised ≡ false))
      (handle_make_payment clarity has_socket settings (answering none) 9 payment)
unfolding make_payment
handle_make_payment-validates_example =
    handle_make_payment-validates clarity has_socket settings (answering none) 9 payment 5 77 20
      (λ attempt. answering (some 200)) refl refl
