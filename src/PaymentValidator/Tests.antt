-- ===== src/PaymentValidator/Tests.antt =====
-- Runs of the payment validator, and instances of its theorems.
use althea_rs.Prelude.{◌≡◌, refl, true, none, some, List, [], ◌∷◌, ◌++◌, arith, All, inl}
use althea_rs.Prelude.Sets.{contains, add, discard}
use althea_rs.Prelude.Outcome.{ok}
use althea_rs.Time.{from_secs}
use althea_rs.AltheaTypes.{Identity, PaymentTx}
use althea_rs.PaymentValidator.Validator.{
  ToValidate, PaymentValidator, new_validator, validate_later, mark_checked, remove, validate,
  sort_out, to_validate_key, number_key,
}
use althea_rs.PaymentValidator.Judging.{
  TransactionResponse, Removal, Message, payment_received, update_payments, check, removal,
  handle_tx_messaging, settle, payment_in_chain, payment_is_old, handle_queued, Event, later,
  queued, validated, handle, run,
}
use althea_rs.PaymentValidator.Spent.{IsSpent, credits, IsGenuine}
use althea_rs.PaymentValidator.Replay.{run-IsSpent, removal-credits_twice}
use althea_rs.PaymentValidator.Arrival.{
  claim, Accepts, handle_tx_messaging-Accepts, handle_tx_messaging-accepts,
}

abbrev payer : Identity
payer = record { mesh_ip = 3; eth_address = 1; wg_public_key = 9; nickname = none }

abbrev us : Identity
us = record { mesh_ip = 1; eth_address = 5; wg_public_key = 7; nickname = none }

abbrev payment : PaymentTx
payment = record { to = us; from = payer; amount = 70; txid = some 4242 }

-- The transaction in a block that is five blocks below the head at 105.
abbrev mined : TransactionResponse
mined = record { to = 5; from = 1; value = 70; block_number = some 100 }

abbrev checked_claim : ToValidate
checked_claim = record { payment = payment; recieved = 10; checked = true }

abbrev reports : List Message
reports = payment_received payer 70 ∷ update_payments payment ∷ []

abbrev accept : Removal
accept = record { tx = checked_claim; success = true; on_ok = reports }

accepted : handle_tx_messaging 5 mined checked_claim 105 ≡ some accept
unfolding handle_tx_messaging settle payment_in_chain payment_is_old
accepted = refl

abbrev waiting : PaymentValidator
waiting = record { unvalidated_transactions = checked_claim ∷ []; successful_transactions = [] }

abbrev spent : PaymentValidator
spent = record { unvalidated_transactions = []; successful_transactions = 4242 ∷ [] }

-- The first lookup only marks the claim: its removal comes too late for the unmarked entry.
first_lookup :
    run
      (later (claim 10 payment)
        ∷ queued (check (claim 10 payment))
        ∷ queued (removal (record accept { tx = claim 10 payment }))
        ∷ [])
      new_validator
    ≡ ([], waiting)
unfolding run handle handle_queued validate_later mark_checked remove new_validator contains add
    discard
first_lookup = refl

-- A neighbour sends the same payment twice, two seconds apart, before it is confirmed: it is
-- credited twice.
paid_once_credited_twice :
    let later_claim : ToValidate = record checked_claim { recieved = 12 } in
    (run
      (later (claim 10 payment)
        ∷ later (claim 12 payment)
        ∷ queued (check (claim 10 payment))
        ∷ queued (check (claim 12 payment))
        ∷ queued (removal accept)
        ∷ queued (removal (record accept { tx = later_claim }))
        ∷ [])
      new_validator).0
    ≡ reports ++ reports
unfolding run handle handle_queued validate_later mark_checked remove new_validator contains add
    discard
paid_once_credited_twice = refl

spent-IsSpent : IsSpent 4242 spent
unfolding contains
spent-IsSpent = record { accepted = refl; none_waits = tt }

abbrev replay : List Event
replay =
    later checked_claim ∷ queued (check checked_claim) ∷ queued (removal accept) ∷ validated 20 ∷ []

replay-IsGenuine : All IsGenuine replay
replay-IsGenuine = (tt, (tt, ((5, mined, checked_claim, 105, accepted), (tt, tt))))

run-IsSpent_example :
    (run replay spent ≡ run (validated 20 ∷ []) spent)
    × (credits 4242 (run replay spent).0 ≡ 0)
    × IsSpent 4242 (run replay spent).1
run-IsSpent_example = run-IsSpent 4242 replay spent replay-IsGenuine spent-IsSpent

abbrev waiting_twice : PaymentValidator
waiting_twice = record {
  unvalidated_transactions = checked_claim ∷ record checked_claim { recieved = 12 } ∷ [];
  successful_transactions = [];
}

removal-credits_twice_example :
    (run
      (queued (removal accept)
        ∷ queued (removal (record accept { tx = record checked_claim { recieved = 12 } }))
        ∷ [])
      waiting_twice).0
    ≡ reports ++ reports
unfolding contains
removal-credits_twice_example =
    removal-credits_twice checked_claim 12 4242 reports waiting_twice refl (omega arith) refl refl

handle_tx_messaging-Accepts_example : Accepts 5 mined checked_claim 105 accept
handle_tx_messaging-Accepts_example =
    handle_tx_messaging-Accepts 5 mined checked_claim 105 accept accepted refl

handle_tx_messaging-accepts_example :
    (r : Removal) × (handle_tx_messaging 5 mined checked_claim 105 ≡ some r)
    × (r.success ≡ true)
    × (r.tx ≡ checked_claim)
handle_tx_messaging-accepts_example =
    handle_tx_messaging-accepts 5 mined checked_claim 105 100 refl refl (omega arith) (omega arith)
      (inl (refl, omega arith))

late_now : (validate (from_secs 1000) waiting).0 ≡ ok []
unfolding validate sort_out
late_now = refl
