-- ===== src/PaymentValidator/Validator.antt =====
-- rita/src/rita_common/payment_validator/mod.rs: the actor `PaymentValidator` and its messages, and
-- `make_payments` of rita/src/rita_common/network_endpoints/mod.rs, which feeds it.
use althea_rs.Prelude.{
  ℕ, ◌≡◌, Bool, true, false, Option, none, some, List, [], ◌∷◌, ◌&&◌, ◌==◌, if◌then◌else◌, arith,
}
use althea_rs.Prelude.Maps.{Key}
use althea_rs.Prelude.Sets.{HashSet, contains, add, discard}
use althea_rs.Prelude.Outcome.{Outcome, ok, err, panic}
use althea_rs.AltheaTypes.{PaymentTx, payment_eq, payment_eq_refl, payment_eq_cong}
use mathlib.Core.Option
use althea_rs.Time.{Instant, Duration, from_secs, elapsed_over}

-- `PAYMENT_TIMEOUT`
abbrev pub payment_timeout : Duration
payment_timeout = from_secs 900

pub record ToValidate : Type 0 where
  pub payment : PaymentTx
  pub recieved : Instant
  pub checked : Bool

abbrev bool_eq : Bool → Bool → Bool
bool_eq true b = b
bool_eq false true = false
bool_eq false false = true

-- The derived `PartialEq`.
abbrev pub to_validate_eq : ToValidate → ToValidate → Bool
to_validate_eq a b =
    payment_eq a.payment b.payment && a.recieved == b.recieved && bool_eq a.checked b.checked

pub to_validate_eq_refl : (a : ToValidate) → to_validate_eq a a ≡ true
to_validate_eq_refl a = ground (arith, payment_eq_refl a.payment)

pub to_validate_eq_cong :
    (a b c : ToValidate) → to_validate_eq a b ≡ true → to_validate_eq a c ≡ to_validate_eq b c
to_validate_eq_cong a b c h = ground (arith, payment_eq_cong a.payment b.payment c.payment)

instance abbrev pub to_validate_key : Key ToValidate
to_validate_key = record {
  eq = to_validate_eq;
  eq_refl = to_validate_eq_refl;
  eq_cong = to_validate_eq_cong;
}

pub number_eq_refl : (a : ℕ) → (a == a) ≡ true
number_eq_refl a = ground arith

pub number_eq_cong : (a b c : ℕ) → (a == b) ≡ true → (a == c) ≡ (b == c)
number_eq_cong a b c h = ground arith

instance abbrev pub number_key : Key ℕ
number_key = record { eq = ◌==◌; eq_refl = number_eq_refl; eq_cong = number_eq_cong }

pub record PaymentValidator : Type 0 where
  pub unvalidated_transactions : HashSet ToValidate
  pub successful_transactions : HashSet ℕ

-- `PaymentValidator::new`
unfoldable pub new_validator : PaymentValidator
new_validator = record { unvalidated_transactions = []; successful_transactions = [] }

pub data Error : Type 0 where
  no_such_transaction : Error

-- `Handler<ValidateLater>`
unfoldable pub validate_later : ToValidate → PaymentValidator → PaymentValidator
validate_later ts v = elim ts.payment.txid [
  | none ↦ v
  | some txid ↦
      if contains txid v.successful_transactions
      then v
      else (record v { unvalidated_transactions = add ts v.unvalidated_transactions })
]

-- `Handler<Remove>`
unfoldable pub remove :
    ToValidate → Bool → PaymentValidator → Outcome Error (Unit {0}) × PaymentValidator
remove tx success v =
    let was_present = contains tx v.unvalidated_transactions in
    let removed = record v { unvalidated_transactions = discard tx v.unvalidated_transactions } in
    if was_present
    then (if success
        then (elim tx.payment.txid [
          | none ↦ (panic, removed)
          | some txid ↦ (
            ok tt,
            record removed { successful_transactions = add txid v.successful_transactions },
          )
        ])
        else (ok tt, removed))
    else (err no_such_transaction, removed)

-- `Handler<Checked>`
unfoldable pub mark_checked : ToValidate → PaymentValidator → PaymentValidator
mark_checked tx v =
    if contains tx v.unvalidated_transactions
    then record v {
      unvalidated_transactions =
          add (record tx { checked = true }) (discard tx v.unvalidated_transactions);
    }
    else v

-- The loop of `Handler<Validate>`: the entries that have timed out, and those that are looked up;
-- `none` where an entry has timed out that no full node was ever asked about, or without a txid.
unfoldable pub sort_out : Instant → List ToValidate → Option (List ToValidate × List ToValidate)
sort_out now [] = some ([], [])
sort_out now (item ∷ items) =
    let rest = sort_out now items in
    if elapsed_over now item.recieved payment_timeout
    then (if item.checked
        then (elim item.payment.txid [
          | none ↦ none
          | some txid ↦ Option.map (λ (d, l). (item ∷ d, l)) rest
        ])
        else none)
    else Option.map (λ (d, l). (d, item ∷ l)) rest

unfoldable pub discard_all : List ToValidate → HashSet ToValidate → HashSet ToValidate
discard_all [] s = s
discard_all (item ∷ items) s = discard_all items (discard item s)

-- `Handler<Validate>`, with the entries for which `validate_transaction` asks a full node.
unfoldable pub validate :
    Instant → PaymentValidator → Outcome Error (List ToValidate) × PaymentValidator
unfolding sort_out discard_all
validate now v = elim (sort_out now v.unvalidated_transactions) [
  | none ↦ (panic, v)
  | some (to_delete, looked_up) ↦ (
    ok looked_up,
    record v { unvalidated_transactions = discard_all to_delete v.unvalidated_transactions },
  )
]

-- `make_payments` of rita_common/network_endpoints: the status of the answer.
unfoldable pub make_payments : Instant → PaymentTx → PaymentValidator → ℕ × PaymentValidator
make_payments now pmt v = elim pmt.txid [
  | none ↦ (400, v)
  | some txid ↦ (200, validate_later (record { payment = pmt; recieved = now; checked = false }) v)
]
