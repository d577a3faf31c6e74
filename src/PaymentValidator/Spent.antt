-- ===== src/PaymentValidator/Spent.antt =====
-- rita/src/rita_common/payment_validator/mod.rs: what a transaction that has been accepted stays.
use althea_rs.Prelude.{
  ℕ, suc, ◌+◌, ◌≡◌, ◌≢◌, refl, ap, Bool, true, false, some, List, [], ◌∷◌, ◌++◌, All, if◌then◌else◌,
  arith, Bool-cases, inl, inr, Option-cases,
}
use althea_rs.Prelude.Sets.{contains, discard, All-add, All-discard, contains-add, All-contains}
use althea_rs.Time.{Instant}
use althea_rs.AltheaTypes.{txid_eq, txid_eq-eq}
use althea_rs.PaymentValidator.Validator.{
  ToValidate, PaymentValidator, remove, mark_checked, validate_later, number_key, validate,
  sort_out, discard_all, to_validate_key, to_validate_eq,
}
use althea_rs.PaymentValidator.Judging.{
  TransactionResponse, settle, handle_tx_messaging, Removal, Message, payment_received,
  payment_succeeded, update_payments, check, removal, handle_queued, Event, later, queued,
  validated, handle,
}

-- The entry is for another transaction.
abbrev pub IsOther : ℕ → ToValidate → Type 0
IsOther txid ts = ts.payment.txid ≢ some txid

-- The transaction has been accepted, and no entry with its txid waits.
pub record IsSpent (txid : ℕ) (v : PaymentValidator) : Type 0 where
  pub accepted : contains txid v.successful_transactions ≡ true
  pub none_waits : All (IsOther txid) v.unvalidated_transactions

-- The reports of a transaction to the usage tracker.
abbrev pub credits : ℕ → List Message → ℕ
credits txid [] = 0
credits txid (payment_received from amount ∷ ms) = credits txid ms
credits txid (payment_succeeded to amount ∷ ms) = credits txid ms
credits txid (update_payments pmt ∷ ms) =
    if txid_eq pmt.txid (some txid) then suc (credits txid ms) else credits txid ms

-- A removal that `handle_tx_messaging` has asked for.
abbrev pub IsGenuine : Event → Type 0
IsGenuine (later ts) = Unit
IsGenuine (queued (check ts)) = Unit
IsGenuine (validated now) = Unit
IsGenuine (queued (removal r)) =
    (our_address : ℕ) × (tx : TransactionResponse) × (ts : ToValidate) × (block : ℕ)
    × (handle_tx_messaging our_address tx ts block ≡ some r)

pub credits-append :
    (txid : ℕ) (xs ys : List Message) → credits txid (xs ++ ys) ≡ credits txid xs + credits txid ys
credits-append txid [] ys = omega arith
credits-append txid (payment_received from amount ∷ xs) ys = credits-append txid xs ys
credits-append txid (payment_succeeded to amount ∷ xs) ys = credits-append txid xs ys
credits-append txid (update_payments pmt ∷ xs) ys = ground (arith, credits-append txid xs ys)

-- What a genuine removal reports is the payment of its entry.
credits-genuine :
    (txid our_address : ℕ) (tx : TransactionResponse) (ts : ToValidate) (block : ℕ) (r : Removal)
    → handle_tx_messaging our_address tx ts block ≡ some r
    → r.tx.payment.txid ≢ some txid
    → credits txid r.on_ok ≡ 0
unfolding handle_tx_messaging settle
credits-genuine txid our_address tx ts block r h ne =
    ground (arith, txid_eq-eq r.tx.payment.txid (some txid))

IsOther-resp :
    (txid : ℕ) (a b : ToValidate) → to_validate_eq a b ≡ true → IsOther txid a → IsOther txid b
IsOther-resp txid a b h ne e = ground (arith, txid_eq-eq a.payment.txid b.payment.txid)

pub waiting-IsOther :
    (txid : ℕ) (ts : ToValidate) (v : PaymentValidator)
    → IsSpent txid v
    → contains ts v.unvalidated_transactions ≡ true
    → IsOther txid ts
waiting-IsOther txid ts v spent h =
    All-contains (IsOther txid) (IsOther-resp txid) ts v.unvalidated_transactions h spent.none_waits

-- A transaction that is accepted differs from one that is not.
unaccepted-IsOther :
    (txid t : ℕ) (ts : ToValidate) (v : PaymentValidator)
    → IsSpent txid v
    → contains t v.successful_transactions ≡ false
    → ts.payment.txid ≡ some t
    → IsOther txid ts
unaccepted-IsOther txid t ts v spent new e same =
    let eq : t ≡ txid = cc in cc (ap (λ x. contains x v.successful_transactions) eq, spent.accepted)

validate_later-IsSpent :
    (txid : ℕ) (ts : ToValidate) (v : PaymentValidator)
    → IsSpent txid v
    → IsSpent txid (validate_later ts v)
unfolding validate_later
validate_later-IsSpent txid ts v spent = elim (Option-cases ts.payment.txid) [
  | inl e ↦ rw (e, validate_later) spent
  | inr (t, e) ↦ elim (Bool-cases (contains t v.successful_transactions)) [
    | inl old ↦ rw (e, old, validate_later) spent
    | inr new ↦
        rw (e, new, validate_later)
          (record {
            accepted = spent.accepted;
            none_waits =
                All-add (IsOther txid) ts v.unvalidated_transactions
                  (unaccepted-IsOther txid t ts v spent new e) spent.none_waits;
          })
  ]
]

mark_checked-IsSpent :
    (txid : ℕ) (ts : ToValidate) (v : PaymentValidator)
    → IsSpent txid v
    → IsSpent txid (mark_checked ts v)
unfolding mark_checked
mark_checked-IsSpent txid ts v spent = elim (Bool-cases (contains ts v.unvalidated_transactions)) [
  | inl here ↦
      rw (here, mark_checked)
        (record {
          accepted = spent.accepted;
          none_waits =
              All-add (IsOther txid) (record ts { checked = true })
                (discard ts v.unvalidated_transactions) (waiting-IsOther txid ts v spent here)
                (All-discard (IsOther txid) ts v.unvalidated_transactions spent.none_waits);
        })
  | inr gone ↦ rw (gone, mark_checked) spent
]

remove-unvalidated :
    (ts : ToValidate) (success : Bool) (v : PaymentValidator)
    → (remove ts success v).1.unvalidated_transactions ≡ discard ts v.unvalidated_transactions
unfolding remove
remove-unvalidated ts success v = ground arith

remove-IsSpent :
    (txid : ℕ) (ts : ToValidate) (success : Bool) (v : PaymentValidator)
    → IsSpent txid v
    → IsSpent txid (remove ts success v).1
remove-IsSpent txid ts success v spent =
    let fewer = All-discard (IsOther txid) ts v.unvalidated_transactions spent.none_waits in
    record { accepted = kept; none_waits = rw (remove-unvalidated ts success v) fewer }
  where
    kept : contains txid (remove ts success v).1.successful_transactions ≡ true
    kept = elim (Option-cases ts.payment.txid) [
      | inl e ↦ unfold remove in ground (arith, spent.accepted)
      | inr (t, e) ↦
          unfold remove in
          ground (arith, spent.accepted, contains-add t txid v.successful_transactions)
    ]

-- An entry that does not wait is not credited; one that waits is for another transaction.
removal-no_credit :
    (txid our_address : ℕ) (tx : TransactionResponse) (ts : ToValidate) (block : ℕ) (r : Removal)
    (v : PaymentValidator)
    → handle_tx_messaging our_address tx ts block ≡ some r
    → IsSpent txid v
    → credits txid (handle_queued (removal r) v).0 ≡ 0
removal-no_credit txid our_address tx ts block r v h spent =
    elim (Bool-cases (contains r.tx v.unvalidated_transactions)) [
      | inl here ↦
          unfold handle_queued remove in
          ground (
            arith,
            here,
            credits-genuine txid our_address tx ts block r h
                (waiting-IsOther txid r.tx v spent here),
          )
      | inr gone ↦ unfold handle_queued remove in ground (arith, gone)
    ]

All-discard_all :
    (P : ToValidate → Type 0) (d s : List ToValidate) → All P s → All P (discard_all d s)
unfolding discard_all
All-discard_all P [] s h = h
All-discard_all P (item ∷ d) s h = All-discard_all P d (discard item s) (All-discard P item s h)

validate-IsSpent :
    (txid : ℕ) (now : Instant) (v : PaymentValidator)
    → IsSpent txid v
    → IsSpent txid (validate now v).1
unfolding validate
validate-IsSpent txid now v spent = elim (Option-cases (sort_out now v.unvalidated_transactions)) [
  | inl crash ↦ rw (crash, validate) spent
  | inr ((d, l), sorted) ↦
      rw (sorted, validate)
        (record {
          accepted = spent.accepted;
          none_waits = All-discard_all (IsOther txid) d v.unvalidated_transactions spent.none_waits;
        })
]

pub handle-IsSpent :
    (txid : ℕ) (e : Event) (v : PaymentValidator)
    → IsGenuine e
    → IsSpent txid v
    → (credits txid (handle e v).0 ≡ 0) × IsSpent txid (handle e v).1
unfolding handle handle_queued
handle-IsSpent txid (later ts) v g spent = (refl, validate_later-IsSpent txid ts v spent)
handle-IsSpent txid (validated now) v g spent = (refl, validate-IsSpent txid now v spent)
handle-IsSpent txid (queued (check ts)) v g spent = (refl, mark_checked-IsSpent txid ts v spent)
handle-IsSpent txid (queued (removal r)) v (our_address, tx, ts, block, h) spent = (
  removal-no_credit txid our_address tx ts block r v h spent,
  remove-IsSpent txid r.tx r.success v spent,
)
