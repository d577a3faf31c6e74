-- ===== src/PaymentValidator/Replay.antt =====
-- rita/src/rita_common/payment_validator/mod.rs: how often a transaction is credited.
use althea_rs.Prelude.{
  ℕ, ◌≡◌, ◌≢◌, refl, ◌∙◌, Bool, true, false, some, List, [], ◌∷◌, ◌++◌, not, ◌&&◌, All,
  if◌then◌else◌, arith, Bool-cases, inl, inr,
}
use mathlib.Core.List.{append-nil}
use althea_rs.Prelude.Sets.{contains, add, discard, contains-add, contains-discard}
use althea_rs.Time.{Instant}
use althea_rs.AltheaTypes.{txid_eq, txid_eq-eq}
use althea_rs.PaymentValidator.Validator.{
  ToValidate, PaymentValidator, remove, mark_checked, validate_later, number_key, number_eq_refl,
  to_validate_key, to_validate_eq,
}
use althea_rs.PaymentValidator.Judging.{
  Removal, Message, check, removal, handle_queued, Event, later, queued, validated, handle, run,
}
use althea_rs.PaymentValidator.Spent.{
  IsOther, IsSpent, credits, IsGenuine, credits-append, waiting-IsOther, handle-IsSpent,
}

-- The messages about a transaction.
abbrev pub is_about : ℕ → Event → Bool
is_about txid (later ts) = txid_eq ts.payment.txid (some txid)
is_about txid (queued (check ts)) = txid_eq ts.payment.txid (some txid)
is_about txid (queued (removal r)) = txid_eq r.tx.payment.txid (some txid)
is_about txid (validated now) = false

-- A run without them.
abbrev pub without : ℕ → List Event → List Event
without txid [] = []
without txid (e ∷ es) = if is_about txid e then without txid es else e ∷ without txid es

discard-absent : (ts : ToValidate) (s : List ToValidate) → contains ts s ≡ false → discard ts s ≡ s
unfolding discard contains
discard-absent ts [] h = refl
discard-absent ts (item ∷ s) h = rw (discard-absent ts s (ground arith)) (ground (arith, h))

absent :
    (txid : ℕ) (ts : ToValidate) (v : PaymentValidator)
    → IsSpent txid v
    → ts.payment.txid ≡ some txid
    → contains ts v.unvalidated_transactions ≡ false
absent txid ts v spent same = elim (Bool-cases (contains ts v.unvalidated_transactions)) [
  | inl here ↦ absurd (waiting-IsOther txid ts v spent here same)
  | inr gone ↦ gone
]

handle-idle :
    (txid : ℕ) (e : Event) (v : PaymentValidator)
    → IsSpent txid v
    → is_about txid e ≡ true
    → handle e v ≡ ([], v)
unfolding handle handle_queued validate_later mark_checked remove
handle-idle txid (validated now) v spent about = absurd (ground arith)
handle-idle txid (later ts) v spent about =
    rw (txid_eq-eq ts.payment.txid (some txid) about, spent.accepted) refl
handle-idle txid (queued (check ts)) v spent about =
    rw (absent txid ts v spent (txid_eq-eq ts.payment.txid (some txid) about)) refl
handle-idle txid (queued (removal r)) v spent about =
    let gone = absent txid r.tx v spent (txid_eq-eq r.tx.payment.txid (some txid) about) in
    rw (gone, discard-absent r.tx v.unvalidated_transactions gone) refl

run-without :
    (txid : ℕ) (es : List Event) (v : PaymentValidator)
    → All IsGenuine es
    → IsSpent txid v
    → run es v ≡ run (without txid es) v
unfolding run
run-without txid [] v g spent = refl
run-without txid (e ∷ es) v g spent = elim (Bool-cases (is_about txid e)) [
  | inl about ↦ rw (about, handle-idle txid e v spent about) (run-without txid es v g.1 spent)
  | inr other ↦
      rw other
        (rw (run-without txid es (handle e v).1 g.1 (handle-IsSpent txid e v g.0 spent).1) refl)
]

run-credits :
    (txid : ℕ) (es : List Event) (v : PaymentValidator)
    → All IsGenuine es
    → IsSpent txid v
    → (credits txid (run es v).0 ≡ 0) × IsSpent txid (run es v).1
unfolding run
run-credits txid [] v g spent = (refl, spent)
run-credits txid (e ∷ es) v g spent =
    let (none_now, spent') = handle-IsSpent txid e v g.0 spent in
    let (none_later, spent'') = run-credits txid es (handle e v).1 g.1 spent' in
    (
      rw (credits-append txid (handle e v).0 (run es (handle e v).1).0)
          (omega (arith, none_now, none_later)),
      spent'',
    )

-- Once a transaction has been accepted and no entry for it waits, it is never credited again, by any
-- number of messages in any order: new claims to it, checks and removals for it change nothing and
-- make the actors send nothing, neither to the debt keeper nor to the usage tracker; the run is the
-- same without them. The removals of other entries, which answers of full nodes ask for, report
-- other transactions. It stays accepted, with no entry waiting.
pub run-IsSpent :
    (txid : ℕ) (es : List Event) (v : PaymentValidator)
    → All IsGenuine es
    → IsSpent txid v
    → (run es v ≡ run (without txid es) v)
      × (credits txid (run es v).0 ≡ 0)
      × IsSpent txid (run es v).1
run-IsSpent txid es v g spent = (
  run-without txid es v g spent,
  (run-credits txid es v g spent).0,
  (run-credits txid es v g spent).1,
)

-- The successful removal of an entry that waits credits it: the messages of its sender go out, and
-- the transaction counts as accepted.
removal-credits :
    (ts : ToValidate) (txid : ℕ) (on_ok : List Message) (v : PaymentValidator)
    → ts.payment.txid ≡ some txid
    → contains ts v.unvalidated_transactions ≡ true
    → let r : Removal = record { tx = ts; success = true; on_ok = on_ok } in
      handle_queued (removal r) v ≡ (
        on_ok,
        record v {
          unvalidated_transactions = discard ts v.unvalidated_transactions;
          successful_transactions = add txid v.successful_transactions;
        },
      )
unfolding handle_queued remove
removal-credits ts txid on_ok v e here = ground arith

-- If only one entry with a txid waits, its successful removal credits the transaction and leaves it
-- accepted with no entry waiting.
pub removal-IsSpent :
    (ts : ToValidate) (txid : ℕ) (on_ok : List Message) (v : PaymentValidator)
    → ts.payment.txid ≡ some txid
    → contains ts v.unvalidated_transactions ≡ true
    → All (IsOther txid) (discard ts v.unvalidated_transactions)
    → let r : Removal = record { tx = ts; success = true; on_ok = on_ok } in
      ((handle_queued (removal r) v).0 ≡ on_ok) × IsSpent txid (handle_queued (removal r) v).1
removal-IsSpent ts txid on_ok v e here others = rw (removal-credits ts txid on_ok v e here) (
  refl,
  record {
    accepted = rw (contains-add txid txid v.successful_transactions, number_eq_refl) refl;
    none_waits = others;
  },
)

-- Two entries for one transaction that differ in the time of arrival are both credited: the removal
-- of the first does not keep the second from being removed with success, so the messages of both
-- senders go out.
pub removal-credits_twice :
    (ts : ToValidate) (later_time : Instant) (txid : ℕ) (on_ok : List Message)
    (v : PaymentValidator)
    → ts.payment.txid ≡ some txid
    → ts.recieved ≢ later_time
    → contains ts v.unvalidated_transactions ≡ true
    → contains (record ts { recieved = later_time }) v.unvalidated_transactions ≡ true
    → let r : Removal = record { tx = ts; success = true; on_ok = on_ok } in
      let r' : Removal = record r { tx = record ts { recieved = later_time } } in
      (run (queued (removal r) ∷ queued (removal r') ∷ []) v).0 ≡ on_ok ++ on_ok
unfolding run handle
removal-credits_twice ts later_time txid on_ok v e apart here there =
    let ts' : ToValidate = record ts { recieved = later_time } in
    let differ : to_validate_eq ts ts' ≡ false = ground (arith, apart) in
    let waiting = v.unvalidated_transactions in
    let v' : PaymentValidator = record v {
      unvalidated_transactions = discard ts waiting;
      successful_transactions = add txid v.successful_transactions;
    } in
    let both : (not (to_validate_eq ts ts') && contains ts' waiting) ≡ true =
      rw (differ, there) refl in
    let still : contains ts' (discard ts waiting) ≡ true = contains-discard ts ts' waiting ∙ both in
    rw (removal-credits ts txid on_ok v e here)
      (rw (removal-credits ts' txid on_ok v' e still) (rw append-nil refl))
