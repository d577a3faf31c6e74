-- ===== src/PaymentValidator/Timeout.antt =====
-- rita/src/rita_common/payment_validator/mod.rs: what `Validate` drops, and when it panics.
use althea_rs.Prelude.{
  ◌≡◌, ◌≢◌, ◌↔◌, refl, sym, ◌∙◌, Bool, true, false, not, ◌&&◌, ◌||◌, none, some, List, [], ◌∷◌, All,
  any, if◌then◌else◌, arith, Bool-cases, inl, inr, Option-cases,
}
use althea_rs.Prelude.Sets.{contains, discard, contains-discard}
use althea_rs.Prelude.Outcome.{ok, panic}
use althea_rs.Time.{Instant, elapsed_over}
use althea_rs.PaymentValidator.Validator.{
  ToValidate, PaymentValidator, payment_timeout, sort_out, discard_all, validate, to_validate_key,
  to_validate_eq,
}

abbrev pub timed_out : Instant → ToValidate → Bool
timed_out now ts = elapsed_over now ts.recieved payment_timeout

timed_out-eq :
    (now : Instant) (a b : ToValidate)
    → to_validate_eq a b ≡ true
    → timed_out now a ≡ timed_out now b
timed_out-eq now a b h = let same : a.recieved ≡ b.recieved = ground arith in rw same refl

contains-discard_all :
    (ts : ToValidate) (d s : List ToValidate)
    → contains ts (discard_all d s) ≡ (not (contains ts d) && contains ts s)
unfolding discard_all contains
contains-discard_all ts [] s = refl
contains-discard_all ts (item ∷ d) s =
    rw (contains-discard_all ts d (discard item s), contains-discard item ts s)
      (step (to_validate_eq item ts) (contains ts d) (contains ts s))
  where
    step : (a b c : Bool) → (not b && (not a && c)) ≡ (not (a || b) && c)
    step true true c = refl
    step true false c = refl
    step false b c = refl

-- The two lists of the loop, as sets.
abbrev Sorted : Instant → List ToValidate → List ToValidate × List ToValidate → Type 0
Sorted now s (d, l) =
    (ts : ToValidate)
    → (contains ts d ≡ (timed_out now ts && contains ts s))
      × (contains ts l ≡ (not (timed_out now ts) && contains ts s))

abbrev put :
    Instant → ToValidate → List ToValidate × List ToValidate → List ToValidate × List ToValidate
put now item (d, l) = if timed_out now item then (item ∷ d, l) else (d, item ∷ l)

sort_out-cons :
    (now : Instant) (item : ToValidate) (items : List ToValidate)
    (p : List ToValidate × List ToValidate)
    → sort_out now (item ∷ items) ≡ some p
    → (q : List ToValidate × List ToValidate) × (sort_out now items ≡ some q) × (p ≡ put now item q)
unfolding sort_out
sort_out-cons now item items p h = elim (Option-cases (sort_out now items)) [
  | inl e ↦ absurd (ground arith)
  | inr (q, e) ↦ (q, e, ground arith)
]

sort_out-Sorted :
    (now : Instant) (s : List ToValidate) (p : List ToValidate × List ToValidate)
    → sort_out now s ≡ some p
    → Sorted now s p
unfolding contains
sort_out-Sorted now [] p h ts = unfold sort_out in ground arith
sort_out-Sorted now (item ∷ items) p h ts =
    let (q, e, eq) = sort_out-cons now item items p h in
    let ih = sort_out-Sorted now items q e ts in
    rw eq (elim (Bool-cases (timed_out now item)) [
      | inl late ↦ elim (Bool-cases (to_validate_eq item ts)) [
        | inl same ↦
            let t = sym (timed_out-eq now item ts same) ∙ late in
            let z : (not (timed_out now ts) && contains ts items) ≡ false = rw t refl in
            rw (late, same, t) (refl, ih.1 ∙ z)
        | inr other ↦ rw (late, other) ih
      ]
      | inr fresh ↦ elim (Bool-cases (to_validate_eq item ts)) [
        | inl same ↦
            let t = sym (timed_out-eq now item ts same) ∙ fresh in
            let z : (timed_out now ts && contains ts items) ≡ false = rw t refl in
            rw (fresh, same, t) (ih.0 ∙ z, refl)
        | inr other ↦ rw (fresh, other) ih
      ]
    ])

kept : {c : Bool} (late waits : Bool) → c ≡ (late && waits) → (not c && waits) ≡ (not late && waits)
kept true true h = rw h refl
kept true false h = rw h refl
kept false b h = rw h refl

-- Where `Validate` does not panic, the entries that still wait afterwards are exactly those that
-- waited before and are not older than the timeout, and a full node is asked about exactly these;
-- the accepted transactions stay.
pub validate-contains :
    (now : Instant) (v : PaymentValidator) (looked_up : List ToValidate)
    → (validate now v).0 ≡ ok looked_up
    → ((ts : ToValidate)
        → let waits = not (timed_out now ts) && contains ts v.unvalidated_transactions in
          (contains ts (validate now v).1.unvalidated_transactions ≡ waits)
          × (contains ts looked_up ≡ waits))
      × ((validate now v).1.successful_transactions ≡ v.successful_transactions)
unfolding validate
validate-contains now v looked_up h =
    elim (Option-cases (sort_out now v.unvalidated_transactions)) [
      | inl e ↦ absurd (ground arith)
      | inr ((d, l), e) ↦
          let sorted = sort_out-Sorted now v.unvalidated_transactions (d, l) e in
          let left : (validate now v).1.unvalidated_transactions
              ≡ discard_all d v.unvalidated_transactions =
            ground arith in
          let asked : looked_up ≡ l = ground arith in
          (
            λ ts. (
              rw left (
                  contains-discard_all ts d v.unvalidated_transactions
                  ∙ kept (timed_out now ts) (contains ts v.unvalidated_transactions) (sorted ts).0),
              rw asked ((sorted ts).1),
            ),
            ground arith,
          )
    ]

-- An entry whose timeout has passed though no full node was ever asked about it.
abbrev pub is_unreachable : Instant → ToValidate → Bool
is_unreachable now ts = timed_out now ts && not ts.checked

sort_out-none :
    (now : Instant) (s : List ToValidate)
    → All (λ ts. ts.payment.txid ≢ none) s
    → any (is_unreachable now) s ≡ (elim (sort_out now s) [ none ↦ true | some p ↦ false ])
unfolding sort_out
sort_out-none now [] h = refl
sort_out-none now (item ∷ items) h = ground (arith, h.0, sort_out-none now items h.1)

-- `Validate` panics exactly if some entry has timed out that no full node was ever asked about, as
-- long as every entry has its txid.
pub validate-panics :
    (now : Instant) (v : PaymentValidator)
    → All (λ ts. ts.payment.txid ≢ none) v.unvalidated_transactions
    → ((validate now v).0 ≡ panic) ↔ (any (is_unreachable now) v.unvalidated_transactions ≡ true)
unfolding validate
validate-panics now v h = ground (arith, sort_out-none now v.unvalidated_transactions h)
