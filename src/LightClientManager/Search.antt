-- ===== src/LightClientManager/Search.antt =====
-- rita/src/rita_client/light_client_manager/mod.rs: the search for an unused address ends.
use althea_rs.Prelude.{
  ℕ, zero, suc, ◌+◌, ◌<◌, ◌≤◌, set, ◌≢◌, ◌≡◌, refl, ap, ◌∙◌, Bool, true, false, Option, none, some,
  List, [], ◌∷◌, leb, length, arith, if◌then◌else◌, Bool-cases, inl, inr,
}
use althea_rs.Prelude.Outcome.{Outcome, ok, err, panic}
use althea_rs.AltheaTypes.{local_identity_key}
use althea_rs.IpIncrement.{Octets, Error, incrementv4, increment_loop, down}
use althea_rs.IpIncrement.Value.{value, incrementv4-value, incrementv4-length}
use althea_rs.LightClientManager.{octets_eq, is_assigned, first_unused}

-- How many addresses have at least a number.
pub at_least : ℕ → List Octets → ℕ
at_least n [] = 0
at_least n (ip ∷ ips) = (if leb n (value ip) then 1 else 0) + at_least n ips

pub at_least-length : (n : ℕ) (ips : List Octets) → at_least n ips ≤ length ips
unfolding at_least
at_least-length n [] = omega arith
at_least-length n (ip ∷ ips) = ground (arith, at_least-length n ips)

octets_eq-eq : (a b : Octets) → octets_eq a b ≡ true → a ≡ b
octets_eq-eq [] [] h = refl
octets_eq-eq [] (y ∷ ys) h = absurd (ground arith)
octets_eq-eq (x ∷ xs) [] h = absurd (ground arith)
octets_eq-eq (x ∷ xs) (y ∷ ys) h = ground (arith, octets_eq-eq xs ys)

at_least-suc : (n : ℕ) (ips : List Octets) → at_least (suc n) ips ≤ at_least n ips
unfolding at_least
at_least-suc n [] = omega arith
at_least-suc n (ip ∷ ips) = ground (arith, at_least-suc n ips)

-- Past an assigned address there is one less.
at_least-assigned :
    (address : Octets) (ips : List Octets)
    → is_assigned address ips ≡ true
    → at_least (suc (value address)) ips < at_least (value address) ips
unfolding at_least
at_least-assigned address [] h = absurd (ground arith)
at_least-assigned address (ip ∷ ips) h = elim (Bool-cases (octets_eq address ip)) [
  | inl same ↦
      let e : value address ≡ value ip = ap value (octets_eq-eq address ip same) in
      ground (arith, at_least-suc (value address) ips)
  | inr other ↦ let rest = at_least-assigned address ips (ground arith) in ground arith
]

-- The search ends with an address that is not assigned, or with an error.
abbrev pub EndsUnused : List Octets → Option (Outcome Error Octets) → Type 0
EndsUnused assigned none = ⊥
EndsUnused assigned (some (ok ip)) = is_assigned ip assigned ≡ false
EndsUnused assigned (some (err e)) = Unit
EndsUnused assigned (some panic) = ⊥

loop-no_panic :
    (last : ℕ) (indices : List ℕ) (carry : Bool) (a : Octets)
    → increment_loop last indices carry a ≢ panic
unfolding increment_loop
loop-no_panic last [] carry a h = ground arith
loop-no_panic last (i ∷ indices) carry a h =
    ground (arith, loop-no_panic last indices true (set a i 0))

incrementv4-no_panic : (a : Octets) → incrementv4 a 24 ≢ panic
unfolding incrementv4
incrementv4-no_panic a h = loop-no_panic 3 (down 2 3) false a h

first_unused-step :
    (fuel prefix : ℕ) (assigned : List Octets) (address next : Octets)
    → is_assigned address assigned ≡ true
    → incrementv4 address prefix ≡ ok next
    → first_unused (suc fuel) assigned prefix address ≡ first_unused fuel assigned prefix next
unfolding first_unused
first_unused-step fuel prefix assigned address next h e = rw (h, e, first_unused) refl

first_unused-found :
    (fuel prefix : ℕ) (assigned : List Octets) (address : Octets)
    → is_assigned address assigned ≡ false
    → first_unused (suc fuel) assigned prefix address ≡ some (ok address)
unfolding first_unused
first_unused-found fuel prefix assigned address h = rw (h, first_unused) refl

first_unused-error :
    (fuel prefix : ℕ) (assigned : List Octets) (address : Octets) (x : Error)
    → is_assigned address assigned ≡ true
    → incrementv4 address prefix ≡ err x
    → first_unused (suc fuel) assigned prefix address ≡ some (err x)
unfolding first_unused
first_unused-error fuel prefix assigned address x h e = rw (h, e, first_unused) refl

-- The step past an assigned address, where the search from the next one ends.
step-EndsUnused :
    (fuel : ℕ) (assigned : List Octets) (address : Octets) (out : Outcome Error Octets)
    → length address ≡ 4
    → at_least (value address) assigned < suc fuel
    → is_assigned address assigned ≡ true
    → incrementv4 address 24 ≡ out
    → ((next : Octets)
        → length next ≡ 4
        → at_least (value next) assigned < fuel
        → EndsUnused assigned (first_unused fuel assigned 24 next))
    → EndsUnused assigned (first_unused (suc fuel) assigned 24 address)
step-EndsUnused fuel assigned address (ok next) hl hf taken e ih =
    let more = at_least-assigned address assigned taken in
    let v = incrementv4-value address next 24 hl e in
    let fewer : at_least (value next) assigned < fuel = rw v omega arith in
    rw (first_unused-step fuel 24 assigned address next taken e)
      (ih next (incrementv4-length address next 24 e ∙ hl) fewer)
step-EndsUnused fuel assigned address (err x) hl hf taken e ih =
    rw (first_unused-error fuel 24 assigned address x taken e) tt
step-EndsUnused fuel assigned address panic hl hf taken e ih =
    absurd (incrementv4-no_panic address e)

pub first_unused-EndsUnused :
    (fuel : ℕ) (assigned : List Octets) (address : Octets)
    → length address ≡ 4
    → at_least (value address) assigned < fuel
    → EndsUnused assigned (first_unused fuel assigned 24 address)
first_unused-EndsUnused zero assigned address hl hf = absurd (omega arith)
first_unused-EndsUnused (suc fuel) assigned address hl hf =
    elim (Bool-cases (is_assigned address assigned)) [
      | inl taken ↦
          step-EndsUnused fuel assigned address (incrementv4 address 24) hl hf taken refl
            (first_unused-EndsUnused fuel assigned)
      | inr free ↦ rw (first_unused-found fuel 24 assigned address free) free
    ]
