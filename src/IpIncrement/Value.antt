-- ===== src/IpIncrement/Value.antt =====
-- rita/src/rita_common/utils/ip_increment.rs: an increment adds one to the number of the address.
use native.Mathlib.Nat.{pow-succ'}
use native.Mathlib.Numerals.{unary_clauses}
use althea_rs.Prelude.{
  ℕ, zero, suc, ◌+◌, ◌-◌, ◌*◌, ◌^◌, ◌≤◌, ◌<◌, ◌≡◌, refl, ◌∙◌, sym, Bool, true, false, List, [], ◌∷◌,
  length, get_or, set, length-set, arith, inl, inr, ◌⊎◌,
}
use althea_rs.Prelude.Outcome.{ok}
use althea_rs.IpIncrement.{
  Octets, down, increment_loop, bytes_to_modify, incrementv4, incrementv6, IpAddr, v4, v6,
  increment,
}

-- The number that the octets spell.
pub value : Octets → ℕ
value [] = 0
value (x ∷ xs) = x * 256 ^ length xs + value xs

-- What the octet at an index counts.
weight : Octets → ℕ → ℕ
weight [] i = 0
weight (x ∷ xs) zero = 256 ^ length xs
weight (x ∷ xs) (suc i) = weight xs i

value-set :
    (xs : Octets) (i v : ℕ)
    → i < length xs
    → value (set xs i v) + get_or xs i 0 * weight xs i ≡ value xs + v * weight xs i
unfolding value weight
value-set [] i v h = absurd (omega arith)
value-set (x ∷ xs) zero v h = omega arith
value-set (x ∷ xs) (suc i) v h =
    let rest = value-set xs i v (omega arith) in rw (length-set xs i v) omega arith

weight-set : (xs : Octets) (i j v : ℕ) → weight (set xs i v) j ≡ weight xs j
unfolding weight
weight-set [] i j v = refl
weight-set (x ∷ xs) zero zero v = refl
weight-set (x ∷ xs) zero (suc j) v = refl
weight-set (x ∷ xs) (suc i) zero v = rw (length-set xs i v) refl
weight-set (x ∷ xs) (suc i) (suc j) v = weight-set xs i j v

pow_suc : (n : ℕ) → 256 ^ suc n ≡ 256 * 256 ^ n
pow_suc n = pow-succ' 256 n

weight-suc : (xs : Octets) (i : ℕ) → suc i < length xs → weight xs i ≡ 256 * weight xs (suc i)
unfolding weight
weight-suc [] i h = absurd (omega arith)
weight-suc (x ∷ []) i h = absurd (omega arith)
weight-suc (x ∷ (y ∷ ys)) zero h = pow_suc (length ys)
weight-suc (x ∷ (y ∷ ys)) (suc i) h = weight-suc (y ∷ ys) i (omega arith)

weight_last : (xs : Octets) (n : ℕ) → length xs ≡ suc n → weight xs n ≡ 1
unfolding weight
weight_last [] n h = absurd (omega arith)
weight_last (x ∷ []) n h = let e : n ≡ 0 = omega arith in rw e refl
weight_last (x ∷ (y ∷ ys)) zero h = absurd (omega arith)
weight_last (x ∷ (y ∷ ys)) (suc n) h = weight_last (y ∷ ys) n (omega arith)

weight-pred : (xs : Octets) (i : ℕ) → 0 < i → i < length xs → weight xs (i - 1) ≡ 256 * weight xs i
weight-pred xs zero hp h = absurd (omega arith)
weight-pred xs (suc i) hp h = simp unary_clauses (weight-suc xs i h)

-- What an iteration of the loop that succeeds has done.
loop-step :
    (last i : ℕ) (indices : List ℕ) (carry : Bool) (oct r : Octets)
    → increment_loop last (i ∷ indices) carry oct ≡ ok r
    → (get_or oct i 0 ≡ 255 × increment_loop last indices true (set oct i 0) ≡ ok r)
      ⊎ r ≡ set oct i (get_or oct i 0 + 1)
unfolding increment_loop
loop-step last i indices carry oct r h = ground arith

added :
    (oct : Octets) (i : ℕ)
    → i < length oct
    → value (set oct i (get_or oct i 0 + 1)) ≡ value oct + weight oct i
added oct i h = let e = value-set oct i (get_or oct i 0 + 1) h in omega arith

carried :
    (oct : Octets) (i : ℕ) (r : Octets)
    → 0 < i
    → i < length oct
    → get_or oct i 0 ≡ 255
    → value r ≡ value (set oct i 0) + weight (set oct i 0) (i - 1)
    → value r ≡ value oct + weight oct i
carried oct i r hp h full e =
    let e₁ : value (set oct i 0) + 255 * weight oct i ≡ value oct + 0 * weight oct i =
      rw (sym full) (value-set oct i 0 h) in
    let e₂ = weight-set oct i (i - 1) 0 in let e₃ = weight-pred oct i hp h in omega arith

loop-value :
    (last n i : ℕ) (carry : Bool) (oct r : Octets)
    → i < length oct
    → n ≤ suc i
    → increment_loop last (down n i) carry oct ≡ ok r
    → value r ≡ value oct + weight oct i
unfolding increment_loop down
loop-value last zero i carry oct r hi hn h = absurd (ground arith)
loop-value last (suc zero) i carry oct r hi hn h = elim (loop-step last i [] carry oct r h) [
  | inl (full, h') ↦ absurd (ground arith)
  | inr e ↦ rw e (added oct i hi)
]
loop-value last (suc (suc n)) i carry oct r hi hn h =
    elim (loop-step last i (down (suc n) (i - 1)) carry oct r h) [
      | inl (full, h') ↦ carried oct i r (omega arith) hi full (
          loop-value last (suc n) (i - 1) true (set oct i 0) r (rw (length-set oct i 0) omega arith)
            (omega arith) h')
      | inr e ↦ rw e (added oct i hi)
    ]

unfoldable pub number : IpAddr → ℕ
number (v4 a) = value a
number (v6 a) = value a

abbrev pub HasOctets : IpAddr → Type 0
HasOctets (v4 a) = length a ≡ 4
HasOctets (v6 a) = length a ≡ 16

incrementv4-loop :
    (a r : Octets) (m : ℕ)
    → incrementv4 a m ≡ ok r
    → let b = bytes_to_modify 32 m in b ≤ 3 × increment_loop (4 - b) (down (b + 1) 3) false a ≡ ok r
unfolding incrementv4
incrementv4-loop a r m h = ground arith

incrementv6-loop :
    (a r : Octets) (m : ℕ)
    → incrementv6 a m ≡ ok r
    → let b = bytes_to_modify 128 m in b ≤ 15 × increment_loop (15 - b) (down b 15) false a ≡ ok r
unfolding incrementv6
incrementv6-loop a r m h = ground arith

loop-length :
    (last n i : ℕ) (carry : Bool) (oct r : Octets)
    → increment_loop last (down n i) carry oct ≡ ok r
    → length r ≡ length oct
unfolding increment_loop down
loop-length last zero i carry oct r h = absurd (ground arith)
loop-length last (suc n) i carry oct r h = elim (loop-step last i (down n (i - 1)) carry oct r h) [
  | inl (full, h') ↦ loop-length last n (i - 1) true (set oct i 0) r h' ∙ length-set oct i 0
  | inr e ↦ rw e (length-set oct i (get_or oct i 0 + 1))
]

pub incrementv4-length : (a r : Octets) (m : ℕ) → incrementv4 a m ≡ ok r → length r ≡ length a
incrementv4-length a r m h =
    let b = bytes_to_modify 32 m in
    loop-length (4 - b) (b + 1) 3 false a r (incrementv4-loop a r m h).1

pub incrementv4-value :
    (a r : Octets) (m : ℕ) → length a ≡ 4 → incrementv4 a m ≡ ok r → value r ≡ suc (value a)
incrementv4-value a r m ha h =
    let b = bytes_to_modify 32 m in
    let (hb, e) = incrementv4-loop a r m h in
    let v = loop-value (4 - b) (b + 1) 3 false a r (omega arith) (omega arith) e in
    let w = weight_last a 3 ha in omega arith

incrementv6-value :
    (a r : Octets) (m : ℕ) → length a ≡ 16 → incrementv6 a m ≡ ok r → value r ≡ suc (value a)
incrementv6-value a r m ha h =
    let b = bytes_to_modify 128 m in
    let (hb, e) = incrementv6-loop a r m h in
    let v = loop-value (15 - b) b 15 false a r (omega arith) (omega arith) e in
    let w = weight_last a 15 ha in omega arith

-- An increment that succeeds, of an address with as many octets as its version has, gives an
-- address whose number is one more.
pub increment-value :
    (a r : IpAddr) (m : ℕ) → HasOctets a → increment a m ≡ ok r → number r ≡ suc (number a)
unfolding increment number
increment-value (v4 a) (v4 r) m ha h = incrementv4-value a r m ha (ground arith)
increment-value (v4 a) (v6 r) m ha h = absurd (ground arith)
increment-value (v6 a) (v4 r) m ha h = absurd (ground arith)
increment-value (v6 a) (v6 r) m ha h = incrementv6-value a r m ha (ground arith)
