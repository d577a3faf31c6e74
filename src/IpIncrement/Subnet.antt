-- ===== src/IpIncrement/Subnet.antt =====
-- rita/src/rita_common/utils/ip_increment.rs: whether an increment stays in the subnet.
use althea_rs.Prelude.{
  ℕ, zero, suc, ◌+◌, ◌-◌, ◌*◌, ◌≤◌, ◌<◌, ◌≡◌, refl, sym, ◌∙◌, Bool, true, false, List, [], ◌∷◌,
  ◌==◌, ◌&&◌, get_or, set, arith, if◌then◌else◌, Bool-cases, inl, inr, ◌⊎◌,
}
use althea_rs.Prelude.Outcome.{Outcome, ok, err}
use althea_rs.IpIncrement.{
  Error, exhausted, no_more_space, Octets, down, increment_loop, bytes_to_modify, incrementv4,
  incrementv6,
}

-- What the increment of an address should give, where the octets from an index on are free: the
-- octets before it stay, or there is an error since the free ones are all 255.
pub data StaysWithin (first last : ℕ) (a : Octets) : Outcome Error Octets → Type 0 where
  within :
      (r : Octets)
      → ((j : ℕ) → j < first → get_or r j 0 ≡ get_or a j 0)
      → StaysWithin first last a (ok r)
  used_up :
      (e : Error)
      → ((j : ℕ) → first ≤ j → j ≤ last → get_or a j 0 ≡ 255)
      → StaysWithin first last a (err e)

get_or-set_other : (xs : Octets) (i j v : ℕ) → j < i → get_or (set xs i v) j 0 ≡ get_or xs j 0
get_or-set_other [] i j v h = refl
get_or-set_other (x ∷ xs) zero j v h = absurd (omega arith)
get_or-set_other (x ∷ xs) (suc i) zero v h = refl
get_or-set_other (x ∷ xs) (suc i) (suc j) v h = get_or-set_other xs i j v (omega arith)

eq_or_less : (j i : ℕ) → j ≤ i → j ≡ i ⊎ j < i
eq_or_less j i h = ground arith

carry_over :
    (first i : ℕ) (a : Octets) (out : Outcome Error Octets)
    → first ≤ i
    → get_or a i 0 ≡ 255
    → StaysWithin first (i - 1) (set a i 0) out
    → StaysWithin first i a out
carry_over first i a _ h full (within r same) =
    within r (λ j hj. same j hj ∙ get_or-set_other a i j 0 (omega arith))
carry_over first i a _ h full (used_up e all) = used_up e (λ j hj hi. elim (eq_or_less j i hi) [
  | inl same ↦ rw same full
  | inr less ↦ sym (get_or-set_other a i j 0 less) ∙ all j hj (omega arith)
])

loop_end :
    (bound : ℕ) (carry : Bool) (a : Octets) → increment_loop bound [] carry a ≡ err no_more_space
unfolding increment_loop
loop_end bound carry a = refl

loop-full :
    (bound i : ℕ) (indices : List ℕ) (carry : Bool) (a : Octets)
    → bound < i
    → get_or a i 0 ≡ 255
    → increment_loop bound (i ∷ indices) carry a ≡ increment_loop bound indices true (set a i 0)
unfolding increment_loop
loop-full bound i indices carry a h full = ground arith

loop-room :
    (bound i : ℕ) (indices : List ℕ) (carry : Bool) (a : Octets)
    → bound < i
    → (get_or a i 0 == 255) ≡ false
    → increment_loop bound (i ∷ indices) carry a ≡ ok (set a i (get_or a i 0 + 1))
unfolding increment_loop
loop-room bound i indices carry a h room = ground arith

loop-StaysWithin :
    (bound n i : ℕ) (carry : Bool) (a : Octets)
    → bound + n ≡ i
    → StaysWithin (suc bound) i a (increment_loop bound (down n i) carry a)
unfolding down
loop-StaysWithin bound zero i carry a h =
    rw (loop_end bound carry a) (used_up no_more_space (λ j hj hi. absurd (omega arith)))
loop-StaysWithin bound (suc n) i carry a h = elim (Bool-cases (get_or a i 0 == 255)) [
  | inl is_full ↦
      let full : get_or a i 0 ≡ 255 = ground arith in
      let rest = loop-StaysWithin bound n (i - 1) true (set a i 0) (omega arith) in
      rw (loop-full bound i (down n (i - 1)) carry a (omega arith) full)
        (carry_over (suc bound) i a _ (omega arith) full rest)
  | inr room ↦
      rw (loop-room bound i (down n (i - 1)) carry a (omega arith) room)
        (within (set a i (get_or a i 0 + 1)) (λ j hj. get_or-set_other a i j _ (omega arith)))
]

StaysWithin-from :
    (n first last : ℕ) (a : Octets) (out : Outcome Error Octets)
    → n ≡ first
    → StaysWithin n last a out
    → StaysWithin first last a out
StaysWithin-from n first last a out e h = rw (sym e) h

incrementv6-loop :
    (a : Octets) (prefix : ℕ)
    → 1 ≤ prefix
    → prefix ≤ 15
    → incrementv6 a (8 * prefix) ≡ increment_loop (prefix - 1) (down (16 - prefix) 15) false a
unfolding incrementv6
incrementv6-loop a prefix h₁ h₂ =
    let bytes : bytes_to_modify 128 (8 * prefix) ≡ 16 - prefix = omega arith in
    let bound : 15 - (16 - prefix) ≡ prefix - 1 = omega arith in rw bytes (rw bound ground arith)

-- An increment of an IPv6 address, with a prefix of whole octets that leaves between one and
-- fifteen of them free, keeps the octets of the prefix, or fails since all the free octets are 255.
pub incrementv6-StaysWithin :
    (a : Octets) (prefix : ℕ)
    → 1 ≤ prefix
    → prefix ≤ 15
    → StaysWithin prefix 15 a (incrementv6 a (8 * prefix))
incrementv6-StaysWithin a prefix h₁ h₂ = rw (incrementv6-loop a prefix h₁ h₂) (
    StaysWithin-from _ prefix 15 a _ (omega arith)
      (loop-StaysWithin (prefix - 1) (16 - prefix) 15 false a (omega arith)))

-- With a prefix of sixteen bits the last two octets of an IPv4 address are free: the increment
-- keeps the first two, carries out of a last octet of 255, and fails where both are 255.
pub incrementv4-sixteen :
    (a b c d : ℕ)
    → incrementv4 (a ∷ (b ∷ (c ∷ (d ∷ [])))) 16 ≡ (
        if c == 255 && d == 255
        then err exhausted
        else ok
            (if d == 255 then a ∷ (b ∷ ((c + 1) ∷ (0 ∷ []))) else a ∷ (b ∷ (c ∷ ((d + 1) ∷ [])))))
unfolding incrementv4 increment_loop down
incrementv4-sixteen a b c d = ground arith

-- With a prefix of twenty-four bits the increment of an IPv4 address whose last octet is 255, and
-- whose third octet is less, does not fail: it gives the first address of the next subnet.
pub incrementv4-leaves :
    (a b c : ℕ)
    → c < 255
    → incrementv4 (a ∷ (b ∷ (c ∷ (255 ∷ [])))) 24 ≡ ok (a ∷ (b ∷ ((c + 1) ∷ (0 ∷ []))))
unfolding incrementv4 increment_loop down
incrementv4-leaves a b c h = ground arith
