-- ===== src/Prelude/Sets.antt =====
-- A `HashSet` as a list without equal elements; the order of the list stands for the order of
-- iteration. Elements are compared by their `Key`.
use mathlib.Core.Path.{◌≡◌, refl, sym, ◌∙◌}
use mathlib.Core.Bool.{Bool, true, false, not, ◌&&◌, ◌||◌, false≢true}
use mathlib.Core.Logic.{inl, inr}
use mathlib.Core.List.{List, [], ◌∷◌}
use native.Mathlib.Omega.{arith}
use althea_rs.Prelude.Tests.{if◌then◌else◌, Bool-cases}
use althea_rs.Prelude.Lists.{All}
use althea_rs.Prelude.Maps.{Key}

abbrev pub HashSet : Type 0 → Type 0
HashSet = List

absorb : (a b : Bool) → (not a && b) ≡ (not a && (a || b))
absorb true b = refl
absorb false b = refl

module _ {K : Type 0} ⦃key : Key K⦄ where
  unfoldable pub contains : K → HashSet K → Bool
  contains k [] = false
  contains k (j ∷ s) = key.eq j k || contains k s

  unfoldable pub add : K → HashSet K → HashSet K
  add k s = if contains k s then s else k ∷ s

  unfoldable pub discard : K → HashSet K → HashSet K
  discard k [] = []
  discard k (j ∷ s) = if key.eq j k then discard k s else j ∷ discard k s

  pub eq_sym : (a b : K) → key.eq a b ≡ key.eq b a
  eq_sym a b = ground (arith, key.eq_refl a, key.eq_refl b, key.eq_cong a b a, key.eq_cong b a b)

  pub contains-eq : (i j : K) (s : HashSet K) → key.eq i j ≡ true → contains i s ≡ contains j s
  unfolding contains
  contains-eq i j [] h = refl
  contains-eq i j (k ∷ s) h =
      ground (arith, contains-eq i j s h, key.eq_cong i j k h, eq_sym k i, eq_sym k j)

  pub contains-add : (k j : K) (s : HashSet K) → contains j (add k s) ≡ (key.eq k j || contains j s)
  unfolding add contains
  contains-add k j s = ground (arith, contains-eq k j s)

  pub contains-discard :
      (k j : K) (s : HashSet K) → contains j (discard k s) ≡ (not (key.eq k j) && contains j s)
  unfolding discard contains
  contains-discard k j [] = ground arith
  contains-discard k j (i ∷ s) = elim (Bool-cases (key.eq i k)) [
    | inl same ↦
        rw (same, discard)
          (rw (contains-discard k j s, key.eq_cong i k j same) (absorb (key.eq k j) (contains j s)))
    | inr other ↦ elim (Bool-cases (key.eq k j)) [
      | inl mine ↦
          let apart : key.eq i j ≡ false =
            eq_sym i j ∙ sym (key.eq_cong k j i mine) ∙ eq_sym k i ∙ other in
          rw (other, discard) (rw (contains-discard k j s, apart) refl)
      | inr theirs ↦ rw (other, discard) (rw (contains-discard k j s, theirs) refl)
    ]
  ]

module _ {ℓ} {K : Type 0} ⦃key : Key K⦄ (P : K → Type ℓ) where
  pub All-add : (k : K) (s : HashSet K) → P k → All P s → All P (add k s)
  unfolding add
  All-add k s p h = elim (Bool-cases (contains k s)) [
    | inl old ↦ rw old h
    | inr new ↦ rw new (p, h)
  ]

  pub All-discard : (k : K) (s : HashSet K) → All P s → All P (discard k s)
  unfolding discard
  All-discard k [] h = tt
  All-discard k (j ∷ s) h = elim (Bool-cases (key.eq j k)) [
    | inl same ↦ rw same (All-discard k s h.1)
    | inr other ↦ rw other (h.0, All-discard k s h.1)
  ]

module _ {K : Type 0} ⦃key : Key K⦄ where
  -- A predicate that respects the comparison holds of what the set contains.
  pub All-contains {ℓ} :
      (P : K → Type ℓ)
      → ((a b : K) → key.eq a b ≡ true → P a → P b)
      → (k : K) (s : HashSet K) → contains k s ≡ true
      → All P s
      → P k
  unfolding contains
  All-contains P resp k [] h all = absurd (false≢true h)
  All-contains P resp k (j ∷ s) h all = elim (Bool-cases (key.eq j k)) [
    | inl same ↦ resp j k same all.0
    | inr other ↦ All-contains P resp k s (rw other at h) all.1
  ]
