-- ===== src/Prelude/Maps.antt =====
-- A `HashMap` as an association list: the order of the list stands for the order of iteration,
-- which the source leaves open. Keys are compared by `Eq` of the key type, which may hold of keys
-- that differ in what the comparison ignores; an insertion under an equal key keeps the old key.
use mathlib.Core.Path.{◌≡◌, refl}
use mathlib.Core.Logic.{inl, inr}
use mathlib.Core.Bool.{Bool, true, false}
use mathlib.Core.Option.{Option, none, some}
use mathlib.Core.List.{List, [], ◌∷◌, ◌++◌}
use native.Mathlib.Omega.{arith}
use althea_rs.Prelude.Tests.{if◌then◌else◌, Bool-cases}

-- `PartialEq` and `Eq` of a key type.
pub record Key (K : Type 0) : Type 0 where
  pub eq : K → K → Bool
  pub eq_refl : (a : K) → eq a a ≡ true
  pub eq_cong : (a b c : K) → eq a b ≡ true → eq a c ≡ eq b c

abbrev pub HashMap : Type 0 → Type 0 → Type 0
HashMap K V = List (K × V)

module _ {K V : Type 0} ⦃key : Key K⦄ where
  unfoldable pub get : K → HashMap K V → Option V
  get k [] = none
  get k ((j, v) ∷ m) = if key.eq j k then some v else get k m

  unfoldable pub insert : K → V → HashMap K V → HashMap K V
  insert k v [] = (k, v) ∷ []
  insert k v ((j, w) ∷ m) = if key.eq j k then (j, v) ∷ m else (j, w) ∷ insert k v m

  unfoldable pub remove : K → HashMap K V → HashMap K V
  remove k [] = []
  remove k ((j, w) ∷ m) = if key.eq j k then m else (j, w) ∷ remove k m

  pub get-insert :
      (k j : K) (v : V) (m : HashMap K V)
      → get j (insert k v m) ≡ (if key.eq k j then some v else get j m)
  unfolding get insert
  get-insert k j v [] = refl
  get-insert k j v ((i, w) ∷ m) = ground (
    arith,
    get-insert k j v m,
    key.eq_refl k,
    key.eq_cong i k j,
    key.eq_cong i j k,
    key.eq_cong k j k,
  )

  -- Equal keys find the same.
  pub get-eq : (i j : K) (m : HashMap K V) → key.eq i j ≡ true → get i m ≡ get j m
  unfolding get
  get-eq i j [] h = refl
  get-eq i j ((k, v) ∷ m) h = ground (
    arith,
    get-eq i j m h,
    key.eq_cong i j k h,
    key.eq_refl k,
    key.eq_cong k i k,
    key.eq_cong k j k,
    key.eq_cong i k j,
    key.eq_cong j k i,
    key.eq_cong k i j,
    key.eq_cong k j i,
    key.eq_refl i,
    key.eq_refl j,
    key.eq_cong i j i,
  )

  -- What an insertion leaves at its own key, and at the keys that differ.
  pub get-insert_self : (k : K) (v : V) (m : HashMap K V) → get k (insert k v m) ≡ some v
  get-insert_self k v m = rw (get-insert, key.eq_refl)

  -- The second of two values for one key replaces the first.
  pub insert-insert : (k : K) (v w : V) (m : HashMap K V) → insert k v (insert k w m) ≡ insert k v m
  unfolding insert
  insert-insert k v w [] = rw (key.eq_refl k) refl
  insert-insert k v w ((i, u) ∷ m) = elim (Bool-cases (key.eq i k)) [
    | inl same ↦ rw (same, insert) (rw same refl)
    | inr other ↦ rw (other, insert) (rw (other, insert-insert k v w m) refl)
  ]

  pub get-insert_ne :
      (k j : K) (v : V) (m : HashMap K V) → key.eq k j ≡ false → get j (insert k v m) ≡ get j m
  get-insert_ne k j v m h = rw (get-insert, h)

  -- No two entries have equal keys.
  abbrev pub KeysDistinct : HashMap K V → Type 0
  KeysDistinct [] = Unit
  KeysDistinct ((k, v) ∷ m) = (get k m ≡ none) × KeysDistinct m

  pub insert-KeysDistinct :
      (k : K) (v : V) (m : HashMap K V) → KeysDistinct m → KeysDistinct (insert k v m)
  unfolding insert get
  insert-KeysDistinct k v [] h = (refl, tt)
  insert-KeysDistinct k v ((i, w) ∷ m) h = elim (Bool-cases (key.eq i k)) [
    | inl same ↦ rw (same, insert) h
    | inr other ↦
        rw (other, insert)
          (
            rw (get-insert k i v m) (
                ground (arith, key.eq_refl i, key.eq_cong k i k, key.eq_refl k, key.eq_cong k i i)),
            insert-KeysDistinct k v m h.1,
          )
  ]

  -- A key that the first of two maps lacks.
  pub get-append : (k : K) (m n : HashMap K V) → get k m ≡ none → get k (m ++ n) ≡ get k n
  unfolding get
  get-append k [] n h = refl
  get-append k ((i, w) ∷ m) n h = ground (arith, get-append k m n)

  pub insert-append :
      (k : K) (v : V) (m n : HashMap K V) → get k m ≡ none → insert k v (m ++ n) ≡ m ++ insert k v n
  unfolding get insert
  insert-append k v [] n h = refl
  insert-append k v ((i, w) ∷ m) n h = ground (arith, insert-append k v m n)
