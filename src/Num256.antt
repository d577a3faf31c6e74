-- ===== src/Num256.antt =====
-- What the code relies on of the crate num256, whose source is not part of the repository: the
-- conversions between `Uint256` and `Int256`, and the range checks of their arithmetic. A value of
-- either type is the number that it stands for.
pub mod Sample
use althea_rs.Prelude.{
  ℕ, ◌^◌, ◌<◌, ◌≤◌, ◌≡◌, ap, ◌∙◌, ◌⊎◌, inl, inr, Option, none, some, Option-cases, arith,
}
use althea_rs.Prelude.Int.{ℤ, pos, negsuc, pos_part, neg_part, ◌≤ℤ◌}

-- An unsigned value that also fits the signed type: below 2^255.
int256_limit : ℕ
int256_limit = 2 ^ 255

pub FitsInt256 : ℤ → Type 0
FitsInt256 z = (pos_part z < int256_limit) × (neg_part z ≤ int256_limit)

uint256_limit : ℕ
uint256_limit = 2 ^ 256

pub FitsUint256 : ℕ → Type 0
FitsUint256 n = n < uint256_limit

-- `uint256 n` and `int256 z` are the value of a sum, difference or quotient whose exact result is
-- `n` or `z`: `none` where the operation panics instead. Nothing is said of results out of range
-- but that a wrong value is never returned.
pub record Num256 : Type 0 where
  pub uint256 : ℕ → Option ℕ
  pub uint256_fits : (n : ℕ) → FitsUint256 n → uint256 n ≡ some n
  pub uint256_exact : (n : ℕ) {m : ℕ} → uint256 n ≡ some m → m ≡ n
  pub int256 : ℤ → Option ℤ
  pub int256_fits : (z : ℤ) → FitsInt256 z → int256 z ≡ some z
  pub int256_exact : (z : ℤ) {y : ℤ} → int256 z ≡ some y → y ≡ z
  -- `Uint256::to_int256`
  pub to_int256 : ℕ → Option ℤ
  pub to_int256_fits : (n : ℕ) → FitsInt256 (pos n) → to_int256 n ≡ some (pos n)
  pub to_int256_exact : (n : ℕ) {z : ℤ} → to_int256 n ≡ some z → z ≡ pos n
  -- `Int256::to_uint256`
  pub to_uint256 : ℤ → Option ℕ
  pub to_uint256_pos : (n : ℕ) → to_uint256 (pos n) ≡ some n
  pub to_uint256_negsuc : (n : ℕ) → to_uint256 (negsuc n) ≡ none

-- The representable integers are an interval.
pub FitsInt256-between : (x y z : ℤ) → FitsInt256 x → FitsInt256 y → x ≤ℤ z → z ≤ℤ y → FitsInt256 z
unfolding FitsInt256
FitsInt256-between x y (pos n) hx hy lo hi = (omega arith, omega arith)
FitsInt256-between x y (negsuc n) hx hy lo hi = (omega arith, omega arith)

pub FitsInt256-below : (z : ℤ) → pos_part z < 2 ^ 255 → neg_part z ≤ 2 ^ 255 → FitsInt256 z
unfolding FitsInt256 int256_limit
FitsInt256-below z hp hn = (hp, hn)

pub FitsUint256-le : (a b : ℕ) → a ≤ b → FitsUint256 b → FitsUint256 a
unfolding FitsUint256
FitsUint256-le a b h fits = omega arith

-- A checked result is exact or a panic.
module _ (num : Num256) where
  pub int256-cases : (z : ℤ) → (num.int256 z ≡ none) ⊎ (num.int256 z ≡ some z)
  int256-cases z = elim (Option-cases (num.int256 z)) [
    | inl e ↦ inl e
    | inr (y, e) ↦ inr (e ∙ ap some (num.int256_exact z e))
  ]

  pub uint256-cases : (n : ℕ) → (num.uint256 n ≡ none) ⊎ (num.uint256 n ≡ some n)
  uint256-cases n = elim (Option-cases (num.uint256 n)) [
    | inl e ↦ inl e
    | inr (m, e) ↦ inr (e ∙ ap some (num.uint256_exact n e))
  ]
