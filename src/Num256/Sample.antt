-- ===== src/Num256/Sample.antt =====
-- A concrete `Num256`, which panics or returns `None` exactly out of range, and the range facts of
-- small values: for tests.
use althea_rs.Prelude.{
  ℕ, ◌^◌, ◌<◌, ◌≡◌, refl, Option, none, some, ltb, leb, ◌&&◌, if◌then◌else◌, arith,
}
use althea_rs.Prelude.Int.{ℤ, pos, negsuc, pos_part, neg_part}
use althea_rs.Num256.{Num256, FitsInt256, FitsUint256, int256_limit, uint256_limit}

checked_uint : ℕ → Option ℕ
checked_uint n = if ltb n uint256_limit then some n else none

checked_int : ℤ → Option ℤ
checked_int z =
    if ltb (pos_part z) int256_limit && leb (neg_part z) int256_limit then some z else none

unsigned : ℤ → Option ℕ
unsigned (pos n) = some n
unsigned (negsuc n) = none

checked_uint-fits : (n : ℕ) → FitsUint256 n → checked_uint n ≡ some n
unfolding FitsUint256 checked_uint
checked_uint-fits n h = ground arith

checked_uint-exact : (n : ℕ) {m : ℕ} → checked_uint n ≡ some m → m ≡ n
unfolding checked_uint
checked_uint-exact n h = ground arith

checked_int-fits : (z : ℤ) → FitsInt256 z → checked_int z ≡ some z
unfolding FitsInt256 checked_int
checked_int-fits z h = ground arith

checked_int-exact : (z : ℤ) {y : ℤ} → checked_int z ≡ some y → y ≡ z
unfolding checked_int
checked_int-exact z h = ground arith

unfoldable pub sample : Num256
unfolding checked_uint checked_int unsigned uint256_limit int256_limit checked_uint-fits
    checked_uint-exact checked_int-fits checked_int-exact
sample = record {
  uint256 = checked_uint;
  uint256_fits = checked_uint-fits;
  uint256_exact = checked_uint-exact;
  int256 = checked_int;
  int256_fits = checked_int-fits;
  int256_exact = checked_int-exact;
  to_int256 = λ n. checked_int (pos n);
  to_int256_fits = λ n h. checked_int-fits (pos n) h;
  to_int256_exact = λ n h. checked_int-exact (pos n) h;
  to_uint256 = unsigned;
  to_uint256_pos = λ n. refl;
  to_uint256_negsuc = λ n. refl;
}

pub FitsInt256-small : (z : ℤ) → pos_part z < 2 ^ 63 → neg_part z < 2 ^ 63 → FitsInt256 z
unfolding FitsInt256 int256_limit
FitsInt256-small z hp hn = (omega arith, omega arith)

pub FitsUint256-small : (n : ℕ) → n < 2 ^ 63 → FitsUint256 n
unfolding FitsUint256 uint256_limit
FitsUint256-small n h = omega arith
