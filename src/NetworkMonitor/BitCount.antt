-- ===== src/NetworkMonitor/BitCount.antt =====
-- rita/src/rita_common/network_monitor/mod.rs: what `get_first_n_set_bits` counts.
use Prim.Native.Nat.{bit_and, min, digits, bit_and-bitwise}
use native.Mathlib.Nat.{zero-add, pow-suc, pow-succ', div-div-eq-div-mul, mul-div-mul_left}
use althea_rs.Prelude.{
  ℕ, zero, suc, ◌+◌, ◌-◌, ◌*◌, ◌/◌, ◌%◌, ◌^◌, ◌≤◌, ◌<◌, ◌≡◌, refl, ap, sym, ◌∙◌, none, some, leb,
  if◌then◌else◌, inl, inr, Bool-cases, leb→le, arith,
}
use althea_rs.NetworkMonitor.Loss.{count_bits, get_first_n_set_bits, lost_of}

-- The digits of a conjunction, from the definition that the native operation stands for.
abbrev common_digits : ℕ → ℕ → ℕ → ℕ
common_digits n a b = digits (λ b. zero) min n a b

common_digits-fuel : (n m a b : ℕ) → a ≤ n → a ≤ m → common_digits n a b ≡ common_digits m a b
common_digits-fuel zero zero a b p q = refl
common_digits-fuel zero (suc m) zero b p q = refl
common_digits-fuel zero (suc m) (suc a) b p q = absurd (omega arith)
common_digits-fuel (suc n) zero zero b p q = refl
common_digits-fuel (suc n) zero (suc a) b p q = absurd (omega arith)
common_digits-fuel (suc n) (suc m) zero b p q = refl
common_digits-fuel (suc n) (suc m) (suc a) b p q =
    omega (arith, common_digits-fuel n m (suc a / 2) (b / 2) (omega arith) (omega arith))

bit_and-halves : (a b : ℕ) → bit_and a b ≡ bit_and (a / 2) (b / 2) * 2 + min (a % 2) (b % 2)
bit_and-halves zero b = omega (arith, bit_and-bitwise 0 b, bit_and-bitwise 0 (b / 2))
bit_and-halves (suc a) b = omega (
  arith,
  bit_and-bitwise (suc a) b,
  bit_and-bitwise (suc a / 2) (b / 2),
  common_digits-fuel a (suc a / 2) (suc a / 2) (b / 2) (omega arith) (omega arith),
)

no_digits : (n a : ℕ) → a ≤ n → bit_and a 0 ≡ 0
no_digits n zero h = bit_and-bitwise 0 0
no_digits zero (suc a) h = absurd (omega arith)
no_digits (suc n) (suc a) h =
    omega (arith, bit_and-halves (suc a) 0, no_digits n (suc a / 2) (omega arith))

-- A mask of one bit selects that binary digit.
bit_and-mask : (i a : ℕ) → bit_and a (2 ^ i) / 2 ^ i ≡ a / 2 ^ i % 2
bit_and-mask zero a = omega (arith, bit_and-halves a 1, no_digits (a / 2) (a / 2) (omega arith))
bit_and-mask (suc i) a =
    rw
      (
        pow-succ' 2 i,
        doubled,
        mul-div-mul_left {m = 2} (bit_and (a / 2) (2 ^ i)) (2 ^ i) (omega arith),
      )
      (bit_and-mask i (a / 2) ∙ ap (λ q. q % 2) (div-div-eq-div-mul a 2 (2 ^ i)))
  where
    half : 2 * 2 ^ i / 2 ≡ 2 ^ i
    half = omega arith

    doubled : bit_and a (2 * 2 ^ i) ≡ 2 * bit_and (a / 2) (2 ^ i)
    doubled = omega (arith, bit_and-halves a (2 * 2 ^ i), ap (λ m. bit_and (a / 2) m) half)

-- The number of ones among the lowest binary digits.
pub ones : ℕ → ℕ → ℕ
ones zero x = 0
ones (suc n) x = x % 2 + ones n (x / 2)

-- One digit more, at the top.
ones-top : (n x : ℕ) → ones (suc n) x ≡ ones n x + x / 2 ^ n % 2
unfolding ones
ones-top zero x = omega arith
ones-top (suc n) x =
    rw (pow-succ' 2 n)
      (omega (arith, ones-top n (x / 2), ap (λ q. q % 2) (div-div-eq-div-mul x 2 (2 ^ n))))

ones-le : (n x : ℕ) → ones n x ≤ n
unfolding ones
ones-le zero x = omega arith
ones-le (suc n) x = omega (arith, ones-le n (x / 2))

-- Two shifts are one.
shift-shift : (k e i x : ℕ) → i ≡ k + e → x / 2 ^ e / 2 ^ k ≡ x / 2 ^ i
shift-shift zero e i x h =
    omega (arith, ap (λ (j : ℕ). x / 2 ^ j) h, ap (λ (j : ℕ). x / 2 ^ j) (zero-add e))
shift-shift (suc k) e zero x h = absurd (omega arith)
shift-shift (suc k) e (suc i) x h =
    rw (pow-suc 2 k, pow-suc 2 i)
      (sym (div-div-eq-div-mul (x / 2 ^ e) (2 ^ k) 2)
        ∙ ap (λ q. q / 2) (shift-shift k e i x (omega arith))
        ∙ div-div-eq-div-mul x (2 ^ i) 2)

-- One round of the loop.
count_bits_step :
    (rounds i sample total : ℕ)
    → total + 1 < 256
    → count_bits (suc rounds) sample (suc i) (2 ^ suc i) total
      ≡ count_bits rounds sample i (2 ^ i) (total + sample / 2 ^ suc i % 2)
unfolding count_bits
count_bits_step rounds i sample total small =
    let below : suc i - 1 ≡ i = omega arith in
    let halved : 2 ^ suc i / 2 ≡ 2 ^ i = rw (pow-suc 2 i) (omega arith) in
    let counted : (total + bit_and sample (2 ^ suc i) / 2 ^ suc i % 2 ^ 8) % 2 ^ 8
        ≡ total + sample / 2 ^ suc i % 2 =
      omega (arith, bit_and-mask (suc i) sample) in
    cc

last_round :
    (i sample total : ℕ)
    → total + 1 < 256
    → count_bits 1 sample i (2 ^ i) total ≡ total + sample / 2 ^ i % 2
unfolding count_bits
last_round i sample total small = omega (arith, bit_and-mask i sample)

one_digit : (x : ℕ) → ones 1 x ≡ x % 2
unfolding ones
one_digit x = omega arith

-- The loop from the bit `k + e` down to the bit `e`.
count_bits-ones :
    (k e i sample total : ℕ)
    → i ≡ k + e
    → total + suc k < 256
    → count_bits (suc k) sample i (2 ^ i) total ≡ total + ones (suc k) (sample / 2 ^ e)
count_bits-ones zero e i sample total h small = omega (
  arith,
  last_round i sample total (omega arith),
  ap (λ (j : ℕ). sample / 2 ^ j % 2) (h ∙ zero-add e),
  one_digit (sample / 2 ^ e),
)
count_bits-ones (suc k) e zero sample total h small = absurd (omega arith)
count_bits-ones (suc k) e (suc i) sample total h small =
    count_bits_step (suc k) i sample total (omega arith)
    ∙ count_bits-ones k e i sample (total + sample / 2 ^ suc i % 2) (omega arith) (omega arith)
    ∙ omega (
      arith,
      ones-top (suc k) (sample / 2 ^ e),
      ap (λ q. q % 2) (shift-shift (suc k) e (suc i) sample h),
    )

-- For at most 16 bits the assertion holds, and what is counted are the ones among the first bits of
-- the 16 that a sample has; for more the assertion fails.
pub get_first_n_set_bits-ones :
    (sample n : ℕ)
    → get_first_n_set_bits sample n
      ≡ (if leb n 16 then some (ones n (sample / 2 ^ (16 - n))) else none)
unfolding get_first_n_set_bits ones
get_first_n_set_bits-ones sample zero = refl
get_first_n_set_bits-ones sample (suc k) = elim (Bool-cases (leb (suc k) 16)) [
  | inl within ↦
      rw (within, get_first_n_set_bits)
        (ap some (
          count_bits-ones k (15 - k) 15 sample 0 (omega (arith, leb→le (suc k) 16 within))
            (omega (arith, leb→le (suc k) 16 within))
          ∙ zero-add _
          ∙ ap (λ (j : ℕ). ones (suc k) (sample / 2 ^ j))
              (omega (arith, leb→le (suc k) 16 within))))
  | inr beyond ↦ rw (beyond, get_first_n_set_bits)
]

-- A sample loses at most the five packets of its period, the zeros among its first five bits.
pub lost_of-ones : (sample : ℕ) → lost_of sample ≡ some (5 - ones 5 (sample / 2 ^ 11))
unfolding lost_of
lost_of-ones sample =
    ground (arith, get_first_n_set_bits-ones sample 5, ones-le 5 (sample / 2 ^ 11))
