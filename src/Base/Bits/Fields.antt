-- ===== src/Base/Bits/Fields.antt =====
-- `|` of disjoint fields is a sum, and `&` with a mask of low bits is a remainder.
use Prim.Native.Nat.{
  ℕ, zero, suc, ◌+◌, ◌-◌, ◌*◌, ◌/◌, ◌%◌, ◌^◌, ◌<◌, bit_and, bit_or, bit_or-bitwise,
}
use mathlib.Core.Path.{◌≡◌, ap}
use native.Mathlib.Nat.{pow-suc, one-le-pow}
use native.Mathlib.Omega.{arith}
use cs.Base.Bits.Step.{bit_or_digit, bit_and_digit}

below_zero_or : (k a : ℕ) → a < 2 ^ k → bit_or a 0 ≡ a
below_zero_or zero a h = rw (a_zero a h)
  where
    a_zero : (b : ℕ) → b < 2 ^ 0 → b ≡ 0
    a_zero b hb = omega arith
below_zero_or (suc k) a h =
    omega
      (arith, bit_or_digit 0 a, pow-suc 2 k, below_zero_or k (a / 2) (omega (arith, pow-suc 2 k)))

pub lt_two_pow : (a : ℕ) → a < 2 ^ a
lt_two_pow zero = omega arith
lt_two_pow (suc a) = omega (arith, lt_two_pow a, pow-suc 2 a)

pub bit_or-zero : (a : ℕ) → bit_or a 0 ≡ a
bit_or-zero a = below_zero_or a a (lt_two_pow a)

below_zero_and : (k a : ℕ) → a < 2 ^ k → bit_and a 0 ≡ 0
below_zero_and zero a h = rw (a_zero a h)
  where
    a_zero : (b : ℕ) → b < 2 ^ 0 → b ≡ 0
    a_zero b hb = omega arith
below_zero_and (suc k) a h =
    omega
      (arith, bit_and_digit 0 a, pow-suc 2 k, below_zero_and k (a / 2) (omega (arith, pow-suc 2 k)))

pub bit_and-zero : (a : ℕ) → bit_and a 0 ≡ 0
bit_and-zero a = below_zero_and a a (lt_two_pow a)

double_pow : (q k : ℕ) → q * 2 ^ suc k ≡ 2 * (q * 2 ^ k)
double_pow q k = omega (arith, ap (λ (t : ℕ). q * t) (pow-suc 2 k))

-- `(q << k) | r`, where `r` has at most `k` bits.
pub bit_or_low : (k q r : ℕ) → r < 2 ^ k → bit_or (q * 2 ^ k) r ≡ q * 2 ^ k + r
bit_or_low zero q r fits = ground (arith, bit_or-zero q)
bit_or_low (suc k) q r fits =
    ground
      (arith, bit_or_digit r (q * 2 ^ suc k), double_pow q k, bit_or_low k q (r / 2) (omega arith))

-- `r | (q << k)`, where `r` has at most `k` bits.
pub bit_or_high : (k q r : ℕ) → r < 2 ^ k → bit_or r (q * 2 ^ k) ≡ r + q * 2 ^ k
bit_or_high zero q r fits = ground (arith, bit_or_zero_left q)
  where
    bit_or_zero_left : (b : ℕ) → bit_or 0 b ≡ b
    bit_or_zero_left b = bit_or-bitwise 0 b
bit_or_high (suc k) q r fits =
    ground
      (arith, bit_or_digit (q * 2 ^ suc k) r, double_pow q k, bit_or_high k q (r / 2) (omega arith))

bit_and_low : (k q r : ℕ) → r < 2 ^ k → bit_and (q * 2 ^ k + r) (2 ^ k - 1) ≡ r
bit_and_low zero q r fits = ground (arith, bit_and-zero (q * 1 + r))
bit_and_low (suc k) q r fits = ground (
  arith,
  bit_and_digit (2 ^ suc k - 1) (q * 2 ^ suc k + r),
  double_pow q k,
  pow-suc 2 k,
  one-le-pow k 2,
  bit_and_low k q (r / 2) (omega arith),
)

-- `a & (2 ^ k - 1)`.
pub bit_and_mask : (k a : ℕ) → bit_and a (2 ^ k - 1) ≡ a % 2 ^ k
bit_and_mask k a = ground (arith, one-le-pow k 2, bit_and_low k (a / 2 ^ k) (a % 2 ^ k))
