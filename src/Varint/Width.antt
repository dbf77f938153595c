-- ===== src/Varint/Width.antt =====
-- The length that `get_varint_size` computes from the bit width is the number of groups.
use native.Mathlib.Nat.{
  pow-suc, pow-le-pow_right, one-le-pow, div-eq_of_lt, div-eq_of_lt-le, lt_of_lt_of_le,
}
use native.Mathlib.Decide.{dec_lt}
use native.Mathlib.Numerals.{towards_suc}
use cs.Base.{ℕ, zero, suc, ◌+◌, ◌-◌, ◌*◌, ◌/◌, ◌%◌, ◌^◌, ◌≤◌, ◌<◌, ◌≡◌, refl, length, arith}
use cs.Base.Words.{IsU64}
use cs.Varint.{zeros_above, get_varint_size}
use cs.Varint.Groups.{groups}

zeros_above-le : (w v : ℕ) → zeros_above w v ≤ w
unfolding zeros_above
zeros_above-le zero v = omega arith
zeros_above-le (suc w) v = ground (arith, zeros_above-le w v)

top_digit : (w v : ℕ) → 2 ^ w ≤ v → v < 2 ^ suc w → v / 2 ^ w % 2 ≡ 1
top_digit w v lo hi = rw quotient refl
  where
    quotient : v / 2 ^ w ≡ 1
    quotient = div-eq_of_lt-le (2 ^ w) (omega arith) (omega (arith, pow-suc 2 w))

no_digit : (w v : ℕ) → v < 2 ^ w → v / 2 ^ w % 2 ≡ 0
no_digit w v h = rw (div-eq_of_lt h) refl

-- The highest one bit of a number from 2 ^ b to 2 ^ (b + 1) is bit `b`.
zeros_above-width : (w b v : ℕ) → 2 ^ b ≤ v → v < 2 ^ suc b → b < w → zeros_above w v + b + 1 ≡ w
unfolding zeros_above
zeros_above-width zero b v lo hi h = absurd (omega arith)
zeros_above-width (suc w) b v lo hi h = elim (dec_lt b w) [
  | yes below ↦ ground (
    arith,
    no_digit w v (lt_of_lt_of_le hi (pow-le-pow_right (omega arith) below)),
    zeros_above-width w b v lo hi below,
  )
  | no above ↦
      let same : b ≡ w = omega arith in
      ground (arith, top_digit w v (rw same at lo) (rw same at hi))
]

zeros_above-zero : (w : ℕ) → zeros_above w 0 ≡ w
unfolding zeros_above
zeros_above-zero zero = refl
zeros_above-zero (suc w) =
    ground (arith, no_digit w 0 (one-le-pow w 2 (omega arith)), zeros_above-zero w)

highest_bit : (w v : ℕ) → 0 < v → v < 2 ^ w → (b : ℕ) × (2 ^ b ≤ v) × (v < 2 ^ suc b) × (b < w)
highest_bit zero v pos h = absurd (omega arith)
highest_bit (suc w) v pos h = elim (dec_lt v (2 ^ w)) [
  | yes below ↦ let (b, lo, hi, fits) = highest_bit w v pos below in (b, lo, hi, omega arith)
  | no above ↦ (w, omega arith, h, omega arith)
]

bit_below : (b c v : ℕ) → 2 ^ b ≤ v → v < 2 ^ c → b < c
bit_below b c v lo hi = elim (dec_lt b c) [
  | yes below ↦ below
  | no above ↦
      absurd (omega (arith, pow-le-pow_right {n = 2} (omega arith) {i = c} {j = b} (omega arith)))
]

seven_more : (b : ℕ) → 2 ^ (b + 7) ≡ 128 * 2 ^ b
seven_more b = simp towards_suc (omega arith)

seven_less :
    (b c v : ℕ) → b ≡ c + 7 → 2 ^ b ≤ v → v < 2 ^ suc b → (2 ^ c ≤ v / 128) × (v / 128 < 2 ^ suc c)
seven_less b c v e lo hi =
    let low : 2 ^ (c + 7) ≤ v = rw e at lo in
    let high : v < 2 ^ suc (c + 7) = rw e at hi in
    omega (arith, seven_more c, pow-suc 2 (c + 7), pow-suc 2 c)

length-groups :
    (k b v : ℕ) → 2 ^ b ≤ v → v < 2 ^ suc b → b < 7 * suc k → length (groups k v) ≡ b / 7 + 1
unfolding groups
length-groups zero b v lo hi h = omega arith
length-groups (suc k) b v lo hi h = elim (dec_lt v 128) [
  | yes small ↦ ground (arith, bit_below b 7 v)
  | no large ↦
      let big : 7 < suc b = bit_below 7 (suc b) v (omega arith) hi in
      let (low, high) = seven_less b (b - 7) v (omega arith) lo hi in
      ground (arith, length-groups k (b - 7) (v / 128) low high)
]

-- On every `uint64_t`, `get_varint_size` is the number of bytes of the encoding.
pub get_varint_size-groups : (v : ℕ) → IsU64 v → get_varint_size v ≡ length (groups 9 v)
unfolding get_varint_size
get_varint_size-groups zero h = rw (zeros_above-zero 64) (unfold groups in refl)
get_varint_size-groups (suc v) h =
    let (b, lo, hi, fits) = highest_bit 64 (suc v) (omega arith) h in
    ground (
      arith,
      zeros_above-width 64 b (suc v) lo hi fits,
      length-groups 9 b (suc v) lo hi (omega arith),
    )

pub length-groups_bounds :
    (v : ℕ)
    → IsU64 v
    → (1 ≤ length (groups 9 v))
      × (length (groups 9 v) ≤ 10)
      × (v < 2 ^ 56 → length (groups 9 v) ≤ 8)
      × (2 ^ 56 ≤ v → 9 ≤ length (groups 9 v))
length-groups_bounds zero h = unfold groups in omega arith
length-groups_bounds (suc v) h =
    let (b, lo, hi, fits) = highest_bit 64 (suc v) (omega arith) h in
    let size = length-groups 9 b (suc v) lo hi (omega arith) in
    (
      omega arith,
      omega arith,
      λ small. omega (arith, bit_below b 56 (suc v) lo small),
      λ large. omega (arith, bit_below 56 (suc b) (suc v) large hi),
    )
