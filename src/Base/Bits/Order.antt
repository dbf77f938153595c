-- ===== src/Base/Bits/Order.antt =====
-- Bounds of `&` and `|`.
use Prim.Native.Nat.{
  ℕ, zero, suc, ◌+◌, ◌*◌, ◌/◌, ◌%◌, min, ◌^◌, ◌≤◌, ◌<◌, bit_and, bit_or, bit_and-bitwise,
}
use mathlib.Core.Path.{◌≡◌, refl, ◌∙◌}
use native.Mathlib.Nat.{pow-suc, div-div-eq-div-mul}
use native.Mathlib.Omega.{arith}
use cs.Base.Bits.Step.{bit_or_digit, bit_and_digit}
use cs.Base.Bits.Fields.{bit_and_mask, bit_or-zero, lt_two_pow}

below_and-le : (k a b : ℕ) → a < 2 ^ k → bit_and a b ≤ b
below_and-le zero zero b h = omega (arith, nothing)
  where
    nothing : bit_and 0 b ≡ 0
    nothing = bit_and-bitwise 0 b
below_and-le zero (suc a) b h = absurd (omega arith)
below_and-le (suc k) a b h =
    omega (arith, bit_and_digit b a, below_and-le k (a / 2) (b / 2) (omega (arith, pow-suc 2 k)))

pub bit_and-le : (a b : ℕ) → bit_and a b ≤ b
bit_and-le a b = below_and-le a a b (lt_two_pow a)

pub bit_or-lt : (k a b : ℕ) → a < 2 ^ k → b < 2 ^ k → bit_or a b < 2 ^ k
bit_or-lt zero zero zero ha hb = omega (arith, bit_or-zero 0)
bit_or-lt zero zero (suc b) ha hb = absurd (omega arith)
bit_or-lt zero (suc a) b ha hb = absurd (omega arith)
bit_or-lt (suc k) a b ha hb = omega (
  arith,
  bit_or_digit b a,
  pow-suc 2 k,
  bit_or-lt k (a / 2) (b / 2) (omega (arith, pow-suc 2 k)) (omega (arith, pow-suc 2 k)),
)

-- One bit of a number.
pub bit_and_power : (k a : ℕ) → bit_and a (2 ^ k) ≡ a / 2 ^ k % 2 * 2 ^ k
bit_and_power zero a = omega (arith, bit_and_mask 1 a)
bit_and_power (suc k) a =
    let half : 2 ^ suc k / 2 ≡ 2 ^ k = omega (arith, pow-suc 2 k) in
    let even : 2 ^ suc k % 2 ≡ 0 = omega (arith, pow-suc 2 k) in
    let digit : bit_and a (2 ^ suc k) ≡ bit_and (a / 2) (2 ^ k) * 2 + min (a % 2) 0 =
      rw (half, even) at (bit_and_digit (2 ^ suc k) a) in
    let double : 2 ^ suc k ≡ 2 * 2 ^ k = omega (arith, pow-suc 2 k) in
    let shorter : a / 2 ^ suc k ≡ a / 2 / 2 ^ k =
      rw (double, ← div-div-eq-div-mul a 2 (2 ^ k)) refl in
    let rest = bit_and_power k (a / 2) in digit ∙ rw (rest, shorter, double) (omega arith)
