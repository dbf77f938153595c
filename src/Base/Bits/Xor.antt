-- ===== src/Base/Bits/Xor.antt =====
-- `^` keeps the width of its arguments, and undoes itself.
use Prim.Native.Nat.{ℕ, zero, suc, ◌/◌, ◌%◌, ◌^◌, ◌<◌, differ, bit_xor}
use mathlib.Core.Path.{◌≡◌, refl, ap}
use native.Mathlib.Nat.{pow-suc}
use native.Mathlib.Omega.{arith}
use cs.Base.Bits.Step.{bit_xor_digit}

differ-lt : (a b : ℕ) → a < 2 → b < 2 → differ a b < 2
differ-lt zero b ha hb = hb
differ-lt (suc zero) zero ha hb = omega arith
differ-lt (suc zero) (suc zero) ha hb = omega arith
differ-lt (suc zero) (suc (suc b)) ha hb = absurd (omega arith)
differ-lt (suc (suc a)) b ha hb = absurd (omega arith)

differ_undo : (a b : ℕ) → a < 2 → b < 2 → differ (differ a b) b ≡ a
differ_undo zero zero ha hb = refl
differ_undo zero (suc zero) ha hb = refl
differ_undo (suc zero) zero ha hb = refl
differ_undo (suc zero) (suc zero) ha hb = refl
differ_undo a (suc (suc b)) ha hb = absurd (omega arith)
differ_undo (suc (suc a)) b ha hb = absurd (omega arith)

pub bit_xor-lt : (k a b : ℕ) → a < 2 ^ k → b < 2 ^ k → bit_xor a b < 2 ^ k
bit_xor-lt zero zero zero ha hb = omega arith
bit_xor-lt zero zero (suc b) ha hb = absurd (omega arith)
bit_xor-lt zero (suc a) b ha hb = absurd (omega arith)
bit_xor-lt (suc k) a b ha hb = omega (
  arith,
  bit_xor_digit b a,
  pow-suc 2 k,
  differ-lt (a % 2) (b % 2) (omega arith) (omega arith),
  bit_xor-lt k (a / 2) (b / 2) (omega (arith, pow-suc 2 k)) (omega (arith, pow-suc 2 k)),
)

pub bit_xor_undo : (k a b : ℕ) → a < 2 ^ k → b < 2 ^ k → bit_xor (bit_xor a b) b ≡ a
bit_xor_undo zero zero zero ha hb = refl
bit_xor_undo zero zero (suc b) ha hb = absurd (omega arith)
bit_xor_undo zero (suc a) b ha hb = absurd (omega arith)
bit_xor_undo (suc k) a b ha hb = omega (
  arith,
  bit_xor_digit b (bit_xor a b),
  ap (λ (t : ℕ). bit_xor t (b / 2)) half,
  ap (λ (t : ℕ). differ t (b % 2)) digit,
  differ_undo (a % 2) (b % 2) (omega arith) (omega arith),
  bit_xor_undo k (a / 2) (b / 2) (omega (arith, pow-suc 2 k)) (omega (arith, pow-suc 2 k)),
)
  where
    small : differ (a % 2) (b % 2) < 2
    small = differ-lt (a % 2) (b % 2) (omega arith) (omega arith)

    half : bit_xor a b / 2 ≡ bit_xor (a / 2) (b / 2)
    half = omega (arith, bit_xor_digit b a, small)

    digit : bit_xor a b % 2 ≡ differ (a % 2) (b % 2)
    digit = omega (arith, bit_xor_digit b a, small)
