-- ===== src/Base/Bits/Bytes.antt =====
-- The top bit of a byte, checked on each of the 256 bytes.
use Prim.Native.Nat.{ℕ, zero, suc, ◌*◌, ◌/◌, ◌<◌, bit_and}
use mathlib.Core.Path.{◌≡◌, refl}
use mathlib.Core.Bool.{Bool, true, ◌&&◌}
use native.Mathlib.Omega.{arith}
use cs.Base.Compare.{◌==◌, ==→eq}

holds_below : ℕ → (ℕ → Bool) → Bool
holds_below zero test = true
holds_below (suc n) test = test n && holds_below n test

holds_below-at :
    (n : ℕ) (test : ℕ → Bool) (b : ℕ) → holds_below n test ≡ true → b < n → test b ≡ true
unfolding holds_below
holds_below-at zero test b h lt = absurd (omega arith)
holds_below-at (suc n) test b h lt = ground (arith, holds_below-at n test b)

pub top_bit : (b : ℕ) → b < 256 → bit_and b 0x80 ≡ b / 128 * 128
top_bit b h = ==→eq _ _ (holds_below-at 256 (λ x. bit_and x 0x80 == x / 128 * 128) b table h)
  where
    table : holds_below 256 (λ x. bit_and x 0x80 == x / 128 * 128) ≡ true
    table = unfold holds_below in refl
