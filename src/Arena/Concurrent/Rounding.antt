-- ===== src/Arena/Concurrent/Rounding.antt =====
-- The number of shards.
use native.Mathlib.Nat.{div-le_self}
use cs.Base.{ℕ, zero, suc, ◌/◌, ◌^◌, ◌≤◌, ◌<◌, List, [], ◌∷◌, bit_or, arith}
use cs.Base.Bits.{bit_or-lt}
use cs.Arena.Concurrent.{smear, round_up_to_power_of_two}

smear-lt : (k : ℕ) (is : List ℕ) (n : ℕ) → n < 2 ^ k → smear is n < 2 ^ k
unfolding smear
smear-lt k [] n h = h
smear-lt k (i ∷ is) n h =
    smear-lt k is (bit_or n (n / 2 ^ i))
      (bit_or-lt k n (n / 2 ^ i) h (omega (arith, div-le_self n (2 ^ i))))

pub round_up_bounds :
    (n : ℕ) → n ≤ 2 ^ 32 → (0 < round_up_to_power_of_two n) × (round_up_to_power_of_two n ≤ 2 ^ 32)
unfolding round_up_to_power_of_two
round_up_bounds zero h = omega arith
round_up_bounds (suc n) h =
    omega (arith, smear-lt 32 (1 ∷ 2 ∷ 4 ∷ 8 ∷ 16 ∷ 32 ∷ []) n (omega arith))
