-- ===== src/Base/Bits/Step.antt =====
-- The lowest binary digit of `&`, `|` and `^`. The library defines the three by a recursion over the
-- digits of the first argument, whose fuel is that argument; any more fuel gives the same.
use mathlib.Core.Path.{◌≡◌, refl, ap}
use native.Mathlib.Omega.{arith}
use Prim.Native.Nat.{ℕ, zero, suc, ◌+◌, ◌*◌, ◌/◌, ◌%◌, ◌≤◌, min, max, differ}
use Prim.Native.Nat.{
  bit_xor, bit_xor-bitwise, bit_or, bit_or-bitwise, bit_and, bit_and-bitwise, bitwise, digits,
}

module _ (rest : ℕ → ℕ) (digit : ℕ → ℕ → ℕ) where
  spare_fuel :
      (x y fuel spare : ℕ)
      → x ≤ fuel
      → fuel ≤ spare
      → digits rest digit spare x y ≡ digits rest digit fuel x y
  spare_fuel x y (suc fuel) zero enough more = absurd (omega arith)
  spare_fuel (suc x) y zero spare enough more = absurd (omega arith)
  spare_fuel zero y zero zero enough more = refl
  spare_fuel zero y zero (suc spare) enough more = refl
  spare_fuel zero y (suc fuel) (suc spare) enough more = refl
  spare_fuel (suc x) y (suc fuel) (suc spare) enough more =
      ap (λ (t : ℕ). t * 2 + digit (suc x % 2) (y % 2))
        (spare_fuel (suc x / 2) (y / 2) fuel spare (omega arith) (omega arith))

  lowest_digit :
      (x y : ℕ)
      → bitwise rest digit (suc x) y
        ≡ bitwise rest digit (suc x / 2) (y / 2) * 2 + digit (suc x % 2) (y % 2)
  lowest_digit x y =
      ap (λ (t : ℕ). t * 2 + digit (suc x % 2) (y % 2))
        (spare_fuel (suc x / 2) (y / 2) (suc x / 2) x (omega arith) (omega arith))

module _ (y : ℕ) where
  pub bit_xor_digit : (x : ℕ) → bit_xor x y ≡ bit_xor (x / 2) (y / 2) * 2 + differ (x % 2) (y % 2)
  bit_xor_digit (suc x) = simp bit_xor-bitwise (lowest_digit (λ t. t) differ x y)
  bit_xor_digit zero = simp bit_xor-bitwise (omega arith)

  pub bit_and_digit : (x : ℕ) → bit_and x y ≡ bit_and (x / 2) (y / 2) * 2 + min (x % 2) (y % 2)
  bit_and_digit (suc x) = simp bit_and-bitwise (lowest_digit (λ t. 0) min x y)
  bit_and_digit zero = simp bit_and-bitwise (omega arith)

  pub bit_or_digit : (x : ℕ) → bit_or x y ≡ bit_or (x / 2) (y / 2) * 2 + max (x % 2) (y % 2)
  bit_or_digit (suc x) = simp bit_or-bitwise (lowest_digit (λ t. t) max x y)
  bit_or_digit zero = simp bit_or-bitwise (omega arith)
