-- ===== src/Filter/Bitset.antt =====
-- `boost::dynamic_bitset<>`, as far as filter.cpp uses it: `B` is the type of the bit sets.
use cs.Base.{
  ℕ, ◌+◌, ◌*◌, ◌/◌, ◌%◌, ◌^◌, ◌<◌, ◌≡◌, ◌==◌, ◌||◌, Bool, false, List, length, get_or, All,
  if◌then◌else◌,
}
use cs.Base.Words.{IsU64}

pub record Bitset {ℓ} (B : Type ℓ) : Type ℓ where
  pub new_bits : ℕ → B
  pub bit_count : B → ℕ
  pub test : B → ℕ → Bool
  pub set_bit : B → ℕ → B
  pub bit_count-new_bits : (n : ℕ) → bit_count (new_bits n) ≡ n
  pub test-new_bits : (n i : ℕ) → i < n → test (new_bits n) i ≡ false
  pub bit_count-set_bit : (b : B) (i : ℕ) → i < bit_count b → bit_count (set_bit b i) ≡ bit_count b
  pub test-set_bit :
      (b : B) (i j : ℕ)
      → i < bit_count b
      → j < bit_count b
      → test (set_bit b i) j ≡ ((j == i) || test b j)
  -- `boost::to_block_range`: the words of 64 bits, of which the last may have bits beyond the end
  pub to_blocks : B → List ℕ
  pub length-to_blocks : (b : B) → length (to_blocks b) ≡ (bit_count b + 63) / 64
  pub to_blocks-IsU64 : (b : B) → All IsU64 (to_blocks b)
  pub to_blocks-test :
      (b : B) (i k : ℕ)
      → k < 64
      → i * 64 + k < bit_count b
      → get_or (to_blocks b) i 0 / 2 ^ k % 2 ≡ (if test b (i * 64 + k) then 1 else 0)
