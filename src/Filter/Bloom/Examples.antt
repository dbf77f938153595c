-- ===== src/Filter/Bloom/Examples.antt =====
-- Runs of a Bloom filter with the bits in a list.
use cs.Base.{ℕ, ◌≡◌, ◌<◌, refl, Bool, true, false, List, [], ◌∷◌, replicate, arith, ◌↔◌}
use cs.Filter.Run.{ok, fault, modulo, ◌>>=◌, Returns}
use cs.Filter.Samples.{number_hasher, list_bits}
use cs.Filter.Bloom.{
  BloomFilter, new_bloom, insert, contains, bloom_insert_all, insert_loop, contains_loop, hash,
  set_at, test_at, mixed, splitmix64,
}
use cs.Filter.Bloom.Positions.{all_of, positions}
use cs.Filter.Bloom.Contents.{IsValid, is_marked, contains-bloom_insert_all}
use cs.Filter.Bloom.Undefined.{bloom_insert-fault}

-- The first output of the generator splitmix64 from the seed 0, as its authors publish it.
splitmix64_zero : splitmix64 0 ≡ 16294208416658607535
unfolding splitmix64
splitmix64_zero = refl

abbrev sixteen : BloomFilter (List Bool)
sixteen = record { size = 16; hash_count = 2; bits = replicate 16 false }

sixteen-IsValid : IsValid sixteen
sixteen-IsValid = record { sized = omega arith; filled = refl }

found_after :
    (bloom_insert_all {Item = ℕ} sixteen (7 ∷ []) >>= λ f. contains {Item = ℕ} f 7) ≡ ok true
unfolding bloom_insert_all insert contains insert_loop contains_loop hash set_at test_at mixed
    splitmix64 modulo
found_after = refl

other_absent :
    (bloom_insert_all {Item = ℕ} sixteen (7 ∷ []) >>= λ f. contains {Item = ℕ} f 8) ≡ ok false
unfolding bloom_insert_all insert contains insert_loop contains_loop hash set_at test_at mixed
    splitmix64 modulo
other_absent = refl

contains-bloom_insert_all_example :
    Returns (bloom_insert_all {Item = ℕ} (new_bloom {B = List Bool} 16 2) (7 ∷ 263 ∷ [])) λ f.
      (x : ℕ)
      → contains {Item = ℕ} f x
        ≡ ok (all_of (is_marked {Item = ℕ} 16 2 (7 ∷ 263 ∷ [])) (positions {Item = ℕ} 16 x 2 0))
contains-bloom_insert_all_example =
    contains-bloom_insert_all {Item = ℕ} 16 2 (7 ∷ 263 ∷ []) (omega arith)

abbrev no_bits : BloomFilter (List Bool)
no_bits = record { size = 0; hash_count = 3; bits = [] }

bloom_insert-fault_example :
    (insert {Item = ℕ} no_bits 7 ≡ fault) ↔ ((no_bits.size ≡ 0) × (0 < no_bits.hash_count))
bloom_insert-fault_example = bloom_insert-fault no_bits 7 refl
