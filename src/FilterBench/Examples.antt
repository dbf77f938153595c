-- ===== src/FilterBench/Examples.antt =====
-- The benchmarks with batches of three keys, and a generator, an engine and a hash that count.
use cs.Base.{ℕ, ◌+◌, ◌≡◌, refl, Bool, true, List, [], ◌∷◌, replicate, arith}
use cs.Filter.Chained.{new_map, map_insert, map_contains}
use cs.Filter.Run.{ok, modulo, read}
use cs.Filter.Hasher.{fingerprint_of, index1_of, index2_of}
use cs.Filter.Slots.{find_slot}
use cs.Filter.Samples.{number_hasher, counter, list_bits}
use cs.Filter.Cuckoo as Cuckoo
use cs.Filter.Cuckoo.{CuckooFilter, new_filter}
use cs.FilterBench.{
  make_random_strings, make_cf, make_cm, key_at, contains_rounds, filter_cuckoo_map_contains,
  filter_bloom_filter, filter_bloom_filter_contains, insert_keys, filter_cuckoo_filter_contains,
}
use cs.FilterBench.Found.{bloom_benchmarks-finds, filter_cuckoo_filter_contains-finds}

abbrev count_up : ℕ → ℕ × ℕ
count_up s = (s, s + 1)

abbrev seeds : ℕ → ℕ
seeds i = i

three_keys : make_random_strings count_up 3 5 ≡ 5 ∷ 6 ∷ 7 ∷ []
unfolding make_random_strings
three_keys = refl

bloom_benchmarks-finds_example :
    (filter_bloom_filter {Item = ℕ} count_up 5 seeds 4 3 (List Bool) ≡ ok tt)
    × (filter_bloom_filter_contains {Item = ℕ} count_up 5 seeds 4 3 (List Bool)
        ≡ ok (replicate 4 true))
bloom_benchmarks-finds_example =
    bloom_benchmarks-finds {Item = ℕ} count_up 5 seeds 4 3 (List Bool) (omega arith) (omega arith)

-- Four buckets of four slots, with 5, 6 and 7 in the buckets 1, 2 and 3.
abbrev filled : CuckooFilter ℕ
filled = record {
  bucket_count = 4;
  bucket_size = 4;
  fingerprint_size = 8;
  max_kicks = 500;
  buckets = 0 ∷ 0 ∷ 0 ∷ 0 ∷ 5 ∷ 0 ∷ 0 ∷ 0 ∷ 6 ∷ 0 ∷ 0 ∷ 0 ∷ 7 ∷ 0 ∷ 0 ∷ 0 ∷ [];
  rng = 0;
}

abbrev empty : CuckooFilter ℕ
empty = record filled { buckets = replicate 16 0 }

empty-make_cf : make_cf 3 0 ≡ ok empty
unfolding make_cf new_filter
empty-make_cf = refl

filled-insert_keys :
    insert_keys (Cuckoo.insert {Item = ℕ}) empty (make_random_strings count_up 3 5)
    ≡ ok (replicate 3 true, filled)
unfolding insert_keys make_random_strings Cuckoo.insert fingerprint_of index1_of index2_of find_slot
    read
filled-insert_keys = refl

filter_cuckoo_filter_contains-finds_example :
    filter_cuckoo_filter_contains count_up 5 seeds 4 3 ≡ ok (replicate 4 true)
filter_cuckoo_filter_contains-finds_example =
    filter_cuckoo_filter_contains-finds count_up 5 seeds 4 3 2 empty filled (omega arith)
      (omega arith) refl empty-make_cf filled-insert_keys

-- While the keys are in slots, the benchmark of the map comes to no pointer.
map_run : filter_cuckoo_map_contains {Item = ℕ} count_up 5 seeds 4 3 ≡ ok (replicate 4 true)
unfolding filter_cuckoo_map_contains make_cm new_map make_random_strings insert_keys contains_rounds
    key_at map_insert map_contains modulo fingerprint_of index1_of index2_of find_slot read
map_run = refl
