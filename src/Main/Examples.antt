-- ===== src/Main/Examples.antt =====
-- The program on small inputs: a generator that counts, texts that are their numbers, and an engine
-- and a hash of the same kind.
use cs.Base.{ℕ, ◌+◌, ◌≡◌, refl, Bool, Option, none, some, List, [], ◌∷◌, arith}
use cs.Filter.Run.{ok, fault, ◌>>=◌, read, Returns}
use cs.Filter.Hasher.{fingerprint_of, index1_of, index2_of}
use cs.Filter.Slots.{find_slot}
use cs.Filter.Samples.{number_hasher, counter, list_bits}
use cs.Filter.Bloom as Bloom
use cs.Filter.Cuckoo as Cuckoo
use cs.Filter.Cuckoo.{CuckooFilter}
use cs.Filter.Chained.{new_map, map_insert, map_contains, map_size}
use cs.Main.{
  Sizes, Report, make_bf, make_cf, make_cm, fill, fill_counting, count_found, measure_bf,
  measure_cf, measure_cm, measure, workloads, main,
}
use cs.Main.Loops.{later}
use cs.Main.Parts.{AreUsable}
use cs.Main.Refound.{bloom-refound, cuckoo-refound}

abbrev count_up : ℕ → ℕ × ℕ
count_up s = (s, s + 1)

abbrev small : Sizes
small = record { bits = λ n. 64; hashes = λ n. 2; buckets = λ n. 4 }

small-AreUsable : (n : ℕ) → AreUsable small n
small-AreUsable n = record {
  some_bits = omega arith;
  some_buckets = omega arith;
  few_buckets = omega arith;
}

abbrev stoull : Option ℕ → Option ℕ
stoull arg = arg

bloom-refound_example :
    Returns
      (fill count_up Bloom.insert 3 (make_bf {B = List Bool} small 3) 5)
      λ r. count_found count_up (Bloom.contains r.0) 3 5 0 ≡ ok (3, later count_up 3 5)
bloom-refound_example =
    bloom-refound {Item = ℕ} count_up {B = List Bool} small 3 5 (small-AreUsable 3)

-- The fingerprints 5, 6 and 7 in the buckets 1, 2 and 3.
abbrev filled : CuckooFilter ℕ
filled = record {
  bucket_count = 4;
  bucket_size = 2;
  fingerprint_size = 8;
  max_kicks = 50;
  buckets = 0 ∷ 0 ∷ 5 ∷ 0 ∷ 6 ∷ 0 ∷ 7 ∷ 0 ∷ [];
  rng = 1;
}

abbrev empty : CuckooFilter ℕ
empty = record filled { buckets = 0 ∷ 0 ∷ 0 ∷ 0 ∷ 0 ∷ 0 ∷ 0 ∷ 0 ∷ [] }

empty-make_cf : make_cf small 3 1 ≡ ok empty
unfolding make_cf Cuckoo.new_filter
empty-make_cf = refl

filled-fill_counting :
    fill_counting count_up (Cuckoo.insert {Item = ℕ}) 3 empty 5 0 ≡ ok (0, filled, 8)
unfolding fill_counting Cuckoo.insert fingerprint_of index1_of index2_of find_slot read
filled-fill_counting = refl

cuckoo-refound_example :
    count_found count_up (Cuckoo.contains {Item = ℕ} filled) 3 5 0 ≡ ok (3, later count_up 3 5)
cuckoo-refound_example =
    cuckoo-refound count_up small 3 2 5 1 (small-AreUsable 3) refl empty-make_cf
      filled-fill_counting

-- What is printed for one item: both generators count from 5, so that each filter is tested with what
-- was inserted into it.
abbrev report : Report
report = record {
  bf_fp = 1;
  bf_size = 64;
  cf_fail = 0;
  cf_fp = 1;
  cf_size = 64;
  cm_fail = 0;
  cm_fp = 1;
  cm_size = 320;
}

printed :
    main {Item = ℕ} {G = ℕ}
      (List Bool)
      small
      count_up
      count_up
      stoull
      (none ∷ some 1 ∷ [])
      5
      5
      (0, 1)
      (2, 3)
    ≡ ok (some (report, report))
unfolding main workloads measure measure_bf measure_cf measure_cm fill fill_counting count_found
    make_bf make_cf make_cm Bloom.insert Bloom.contains Bloom.new_bloom Cuckoo.new_filter
    Cuckoo.insert Cuckoo.contains Cuckoo.size new_map map_insert map_contains map_size
    fingerprint_of index1_of index2_of find_slot read
printed = refl

-- Tested with an item that is in no slot of bucket 2, the map reads a misaligned pointer.
undefined :
    main {Item = ℕ} {G = ℕ}
      (List Bool)
      small
      count_up
      count_up
      stoull
      (none ∷ some 1 ∷ [])
      5
      90
      (0, 1)
      (2, 3)
    ≡ fault
unfolding main workloads measure measure_bf measure_cf measure_cm fill fill_counting count_found
    make_bf make_cf make_cm Bloom.insert Bloom.contains Bloom.new_bloom Cuckoo.new_filter
    Cuckoo.insert Cuckoo.contains Cuckoo.size new_map map_insert map_contains map_size
    fingerprint_of index1_of index2_of find_slot read
undefined = refl
