-- ===== src/FilterBench.antt =====
-- mousedb/src/filter.bench.cpp: what the benchmarks of the filters do with them. A benchmark runs for the
-- number of iterations that the library chooses; the result is what it hands to `DoNotOptimize`.
pub mod Rounds
pub mod Complete
pub mod Found
mod Examples
use cs.Base.{ℕ, zero, suc, ◌+◌, ◌*◌, ◌/◌, ◌%◌, max, Bool, List, [], ◌∷◌, ◌++◌}
use cs.Base.Words.{u64_mod}
use cs.Filter.Run.{Run, ok, fault, ◌>>=◌, modulo}
use cs.Filter.Hasher.{Hasher, Engine}
use cs.Filter.Bitset.{Bitset}
use cs.Filter.Bloom as Bloom
use cs.Filter.Bloom.{BloomFilter, new_bloom, bloom_insert_all}
use cs.Filter.Cuckoo as Cuckoo
use cs.Filter.Cuckoo.{CuckooFilter, new_filter}
use cs.Filter.Chained.{CuckooMap, new_map, map_insert, map_contains, map_erase}

-- For a generator with state `S`; `next` draws a number and gives its text.
pub make_random_strings : {Item S : Type 0} → (S → Item × S) → ℕ → S → List Item
make_random_strings next zero rng = []
make_random_strings next (suc n) rng =
    let (item, rng') = next rng in item ∷ make_random_strings next n rng'

pub make_cf {κ} : {G : Type κ} → ℕ → G → Run (CuckooFilter G)
make_cf n_elements rng = new_filter (max 4 (n_elements / 4)) 4 8 500 rng

pub make_cm {κ} : {G : Type κ} → ℕ → G → Run (CuckooMap G)
make_cm n_elements rng = new_map (max 4 (n_elements / 4)) 4 8 500 rng

-- `keys[idx]`
pub key_at : {Item : Type 0} → List Item → ℕ → Run Item
key_at [] idx = fault
key_at (key ∷ keys) zero = ok key
key_at (key ∷ keys) (suc idx) = key_at keys idx

-- The iterations that look one key up each.
pub contains_rounds : {Item : Type 0} → (Item → Run Bool) → List Item → ℕ → ℕ → ℕ → Run (List Bool)
contains_rounds contains keys batch zero idx = ok []
contains_rounds contains keys batch (suc iterations) idx = do
  key ← key_at keys idx
  found ← contains key
  idx ← modulo (idx + 1) batch
  rest ← contains_rounds contains keys batch iterations idx
  ok (found ∷ rest)

-- The iterations that fill a new Bloom filter each.
pub bloom_rounds :
    {Item : Type 0} (B : Type 0) ⦃h : Hasher Item⦄ ⦃b : Bitset B⦄
    → ℕ
    → List Item
    → ℕ
    → Run (Unit {0})
bloom_rounds B batch keys zero = ok tt
bloom_rounds B batch keys (suc iterations) = do
  bf ← bloom_insert_all (new_bloom {B = B} (batch * 10 % u64_mod) 3) keys
  bloom_rounds B batch keys iterations

module _ {Item F : Type 0} where
  -- The loop over all keys, with what the insertions return.
  pub insert_keys : (F → Item → Run (Bool × F)) → F → List Item → Run (List Bool × F)
  insert_keys insert f [] = ok ([], f)
  insert_keys insert f (key ∷ keys) = do
    (done, f) ← insert f key
    (results, f) ← insert_keys insert f keys
    ok (done ∷ results, f)

  -- The insertions into a new filter, which each iteration makes.
  pub insert_rounds : (ℕ → Run F) → (F → Item → Run (Bool × F)) → List Item → ℕ → Run (List Bool)
  insert_rounds make insert keys zero = ok []
  insert_rounds make insert keys (suc iterations) = do
    f ← make iterations
    (results, f) ← insert_keys insert f keys
    rest ← insert_rounds make insert keys iterations
    ok (results ++ rest)

  -- The iterations that erase one key each and insert it again.
  pub erase_rounds :
      (F → Item → Run (Bool × F))
      → (F → Item → Run (Bool × F))
      → List Item
      → ℕ
      → ℕ
      → ℕ
      → F
      → Run (List Bool)
  erase_rounds erase insert keys batch zero idx f = ok []
  erase_rounds erase insert keys batch (suc iterations) idx f = do
    key ← key_at keys idx
    (found, f) ← erase f key
    (done, f) ← insert f key
    idx ← modulo (idx + 1) batch
    rest ← erase_rounds erase insert keys batch iterations idx f
    ok (found ∷ rest)

-- The benchmarks, by what the functions in the source are called. Each filter that is made has a seed
-- of its own from `std::random_device`.
module _ {Item S G : Type 0} ⦃h : Hasher Item⦄ ⦃e : Engine G⦄ (next : S → Item × S) (rng : S)
    (seeds : ℕ → G) (iterations batch : ℕ) where
  abbrev keys : List Item
  keys = make_random_strings next batch rng

  module _ (B : Type 0) ⦃b : Bitset B⦄ where
    pub filter_bloom_filter : Run (Unit {0})
    filter_bloom_filter = bloom_rounds B batch keys iterations

    pub filter_bloom_filter_contains : Run (List Bool)
    filter_bloom_filter_contains = do
      bf ← bloom_insert_all (new_bloom {B = B} (batch * 10 % u64_mod) 3) keys
      contains_rounds (Bloom.contains bf) keys batch iterations 0

  pub filter_cuckoo_filter_insert : Run (List Bool)
  filter_cuckoo_filter_insert =
      insert_rounds (λ i. make_cf batch (seeds i)) Cuckoo.insert keys iterations

  pub filter_cuckoo_filter_insert_zipf : (S → Item × S) → Run (List Bool)
  filter_cuckoo_filter_insert_zipf zipf =
      insert_rounds (λ i. make_cf batch (seeds i)) Cuckoo.insert
        (make_random_strings zipf batch rng) iterations

  pub filter_cuckoo_filter_contains : Run (List Bool)
  filter_cuckoo_filter_contains = do
    cf ← make_cf batch (seeds 0)
    (results, cf) ← insert_keys Cuckoo.insert cf keys
    contains_rounds (Cuckoo.contains cf) keys batch iterations 0

  pub filter_cuckoo_filter_erase : Run (List Bool)
  filter_cuckoo_filter_erase = do
    cf ← make_cf batch (seeds 0)
    (results, cf) ← insert_keys Cuckoo.insert cf keys
    erase_rounds Cuckoo.erase Cuckoo.insert keys batch iterations 0 cf

  pub filter_cuckoo_map_insert : Run (List Bool)
  filter_cuckoo_map_insert = insert_rounds (λ i. make_cm batch (seeds i)) map_insert keys iterations

  pub filter_cuckoo_map_insert_zipf : (S → Item × S) → Run (List Bool)
  filter_cuckoo_map_insert_zipf zipf =
      insert_rounds (λ i. make_cm batch (seeds i)) map_insert (make_random_strings zipf batch rng)
        iterations

  pub filter_cuckoo_map_contains : Run (List Bool)
  filter_cuckoo_map_contains = do
    cm ← make_cm batch (seeds 0)
    (results, cm) ← insert_keys map_insert cm keys
    contains_rounds (map_contains cm) keys batch iterations 0

  pub filter_cuckoo_map_erase : Run (List Bool)
  filter_cuckoo_map_erase = do
    cm ← make_cm batch (seeds 0)
    (results, cm) ← insert_keys map_insert cm keys
    erase_rounds map_erase map_insert keys batch iterations 0 cm
