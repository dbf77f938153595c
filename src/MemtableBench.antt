-- ===== src/MemtableBench.antt =====
-- mousedb/src/memtable.bench.cpp: what the benchmarks of `KVStore` do with it. A benchmark runs for the
-- number of iterations that the library chooses, one for each turn; each thread has a store of its own.
-- The result is the pointers that it hands to `DoNotOptimize`, and the store.
pub mod Stored
mod Examples
use cs.Base.{ℕ, ◌^◌, Option, none, some, List, [], ◌∷◌, replicate}
use cs.Arena.{Ptr}
use cs.Arena.Concurrent.{Turn}
use cs.Memtable.Memory.{◌>>=◌, Memory}
use cs.Memtable.KvStore.{KvStore, new_store, insert}

-- "key", "value" and 'v'
abbrev pub key_text : List ℕ
key_text = 107 ∷ 101 ∷ 121 ∷ []

abbrev pub value_text : List ℕ
value_text = 118 ∷ 97 ∷ 108 ∷ 117 ∷ 101 ∷ []

abbrev pub letter_v : ℕ
letter_v = 118

-- The iterations that insert a value each under the same key; `draw` makes the value.
pub store_rounds :
    {S : Type 0} → (S → List ℕ × S) → List ℕ → KvStore → S → List Turn → Option (List Ptr × KvStore)
store_rounds draw key kvs rng [] = some ([], kvs)
store_rounds draw key kvs rng (t ∷ turns) = do
  let (value, rng) = draw rng
  (ptr, kvs) ← insert kvs t key value
  (ptrs, kvs) ← store_rounds draw key kvs rng turns
  some (ptr ∷ ptrs, kvs)

-- One value for all iterations, made before them.
abbrev pub always : List ℕ → Unit {0} → List ℕ × Unit {0}
always value rng = (value, rng)

-- A value of the size that the distribution draws.
abbrev pub of_size : {S : Type 0} → (S → ℕ × S) → S → List ℕ × S
of_size dist rng = let (size, rng') = dist rng in (replicate size letter_v, rng')

-- The benchmarks, by what the functions in the source are called, with the memory that the slabs get.
module _ (align_unit num_cpus : ℕ) (memory : Memory) (turns : List Turn) where
  pub memtable_kv_store_insert_small : Option (List Ptr × KvStore)
  memtable_kv_store_insert_small =
      let kvs = new_store align_unit num_cpus memory 4096 in
      store_rounds (always value_text) key_text kvs tt turns

  pub memtable_kv_store_insert_huge : Option (List Ptr × KvStore)
  memtable_kv_store_insert_huge =
      let kvs = new_store align_unit num_cpus memory (2 ^ 20) in
      store_rounds (always (replicate 4096 letter_v)) key_text kvs tt turns

  pub memtable_kv_store_insert_random : {S : Type 0} → (S → ℕ × S) → S → Option (List Ptr × KvStore)
  memtable_kv_store_insert_random dist rng =
      let kvs = new_store align_unit num_cpus memory (2 ^ 20) in
      store_rounds (of_size dist) key_text kvs rng turns
