-- ===== src/MemtableBench/Examples.antt =====
-- The benchmarks of the memtable for two turns of a thread that meets free locks.
use cs.Base.{ℕ, ◌+◌, ◌≡◌, refl, some, List, [], ◌∷◌, map, replicate, true, arith}
use cs.Arena.{Ptr}
use cs.Arena.Concurrent.{Turn}
use cs.Memtable.Memory.{Memory}
use cs.Memtable.KvStore.{KvStore}
use cs.MemtableBench.{
  key_text, value_text, letter_v, of_size, memtable_kv_store_insert_small,
  memtable_kv_store_insert_huge, memtable_kv_store_insert_random,
}
use cs.MemtableBench.Stored.{AllStored, drawn_values, memtable_benchmarks-AllStored}

abbrev turn : Turn
turn = record { cpu_id = 0; arena_free = true; shard_free = true; processor = 3; thread_hash = 0 }

abbrev turns : List Turn
turns = turn ∷ turn ∷ []

abbrev zeros : Memory
zeros slab offset = 0

-- A distribution that draws 4 for ever.
abbrev fours : ℕ → ℕ × ℕ
fours s = (4, s + 1)

memtable_benchmarks-AllStored_example :
    ((r : List Ptr × KvStore) × (memtable_kv_store_insert_small 16 8 zeros turns ≡ some r)
      × AllStored key_text (value_text ∷ value_text ∷ []) r)
    × ((r : List Ptr × KvStore) × (memtable_kv_store_insert_huge 16 8 zeros turns ≡ some r)
        × AllStored key_text (map (λ _. replicate 4096 letter_v) turns) r)
    × ((r : List Ptr × KvStore) × (memtable_kv_store_insert_random 16 8 zeros turns fours 0
          ≡ some r)
        × AllStored key_text (drawn_values (of_size fours) 0 turns) r)
memtable_benchmarks-AllStored_example =
    memtable_benchmarks-AllStored 16 8 zeros turns fours 0 (omega arith) refl (omega arith)
      (λ _. omega arith)
