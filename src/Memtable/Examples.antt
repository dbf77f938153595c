-- ===== src/Memtable/Examples.antt =====
-- The memtable on small inputs.
use Prim.Native.Nat.{Ordering}
use cs.Base.{ℕ, ◌≡◌, ◌↔◌, refl, true, some, List, [], ◌∷◌, map, length, All, arith}
use cs.Arena.{Ptr}
use cs.Arena.Concurrent.{Turn}
use cs.Memtable.Memory.{Memory}
use cs.Memtable.Compare.{compare, IsBelow, compare-IsBelow}
use cs.Memtable.Pairs.{Pair, values_of}
use cs.Memtable.KvStore.{KvStore, new_store, insert, compare_at, hash_at}
use cs.Memtable.KvStore.Insert.{new_store-Holds}
use cs.Memtable.KvStore.Entries.{Entry, Holds}
use cs.Memtable.KvStore.Read.{Reads, compare_at-compare, get-insert}
use cs.Memtable.KvSkipList.{KvSkipList}
use cs.Memtable.Table.{MemTable, StringView, find, size, text_of, run_inserts, pair_of}
use cs.Memtable.Table.SkipList.{skip_list, new_table, find-new_table}

abbrev only_thread : Turn
only_thread = record {
  cpu_id = 0;
  arena_free = true;
  shard_free = true;
  processor = 0;
  thread_hash = 0;
}

-- "key" and "kez"
abbrev key : List ℕ
key = 107 ∷ 101 ∷ 121 ∷ []

abbrev later_key : List ℕ
later_key = 107 ∷ 101 ∷ 122 ∷ []

abbrev value : List ℕ
value = 1 ∷ 2 ∷ []

abbrev zeros : Memory
zeros slab offset = 0

abbrev store : KvStore
store = new_store 16 8 zeros 4096

later : compare later_key key ≡ Ordering.gt
unfolding compare
later = refl

a_prefix : compare (107 ∷ []) key ≡ Ordering.lt
unfolding compare
a_prefix = refl

compare-IsBelow_example :
    ((compare key later_key ≡ Ordering.lt) ↔ IsBelow key later_key)
    × ((compare key later_key ≡ Ordering.eq) ↔ (key ≡ later_key))
    × ((compare key later_key ≡ Ordering.gt) ↔ IsBelow later_key key)
compare-IsBelow_example = compare-IsBelow key later_key

store-Holds : Holds store []
store-Holds = new_store-Holds 16 8 zeros 4096 (omega arith) refl (omega arith)

abbrev entry : Ptr → Entry
entry ptr = record { ptr = ptr; key = key; value = value }

get-insert_example :
    (ptr : Ptr) × (kvs : KvStore) × (insert store only_thread key value ≡ some (ptr, kvs))
    × Holds kvs (entry ptr ∷ [])
    × All (Reads kvs) (entry ptr ∷ [])
get-insert_example =
    get-insert store [] only_thread key value store-Holds (omega arith) (omega arith)

filled :
    (ptr : Ptr) × (kvs : KvStore) × (insert store only_thread key value ≡ some (ptr, kvs))
    × Holds kvs (entry ptr ∷ [])
    × All (Reads kvs) (entry ptr ∷ [])
filled = get-insert store [] only_thread key value store-Holds (omega arith) (omega arith)

compare_at-compare_example :
    All
      (λ a.
        All
          (λ b. compare_at filled.1 a.ptr b.ptr ≡ some (compare a.key b.key))
          (entry filled.0 ∷ [])
        × (hash_at filled.1 length a.ptr ≡ some (length a.key)))
      (entry filled.0 ∷ [])
compare_at-compare_example = compare_at-compare filled.1 length (entry filled.0 ∷ []) filled.3

abbrev inserts : List (Turn × Pair)
inserts =
    (only_thread, (key, value)) ∷ (only_thread, (later_key, [])) ∷ (only_thread, (key, key)) ∷ []

two_values : values_of key (map pair_of inserts) ≡ value ∷ key ∷ []
unfolding values_of
two_values = refl

find-new_table_example :
    (table : MemTable KvSkipList) × (run_inserts skip_list (new_table 16 8 zeros) inserts
      ≡ some table)
    × ((key : List ℕ)
        → (views : List StringView) × (find skip_list table key ≡ some views)
          × (map (text_of skip_list table) views ≡ map some (values_of key (map pair_of inserts))))
    × (size skip_list table ≡ 3)
find-new_table_example =
    find-new_table 16 8 zeros inserts (omega arith) refl (omega arith) (omega arith)
