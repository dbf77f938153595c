-- ===== src/Memtable/Table/SkipList.antt =====
-- The table of the benchmarks, over `KVSkipList`.
use cs.Base.{ℕ, ◌%◌, ◌^◌, ◌≤◌, ◌<◌, ◌≡◌, some, List, map, length, All}
use cs.Arena.Concurrent.{Turn}
use cs.Memtable.Memory.{Memory}
use cs.Memtable.Pairs.{Pair, values_of}
use cs.Memtable.KvStore
use cs.Memtable.KvSkipList
use cs.Memtable.KvSkipList.{KvSkipList, new_skip_list}
use cs.Memtable.KvSkipList.Find.{
  Represents, find-Represents, insert-Represents, size-Represents, new_skip_list-Represents,
}
use cs.Memtable.Table.{
  KvMap, IsKvMap, MemTable, StringView, find, size, text_of, run_inserts, pair_of, IsShortInsert,
  find-run_inserts,
}

abbrev pub skip_list : KvMap KvSkipList Turn
skip_list = record {
  find = KvSkipList.find;
  insert = KvSkipList.insert;
  used = KvSkipList.used;
  size = KvSkipList.size;
  bytes_of = λ list. KvStore.bytes_of list.kvs;
}

skip_list-IsKvMap : IsKvMap skip_list Represents
skip_list-IsKvMap = record {
  find-Represents = find-Represents;
  insert-Represents = insert-Represents;
  size-Represents = size-Represents;
}

abbrev pub new_table : ℕ → ℕ → Memory → MemTable KvSkipList
new_table align_unit num_cpus memory = record {
  byte_map = new_skip_list align_unit num_cpus memory 12 4;
}

-- With an alignment that divides 2 ^ 31, at most 2 ^ 32 processors and memory of any content, a table over
-- `KVSkipList` takes every sequence of inserts of keys and values below 2 ^ 56 bytes, whatever shards,
-- locks and processors they meet. Afterwards `find` of any key returns one string for each insert
-- under that key, the bytes of its value, in the order of the inserts, and `size` is the number of inserts.
pub find-new_table :
    (align_unit num_cpus : ℕ) (memory : Memory) (inserts : List (Turn × Pair))
    → 0 < align_unit
    → 2 ^ 31 % align_unit ≡ 0
    → num_cpus ≤ 2 ^ 32
    → All IsShortInsert inserts
    → (table : MemTable KvSkipList) × (run_inserts skip_list
          (new_table align_unit num_cpus memory)
          inserts
        ≡ some table)
      × ((key : List ℕ)
          → (views : List StringView) × (find skip_list table key ≡ some views)
            × (map (text_of skip_list table) views
                ≡ map some (values_of key (map pair_of inserts))))
      × (size skip_list table ≡ length inserts)
find-new_table align_unit num_cpus memory inserts pos div few short =
    find-run_inserts skip_list Represents skip_list-IsKvMap
      (new_skip_list align_unit num_cpus memory 12 4) inserts
      (new_skip_list-Represents align_unit num_cpus memory 12 4 pos div few) short
