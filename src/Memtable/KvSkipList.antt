-- ===== src/Memtable/KvSkipList.antt =====
-- `KVSkipList` of memtable.hpp and memtable.cpp: the pointers of the pairs in the order of their inserts,
-- and a search through all of them. Both operations hold `nodes_mutex_` throughout, so that each is
-- one step.
pub mod Find
use Prim.Native.Nat.{Ordering}
use cs.Base.{ℕ, Bool, true, false, Option, none, some, List, [], ◌∷◌, ◌++◌, length, if◌then◌else◌}
use cs.Arena.{Ptr}
use cs.Arena.Concurrent.{Turn}
use cs.Memtable.Memory.{◌>>=◌, Memory, Span}
use cs.Memtable.Compare.{compare}
use cs.Memtable.KvStore
use cs.Memtable.KvStore.{KvStore, new_store, get, bytes_of}

pub record KvSkipList : Type 0 where
  pub max_height : ℕ
  pub branching_factor : ℕ
  pub kvs : KvStore
  pub nodes : List Ptr

pub new_skip_list : ℕ → ℕ → Memory → ℕ → ℕ → KvSkipList
new_skip_list align_unit num_cpus memory max_height branching_factor = record {
  max_height = max_height;
  branching_factor = branching_factor;
  kvs = new_store align_unit num_cpus memory 4096;
  nodes = [];
}

-- `sign == 0`
abbrev pub is_zero : Ordering → Bool
is_zero Ordering.lt = false
is_zero Ordering.eq = true
is_zero Ordering.gt = false

pub find_loop : KvStore → List ℕ → List Ptr → Option (List Span)
find_loop kvs key [] = some []
find_loop kvs key (node ∷ nodes) = do
  (test_key, value) ← get kvs node
  test_bytes ← bytes_of kvs test_key
  values ← find_loop kvs key nodes
  some (if is_zero (compare key test_bytes) then value ∷ values else values)

module _ (list : KvSkipList) where
  pub find : List ℕ → Option (List Span)
  find key = find_loop list.kvs key list.nodes

  pub insert : Turn → List ℕ → List ℕ → Option KvSkipList
  insert t key value = do
    (ptr, kvs) ← KvStore.insert list.kvs t key value
    some (record list { kvs = kvs; nodes = list.nodes ++ ptr ∷ [] })

  pub used : ℕ
  used = KvStore.used list.kvs

  pub size : ℕ
  size = length list.nodes
