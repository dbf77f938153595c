-- ===== src/MemtableBench/Stored.antt =====
-- The pairs that the benchmarks insert are all there at the end.
use cs.Base.{
  ℕ, ◌%◌, ◌^◌, ◌≡◌, ◌≤◌, ◌<◌, refl, ap, sym, some, List, [], ◌∷◌, length-replicate, replicate, map,
  All, arith,
}
use cs.Arena.{Ptr}
use cs.Arena.Concurrent.{Turn}
use cs.Memtable.Memory.{◌>>=◌, Memory}
use cs.Memtable.KvStore.{KvStore}
use cs.Memtable.KvStore.Entries.{Entry, IsShort, Holds}
use cs.Memtable.KvStore.Insert.{insert-Holds, new_store-Holds}
use cs.Memtable.KvStore.Read.{Reads, Holds-Reads}
use cs.MemtableBench.{
  key_text, value_text, letter_v, always, of_size, store_rounds, memtable_kv_store_insert_small,
  memtable_kv_store_insert_huge, memtable_kv_store_insert_random,
}

-- The result is a list of pointers and a store in which they stand for the key and these values.
pub record AllStored (key : List ℕ) (values : List (List ℕ)) (r : List Ptr × KvStore) : Type 0 where
  pub entries : List Entry
  pub pointers : r.0 ≡ map (λ e. e.ptr) entries
  pub keys : All (λ e. e.key ≡ key) entries
  pub same_values : map (λ e. e.value) entries ≡ values
  pub reads : All (Reads r.1) entries

-- The values that are drawn for the turns.
unfoldable pub drawn_values : {S : Type 0} → (S → List ℕ × S) → S → List Turn → List (List ℕ)
drawn_values draw rng [] = []
drawn_values draw rng (t ∷ turns) = (draw rng).0 ∷ drawn_values draw (draw rng).1 turns

module _ {S : Type 0} (draw : S → List ℕ × S) (key : List ℕ) (k : IsShort key)
    (bounded : (rng : S) → IsShort (draw rng).0) where
  store_rounds-AllStored :
      (kvs : KvStore) (old : List Entry) (rng : S) (turns : List Turn)
      → Holds kvs old
      → (r : List Ptr × KvStore) × (store_rounds draw key kvs rng turns ≡ some r)
        × AllStored key (drawn_values draw rng turns) r
        × All (Reads r.1) old
  unfolding store_rounds drawn_values
  store_rounds-AllStored kvs old rng [] holds = (
    ([], kvs),
    refl,
    record { entries = []; pointers = refl; keys = tt; same_values = refl; reads = tt },
    Holds-Reads kvs old holds,
  )
  store_rounds-AllStored kvs old rng (t ∷ turns) holds =
      let value = (draw rng).0 in
      let (ptr, kvs', run, holds') = insert-Holds kvs t key value k (bounded rng) old holds in
      let (r, runs, after, reads) = store_rounds-AllStored kvs' _ (draw rng).1 turns holds' in
      (
        (ptr ∷ r.0, r.1),
        rw (run, ◌>>=◌, runs) refl,
        record {
          entries = record { ptr = ptr; key = key; value = value } ∷ after.entries;
          pointers = ap (λ ptrs. ptr ∷ ptrs) after.pointers;
          keys = (refl, after.keys);
          same_values = ap (λ values. value ∷ values) after.same_values;
          reads = (reads.0, after.reads);
        },
        reads.1,
      )

drawn_values-always :
    (value : List ℕ) (turns : List Turn)
    → drawn_values (always value) tt turns ≡ map (λ _. value) turns
unfolding drawn_values
drawn_values-always value [] = refl
drawn_values-always value (t ∷ turns) =
    ap (λ values. value ∷ values) (drawn_values-always value turns)

letters-IsShort : (n : ℕ) → n ≤ 4096 → IsShort (replicate n letter_v)
letters-IsShort n h = rw length-replicate (omega arith)

module _ (align_unit num_cpus : ℕ) (memory : Memory) (turns : List Turn) where
  -- With an alignment that divides 2 ^ 31, at most 2 ^ 32 processors, memory of any content, any turns and
  -- random sizes of at most 4096, the three benchmarks return one pointer for each turn and a store in
  -- which these pointers stand for the key and the values of all insertions: the small one, the
  -- huge one, and those of the random sizes.
  pub memtable_benchmarks-AllStored :
      {S : Type 0} (dist : S → ℕ × S) (rng : S)
      → 0 < align_unit
      → 2 ^ 31 % align_unit ≡ 0
      → num_cpus ≤ 2 ^ 32
      → ((rng : S) → (dist rng).0 ≤ 4096)
      → ((r : List Ptr × KvStore) × (memtable_kv_store_insert_small align_unit num_cpus memory turns
            ≡ some r)
          × AllStored key_text (map (λ _. value_text) turns) r)
        × ((r : List Ptr × KvStore) × (memtable_kv_store_insert_huge align_unit num_cpus memory
                turns
              ≡ some r)
            × AllStored key_text (map (λ _. replicate 4096 letter_v) turns) r)
        × ((r : List Ptr × KvStore) × (memtable_kv_store_insert_random align_unit num_cpus memory
                turns dist rng
              ≡ some r)
            × AllStored key_text (drawn_values (of_size dist) rng turns) r)
  unfolding memtable_kv_store_insert_small memtable_kv_store_insert_huge
      memtable_kv_store_insert_random
  memtable_benchmarks-AllStored dist rng pos div few bounded =
      let start =
        λ (slab_size : ℕ). new_store-Holds align_unit num_cpus memory slab_size pos div few in
      let letters = replicate 4096 letter_v in
      let (small, small_run, small_stored, _) =
        store_rounds-AllStored (always value_text) key_text (omega arith) (λ _. omega arith) _ [] tt
          turns (start 4096) in
      let (huge, huge_run, huge_stored, _) =
        store_rounds-AllStored (always letters) key_text (omega arith)
          (λ _. letters-IsShort 4096 (omega arith)) _ [] tt turns (start (2 ^ 20)) in
      let (random, random_run, random_stored, _) =
        store_rounds-AllStored (of_size dist) key_text (omega arith)
          (λ s. letters-IsShort (dist s).0 (bounded s)) _ [] rng turns (start (2 ^ 20)) in
      (
        (small, small_run, rw (sym (drawn_values-always value_text turns)) small_stored),
        (huge, huge_run, rw (sym (drawn_values-always letters turns)) huge_stored),
        (random, random_run, random_stored),
      )
