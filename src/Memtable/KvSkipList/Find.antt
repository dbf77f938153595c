-- ===== src/Memtable/KvSkipList/Find.antt =====
-- The search of a list of pairs finds the values under a key in the order of their inserts.
use mathlib.Core.List.{append_assoc, append-nil, map-append}
use Prim.Native.Nat.{Ordering}
use cs.Base.{
  ℕ, ◌^◌, ◌≤◌, ◌<◌, ◌%◌, ◌≡◌, refl, ap, inl, inr, Bool, true, false, some, List, [], ◌∷◌, ◌++◌, map,
  length, length-append, All, if◌then◌else◌, Bool-cases, arith,
}
use cs.Arena.{Ptr}
use cs.Arena.Concurrent.{Turn}
use cs.Memtable.Memory.{Memory, Span}
use cs.Memtable.Compare.{compare, compare-IsBelow}
use cs.Memtable.Pairs.{
  Pair, same_bytes, same_bytes_refl, same_bytes→eq, values_of, values_of-append, values_of-none,
  values_of-one,
}
use cs.Memtable.KvStore.{KvStore, bytes_of}
use cs.Memtable.KvStore.Entries.{Entry, IsShort, Holds}
use cs.Memtable.KvStore.Insert.{insert-Holds, new_store-Holds}
use cs.Memtable.KvStore.Read.{value_span, Reads, Holds-Reads}
use cs.Memtable.KvSkipList.{KvSkipList, new_skip_list, is_zero, find_loop, find, insert, size}

-- Of entries with the last one first: the pointers and the pairs with the first one first.
nodes_of : List Entry → List Ptr
nodes_of [] = []
nodes_of (e ∷ es) = nodes_of es ++ e.ptr ∷ []

pairs_of : List Entry → List Pair
pairs_of [] = []
pairs_of (e ∷ es) = pairs_of es ++ (e.key, e.value) ∷ []

-- The list stands for the pairs in the order of their inserts.
pub Represents : KvSkipList → List Pair → Type 0
Represents list pairs =
    (es : List Entry) × Holds list.kvs es × (list.nodes ≡ nodes_of es) × (pairs ≡ pairs_of es)

different : (a b : List ℕ) → same_bytes a b ≡ false → ¬ (a ≡ b)
different a b other e = absurd (cc (same_bytes_refl b, ap (λ t. same_bytes t b) e))

is_zero-compare : (a b : List ℕ) → is_zero (compare a b) ≡ same_bytes a b
is_zero-compare a b = elim (Bool-cases (same_bytes a b)) [
  | inl same ↦
      let equal = (compare-IsBelow a b).1.1 (same_bytes→eq a b same) in rw (equal, same) refl
  | inr other ↦
      rw other (not_zero (compare a b) (λ e. different a b other ((compare-IsBelow a b).1.0 e)))
]
  where
    not_zero : (sign : Ordering) → ¬ (sign ≡ Ordering.eq) → is_zero sign ≡ false
    not_zero Ordering.lt h = refl
    not_zero Ordering.eq h = absurd (h refl)
    not_zero Ordering.gt h = refl

module _ (kvs : KvStore) (key : List ℕ) where
  -- What one entry adds to the values found.
  found_one : Entry → List Span
  found_one e = if same_bytes key e.key then value_span e ∷ [] else []

  found : List Entry → List Span
  unfolding found_one
  found [] = []
  found (e ∷ es) = found es ++ found_one e

  find_loop-next :
      (e : Entry) (nodes : List Ptr) (spans : List Span)
      → Reads kvs e
      → find_loop kvs key nodes ≡ some spans
      → find_loop kvs key (e.ptr ∷ nodes) ≡ some (found_one e ++ spans)
  unfolding find_loop found_one
  find_loop-next e nodes spans (both, key_bytes, _, _, _, _) run =
      rw (both, key_bytes, run, is_zero-compare) (chosen (same_bytes key e.key))
    where
      chosen :
          (same : Bool)
          → some (if same then value_span e ∷ spans else spans)
            ≡ some ((if same then value_span e ∷ [] else []) ++ spans)
      chosen true = refl
      chosen false = refl

  find_loop-nodes_of :
      (es : List Entry) (nodes : List Ptr) (spans : List Span)
      → All (Reads kvs) es
      → find_loop kvs key nodes ≡ some spans
      → find_loop kvs key (nodes_of es ++ nodes) ≡ some (found es ++ spans)
  unfolding nodes_of found
  find_loop-nodes_of [] nodes spans reads run = run
  find_loop-nodes_of (e ∷ es) nodes spans reads run =
      rw
        (append_assoc (nodes_of es) (e.ptr ∷ []) nodes, append_assoc (found es) (found_one e) spans)
        (find_loop-nodes_of es (e.ptr ∷ nodes) (found_one e ++ spans) reads.1
          (find_loop-next e nodes spans reads.0 run))

  -- The bytes behind the spans are the values.
  found_one-values_of :
      (e : Entry)
      → Reads kvs e
      → map (bytes_of kvs) (found_one e) ≡ map some (values_of key ((e.key, e.value) ∷ []))
  unfolding found_one
  found_one-values_of e (_, _, value_bytes, _, _, _) =
      rw values_of-one (chosen (same_bytes key e.key))
    where
      chosen :
          (same : Bool)
          → map (bytes_of kvs) (if same then value_span e ∷ [] else [])
            ≡ map some (if same then e.value ∷ [] else [])
      chosen true = ap (λ t. t ∷ []) value_bytes
      chosen false = refl

  found-values_of :
      (es : List Entry)
      → All (Reads kvs) es
      → map (bytes_of kvs) (found es) ≡ map some (values_of key (pairs_of es))
  unfolding found pairs_of
  found-values_of [] reads = rw values_of-none refl
  found-values_of (e ∷ es) (reads, more) =
      rw
        (
          values_of-append,
          map-append (bytes_of kvs) (found es) (found_one e),
          map-append some (values_of key (pairs_of es)) (values_of key ((e.key, e.value) ∷ [])),
          found-values_of es more,
          found_one-values_of e reads,
        )
        refl

length-nodes_of : (es : List Entry) → length (nodes_of es) ≡ length (pairs_of es)
unfolding nodes_of pairs_of
length-nodes_of [] = refl
length-nodes_of (e ∷ es) = omega (
  arith,
  length-append (nodes_of es) (e.ptr ∷ []),
  length-append (pairs_of es) ((e.key, e.value) ∷ []),
  length-nodes_of es,
)

module _ (list : KvSkipList) where
  -- In a list that stands for some pairs, the search finds the values under the key.
  pub find-Represents :
      (pairs : List Pair) (key : List ℕ)
      → Represents list pairs
      → (spans : List Span) × (find list key ≡ some spans)
        × (map (bytes_of list.kvs) spans ≡ map some (values_of key pairs))
  unfolding Represents find find_loop
  find-Represents pairs key (es, holds, same_nodes, same_pairs) =
      let reads = Holds-Reads list.kvs es holds in
      (
        found list.kvs key es,
        rw same_nodes (
            rw (append-nil (nodes_of es), append-nil (found list.kvs key es)) at
              (find_loop-nodes_of list.kvs key es [] [] reads refl)),
        rw same_pairs (found-values_of list.kvs key es reads),
      )

  -- An insert adds its pair behind the others.
  pub insert-Represents :
      (pairs : List Pair) (t : Turn) (key value : List ℕ)
      → Represents list pairs
      → IsShort key
      → IsShort value
      → (list' : KvSkipList) × (insert list t key value ≡ some list')
        × Represents list' (pairs ++ (key, value) ∷ [])
  unfolding Represents insert nodes_of pairs_of
  insert-Represents pairs t key value (es, holds, same_nodes, same_pairs) k v =
      let (ptr, kvs', run, holds') = insert-Holds list.kvs t key value k v es holds in
      let e : Entry = record { ptr = ptr; key = key; value = value } in
      (
        record list { kvs = kvs'; nodes = list.nodes ++ ptr ∷ [] },
        rw run refl,
        (
          e ∷ es,
          holds',
          ap (λ t. t ++ ptr ∷ []) same_nodes,
          ap (λ t. t ++ (key, value) ∷ []) same_pairs,
        ),
      )

  pub size-Represents : (pairs : List Pair) → Represents list pairs → size list ≡ length pairs
  unfolding Represents size
  size-Represents pairs (es, holds, same_nodes, same_pairs) =
      rw (same_nodes, same_pairs) (length-nodes_of es)

pub new_skip_list-Represents :
    (align_unit num_cpus : ℕ) (memory : Memory) (max_height branching_factor : ℕ)
    → 0 < align_unit
    → 2 ^ 31 % align_unit ≡ 0
    → num_cpus ≤ 2 ^ 32
    → Represents (new_skip_list align_unit num_cpus memory max_height branching_factor) []
unfolding Represents new_skip_list nodes_of pairs_of
new_skip_list-Represents align_unit num_cpus memory max_height branching_factor pos div few =
    ([], new_store-Holds align_unit num_cpus memory 4096 pos div few, refl, refl)
