-- ===== src/Memtable/KvStore/Insert.antt =====
-- `insert` writes the string of its pair into a fresh block, and nothing outside it.
use mathlib.Core.List.{append_assoc, append-nil}
use native.Mathlib.Nat.{add-zero}
use cs.Base.{
  ℕ, ◌+◌, ◌%◌, ◌^◌, ◌≤◌, ◌<◌, ◌≡◌, refl, ◌∙◌, some, List, [], ◌∷◌, ◌++◌, length, length-take,
  length-eq-zero, length-drop, get_or, drop, All, arith,
}
use cs.Base.Words.{IsU64}
use cs.Arena.{Ptr}
use cs.Arena.Blocks.{Block, block_at, IsInside, IsApart}
use cs.Arena.Splitting.{drop_regions}
use cs.Arena.Concurrent.{ConcurrentArena, Turn, concurrent_allocate}
use cs.Arena.Concurrent.Regions.{regions}
use cs.Arena.Concurrent.Start.{new_concurrent-IsServing}
use cs.Arena.Concurrent.Calls.{concurrent_allocate-IsServing}
use cs.Varint.Groups.{groups, encode_varint-groups}
use cs.Varint.Width.{get_varint_size-groups, length-groups_bounds}
use cs.Memtable.Memory.{Memory, shift, bytes_at, view, poke}
use cs.Memtable.Memory.Laws.{
  length-bytes_at, poke_self, poke_behind, Keeps, poke-Keeps, Keeps-trans, write-some,
}
use cs.Memtable.KvStore.{KvStore, new_store, encode_at, insert}
use cs.Memtable.KvStore.Entries.{
  Entry, entry_bytes, entry_blocks, IsStored, IsShort, Holds, length_four, length-entry_bytes,
}

pub new_store-Holds :
    (align_unit num_cpus : ℕ) (memory : Memory) (slab_size : ℕ)
    → 0 < align_unit
    → 2 ^ 31 % align_unit ≡ 0
    → num_cpus ≤ 2 ^ 32
    → Holds (new_store align_unit num_cpus memory slab_size) []
unfolding new_store
new_store-Holds align_unit num_cpus memory slab_size pos div few = record {
  serving = new_concurrent-IsServing align_unit num_cpus slab_size pos div few;
  stored = tt;
  short = tt;
}

length-view :
    (slabs : List ℕ) (m : Memory) (p : Ptr) (n : ℕ)
    → p.offset + n ≤ get_or slabs p.slab 0
    → length (view slabs m p n) ≡ n
unfolding view
length-view slabs m p n fits = length-take n _ (rw length-bytes_at (omega arith))

-- Into a span of its size, the encoder writes the groups of the value alone.
encode_at-some :
    (slabs : List ℕ) (m : Memory) (p : Ptr) (v : ℕ)
    → IsU64 v
    → p.offset + length (groups 9 v) ≤ get_or slabs p.slab 0
    → encode_at slabs m p (length (groups 9 v)) v ≡ some (poke m p (groups 9 v))
unfolding encode_at
encode_at-some slabs m p v h fits =
    let g = groups 9 v in
    let size = length-view slabs m p (length g) fits in
    let left : drop (length g) (view slabs m p (length g)) ≡ [] =
      length-eq-zero _ (rw length-drop (omega arith)) in
    rw (encode_varint-groups v (view slabs m p (length g)) h (omega arith), left, append-nil)
      (write-some slabs m p g fits)

-- Four strings written behind one another.
write_four : Memory → Ptr → List ℕ → List ℕ → List ℕ → List ℕ → Memory
write_four m p a b c d =
    poke (poke (poke (poke m p a) (shift p (length a)) b) (shift p (length a + length b)) c)
      (shift p (length a + length b + length c)) d

module _ (m : Memory) (p : Ptr) (a b c d : List ℕ) where
  write_four-stored :
      bytes_at (write_four m p a b c d) p.slab p.offset (length (a ++ (b ++ (c ++ d))))
      ≡ a ++ (b ++ (c ++ d))
  unfolding write_four
  write_four-stored =
      let m1 = poke m p a in
      let m2 = poke m1 (shift p (length a)) b in
      let m3 = poke m2 (shift p (length a + length b)) c in
      rw
        (
          length_four a b c d,
          poke_behind m3 p (length a + length b + length c) d,
          poke_behind m2 p (length a + length b) c,
          poke_behind m1 p (length a) b,
          poke_self m p a,
          append_assoc (a ++ b) c d,
          append_assoc a b (c ++ d),
        )
        refl

  write_four-Keeps : Keeps (block_at p (length (a ++ (b ++ (c ++ d))))) m (write_four m p a b c d)
  unfolding write_four
  write_four-Keeps =
      let size = length (a ++ (b ++ (c ++ d))) in
      let whole = length_four a b c d in
      let m1 = poke m p a in
      let m2 = poke m1 (shift p (length a)) b in
      let m3 = poke m2 (shift p (length a + length b)) c in
      let block = block_at p size in
      let first : Keeps block m m1 = rw add-zero at (poke-Keeps m p size 0 a (omega arith)) in
      let second = poke-Keeps m1 p size (length a) b (omega arith) in
      let third = poke-Keeps m2 p size (length a + length b) c (omega arith) in
      let fourth = poke-Keeps m3 p size (length a + length b + length c) d (omega arith) in
      Keeps-trans block m m1 _ first
        (Keeps-trans block m1 m2 _ second (Keeps-trans block m2 m3 _ third fourth))

-- The pairs in other blocks stay.
IsStored-Keeps :
    (b : Block) (m m' : Memory) (es : List Entry)
    → Keeps b m m'
    → All (IsApart b) (entry_blocks es)
    → All (IsStored m) es
    → All (IsStored m') es
IsStored-Keeps b m m' [] keeps apart stored = tt
IsStored-Keeps b m m' (e ∷ es) keeps apart stored =
    (keeps _ apart.0 ∙ stored.0, IsStored-Keeps b m m' es keeps apart.1 stored.1)

module _ (kvs : KvStore) (t : Turn) (key value : List ℕ) (k : IsShort key) (v : IsShort value) where
  insert_run :
      (ptr : Ptr) (arena : ConcurrentArena) (cpu_id : ℕ)
      → concurrent_allocate kvs.arena t (length (entry_bytes key value)) ≡ some (ptr, arena, cpu_id)
      → IsInside arena.arena.slabs (block_at ptr (length (entry_bytes key value)))
      → insert kvs t key value
        ≡ some (
          ptr,
          record {
            arena = arena;
            memory =
                write_four kvs.memory ptr
                  (groups 9 (length key))
                  key
                  (groups 9 (length value))
                  value;
          },
        )
  unfolding insert write_four
  insert_run ptr arena cpu_id run inside =
      let gk = groups 9 (length key) in
      let gv = groups 9 (length value) in
      let slabs = arena.arena.slabs in
      let size_key = get_varint_size-groups (length key) (omega arith) in
      let size_value = get_varint_size-groups (length value) (omega arith) in
      let size = length_four gk key gv value in
      let few_key = length-groups_bounds (length key) (omega arith) in
      let few_value = length-groups_bounds (length value) (omega arith) in
      let whole : (length gk + length gv + length key + length value) % 2 ^ 64
          ≡ length (entry_bytes key value) =
        omega arith in
      let m1 = poke kvs.memory ptr gk in
      let m2 = poke m1 (shift ptr (length gk)) key in
      let m3 = poke m2 (shift ptr (length gk + length key)) gv in
      rw
        (
          size_key,
          size_value,
          whole,
          run,
          encode_at-some slabs kvs.memory ptr (length key) (omega arith) (omega arith),
          write-some slabs m1 (shift ptr (length gk)) key (omega arith),
          encode_at-some slabs m2 (shift ptr (length gk + length key)) (length value) (omega arith)
              (omega arith),
          write-some slabs m3 (shift ptr (length gk + length key + length gv)) value (omega arith),
        )
        refl

  -- With any turn, `insert` returns and adds its pair.
  pub insert-Holds :
      (es : List Entry)
      → Holds kvs es
      → (ptr : Ptr) × (kvs' : KvStore) × (insert kvs t key value ≡ some (ptr, kvs'))
        × Holds kvs' (record { ptr = ptr; key = key; value = value } ∷ es)
  insert-Holds es holds =
      let gk = groups 9 (length key) in
      let gv = groups 9 (length value) in
      let size = length-entry_bytes key value k v in
      let some_bytes = length_four gk key gv value in
      let positive = length-groups_bounds (length key) (omega arith) in
      let (ptr, arena, cpu_id, run, serving) =
        concurrent_allocate-IsServing kvs.arena (entry_blocks es) holds.serving t
          (length (entry_bytes key value)) (omega arith) in
      let sound = drop_regions arena.arena (regions arena.shards) _ serving.sound in
      let m = write_four kvs.memory ptr gk key gv value in
      (
        ptr,
        record { arena = arena; memory = m },
        insert_run ptr arena cpu_id run sound.inside.0,
        record {
          serving = serving;
          stored = (
            write_four-stored kvs.memory ptr gk key gv value,
            IsStored-Keeps (block_at ptr (length (entry_bytes key value))) kvs.memory m es
                (write_four-Keeps kvs.memory ptr gk key gv value) sound.apart.0 holds.stored,
          );
          short = ((k, v), holds.short);
        },
      )
