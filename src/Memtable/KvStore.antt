-- ===== src/Memtable/KvStore.antt =====
-- `KVStore` of memtable.hpp and memtable.cpp: each pair stands in one block of a concurrent arena, as
-- [key_size, key, value_size, value].
pub mod Entries
pub mod Insert
pub mod Read
use Prim.Native.Nat.{Ordering}
use cs.Base.{ℕ, ◌+◌, ◌%◌, ◌^◌, Option, none, some, List, length}
use cs.Base.Words.{u64_mod}
use cs.Arena.{Ptr, add64}
use cs.Arena.Concurrent.{ConcurrentArena, new_concurrent, Turn, concurrent_allocate}
use cs.Varint.{get_varint_size, encode_varint, decode_varint}
use cs.Memtable.Memory.{◌>>=◌, Memory, Span, shift, view, contents, write}
use cs.Memtable.Compare.{compare}

-- `memory` is what the pointers of the arena point to.
pub record KvStore : Type 0 where
  pub arena : ConcurrentArena
  pub memory : Memory

unfoldable pub new_store : ℕ → ℕ → Memory → ℕ → KvStore
new_store align_unit num_cpus memory slab_size = record {
  arena = new_concurrent align_unit num_cpus slab_size;
  memory = memory;
}

-- `encode_varint({ptr, n}, value)`
pub encode_at : List ℕ → Memory → Ptr → ℕ → ℕ → Option Memory
encode_at slabs m ptr n value = do
  (out, _) ← encode_varint (view slabs m ptr n) value
  write slabs m ptr out

-- The pointer, and the new state.
pub insert : KvStore → Turn → List ℕ → List ℕ → Option (Ptr × KvStore)
insert kvs t key value = do
  let size_key = length key
  let size_value = length value
  let size_varint_key = get_varint_size size_key
  let size_varint_value = get_varint_size size_value
  let size = (size_varint_key + size_varint_value + size_key + size_value) % u64_mod
  (ptr, arena, _) ← concurrent_allocate kvs.arena t size
  let slabs = arena.arena.slabs
  m ← encode_at slabs kvs.memory ptr size_varint_key size_key
  m ← write slabs m (shift ptr size_varint_key) key
  m ← encode_at slabs m (shift ptr (size_varint_key + size_key)) size_varint_value size_value
  m ← write slabs m (shift ptr (size_varint_key + size_key + size_varint_value)) value
  some (ptr, record { arena = arena; memory = m })

module _ (kvs : KvStore) where
  -- `decode_varint({ptr, sizeof(size_t)}, value)`
  pub decode_at : Ptr → Option (ℕ × ℕ)
  decode_at ptr = decode_varint (view kvs.arena.arena.slabs kvs.memory ptr 8)

  pub bytes_of : Span → Option (List ℕ)
  bytes_of span = contents kvs.arena.arena.slabs kvs.memory span

  pub get : Ptr → Option (Span × Span)
  get ptr = do
    (offset, size_key) ← decode_at ptr
    let key : Span = record { start = shift ptr offset; bytes = size_key }
    let offset = add64 offset size_key
    (n, size_value) ← decode_at (shift ptr offset)
    let offset = add64 offset n
    some (key, record { start = shift ptr offset; bytes = size_value })

  pub get_key : Ptr → Option Span
  get_key ptr = do
    (offset, size_key) ← decode_at ptr
    some (record { start = shift ptr offset; bytes = size_key })

  pub get_value : Ptr → Option Span
  get_value ptr = do
    (offset, size_key) ← decode_at ptr
    let offset = add64 offset size_key
    (n, size_value) ← decode_at (shift ptr offset)
    let offset = add64 offset n
    some (record { start = shift ptr offset; bytes = size_value })

  pub get_size : Ptr → Option ℕ
  get_size ptr = do
    (offset, size_key) ← decode_at ptr
    let offset = add64 offset size_key
    (n, size_value) ← decode_at (shift ptr offset)
    let offset = add64 offset n
    some (add64 offset size_value)

  -- `compare` of the keys behind two pointers
  pub compare_at : Ptr → Ptr → Option Ordering
  compare_at a b = do
    (offset_a, size_a) ← decode_at a
    (offset_b, size_b) ← decode_at b
    key_a ← bytes_of (record { start = shift a offset_a; bytes = size_a })
    key_b ← bytes_of (record { start = shift b offset_b; bytes = size_b })
    some (compare key_a key_b)

  -- `hash` of the key behind a pointer, by the hash function of strings
  pub hash_at : (List ℕ → ℕ) → Ptr → Option ℕ
  hash_at hash ptr = do
    (offset, size_key) ← decode_at ptr
    key ← bytes_of (record { start = shift ptr offset; bytes = size_key })
    some (hash key)

  pub used : ℕ
  used = kvs.arena.used

  pub size : ℕ
  size = kvs.arena.size
