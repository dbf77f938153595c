-- ===== src/Memtable/KvStore/Entries.antt =====
-- What a store has to keep: each pair as one string of bytes in a block of its own.
use cs.Base.{ℕ, ◌+◌, ◌^◌, ◌<◌, ◌≡◌, List, [], ◌∷◌, ◌++◌, length, length-append, All, arith}
use cs.Arena.{Ptr}
use cs.Arena.Blocks.{Block, block_at}
use cs.Arena.Concurrent.Regions.{IsServing}
use cs.Varint.{get_varint_size}
use cs.Varint.Groups.{groups}
use cs.Varint.Width.{get_varint_size-groups}
use cs.Memtable.Memory.{Memory, bytes_at}
use cs.Memtable.KvStore.{KvStore}

pub record Entry : Type 0 where
  pub ptr : Ptr
  pub key : List ℕ
  pub value : List ℕ

abbrev pub entry_bytes : List ℕ → List ℕ → List ℕ
entry_bytes key value = groups 9 (length key) ++ (key ++ (groups 9 (length value) ++ value))

abbrev pub entry_block : Entry → Block
entry_block e = block_at e.ptr (length (entry_bytes e.key e.value))

abbrev pub entry_blocks : List Entry → List Block
entry_blocks [] = []
entry_blocks (e ∷ es) = entry_block e ∷ entry_blocks es

abbrev pub IsStored : Memory → Entry → Type 0
IsStored m e =
    bytes_at m e.ptr.slab e.ptr.offset (length (entry_bytes e.key e.value))
    ≡ entry_bytes e.key e.value

-- Below 2 ^ 56 bytes: the readers give the decoder 8 bytes.
abbrev pub IsShort : List ℕ → Type 0
IsShort bytes = length bytes < 2 ^ 56

pub record Holds (kvs : KvStore) (es : List Entry) : Type 0 where
  pub serving : IsServing kvs.arena (entry_blocks es)
  pub stored : All (IsStored kvs.memory) es
  pub short : All (λ e. IsShort e.key × IsShort e.value) es

pub length_four :
    (a b c d : List ℕ) → length (a ++ (b ++ (c ++ d))) ≡ length a + length b + length c + length d
length_four a b c d =
    ground (arith, length-append a (b ++ (c ++ d)), length-append b (c ++ d), length-append c d)

-- The sum that `insert` computes.
pub length-entry_bytes :
    (key value : List ℕ)
    → IsShort key
    → IsShort value
    → length (entry_bytes key value)
      ≡ get_varint_size (length key) + get_varint_size (length value) + length key + length value
length-entry_bytes key value k v =
    rw
      (
        get_varint_size-groups (length key) (omega arith),
        get_varint_size-groups (length value) (omega arith),
      )
      (omega (arith, length_four (groups 9 (length key)) key (groups 9 (length value)) value))
