-- ===== src/Filter/Bloom/File.antt =====
-- `BloomFilter::save`, and the constructor of `BloomFilter` from a file. `none` is a null `FILE *`.
pub mod Blocks
pub mod RoundTrip
mod Examples
use cs.Base.{
  ℕ, zero, suc, ◌+◌, ◌*◌, ◌%◌, ◌^◌, bit_and, Option, none, some, List, [], ◌∷◌, ◌++◌, length, ltb,
  ◌==◌, if◌then◌else◌,
}
use cs.Base.Words.{u64_mod}
use cs.Filter.Run.{Run, ok, throws, runtime_error, ◌>>=◌}
use cs.Filter.Stream.{to_bytes, read_size, Output, write_items}
use cs.Filter.Bitset.{Bitset}
use cs.Filter.Bloom.{BloomFilter, set_at}

-- The object representation of the blocks.
pub bytes_of_blocks : List ℕ → List ℕ
bytes_of_blocks [] = []
bytes_of_blocks (block ∷ blocks) = to_bytes 8 block ++ bytes_of_blocks blocks

-- `if (fread(blocks.data(), sizeof(block_type), n, fp) != n) throw std::runtime_error(...)`
pub read_blocks : ℕ → List ℕ → Run (List ℕ × List ℕ)
read_blocks zero file = ok ([], file)
read_blocks (suc n) file = do
  (block, file) ← read_size file
  (blocks, file) ← read_blocks n file
  ok (block ∷ blocks, file)

module _ {κ} {B : Type κ} ⦃s : Bitset B⦄ where
  -- What `save` returns, and the file.
  pub bloom_save : BloomFilter B → Option Output → Run (ℕ × Output)
  bloom_save f none = throws runtime_error
  bloom_save f (some out) = do
    out ← write_items 8 1 (to_bytes 8 f.size) out
    out ← write_items 8 1 (to_bytes 8 f.hash_count) out
    let blocks = s.to_blocks f.bits
    let nblocks = length blocks
    out ← write_items 8 1 (to_bytes 8 nblocks) out
    out ← write_items 8 nblocks (bytes_of_blocks blocks) out
    ok ((8 + 8 + 8 + nblocks * 8) % u64_mod, out)

  -- One round for bit `b` of block `i`.
  pub load_bit : ℕ → ℕ → ℕ → ℕ → B → Run B
  load_bit bit_count i b blk bits =
      if bit_and blk (2 ^ b) == 0
      then ok bits
      else let pos = (i * 64 + b) % u64_mod in
        if ltb pos bit_count then set_at bits pos else ok bits

  -- The loop over the bits of a block with `k` rounds left, at bit `b`.
  pub load_block : ℕ → ℕ → ℕ → ℕ → ℕ → B → Run B
  load_block bit_count i blk zero b bits = ok bits
  load_block bit_count i blk (suc k) b bits = do
    bits ← load_bit bit_count i b blk bits
    load_block bit_count i blk k (b + 1) bits

  -- The loop over the blocks, at block `i`.
  pub load_blocks : ℕ → ℕ → List ℕ → B → Run B
  load_blocks bit_count i [] bits = ok bits
  load_blocks bit_count i (blk ∷ blocks) bits = do
    bits ← load_block bit_count i blk 64 0 bits
    load_blocks bit_count (i + 1) blocks bits

  -- The object after the file was read.
  pub filter_of_blocks : ℕ → ℕ → List ℕ → Run (BloomFilter B)
  filter_of_blocks bit_count hash_count blocks = do
    bits ← load_blocks bit_count 0 blocks (s.new_bits bit_count)
    ok (record { size = bit_count; hash_count = hash_count; bits = bits })

  pub bloom_load : Option (List ℕ) → Run (BloomFilter B × List ℕ)
  bloom_load none = throws runtime_error
  bloom_load (some file) = do
    (bit_count, file) ← read_size file
    (hash_count, file) ← read_size file
    (nblocks, file) ← read_size file
    (blocks, file) ← read_blocks nblocks file
    f ← filter_of_blocks bit_count hash_count blocks
    ok (f, file)
