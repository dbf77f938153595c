-- ===== src/Filter/Bloom/File/Examples.antt =====
-- A Bloom filter of six bits that is saved and read back.
use cs.Base.{
  ℕ, ◌%◌, ◌^◌, ◌<◌, ◌≡◌, refl, Bool, true, false, some, List, [], ◌∷◌, ◌++◌, length, take, arith,
}
use cs.Filter.Run.{ok, throws, runtime_error}
use cs.Filter.Samples.{number_hasher, list_bits, words_of}
use cs.Filter.Stream.{Output, fwrite, write_items, to_bytes, read_size}
use cs.Filter.Bloom.{BloomFilter, contains, set_at}
use cs.Filter.Bloom.Contents.{IsValid}
use cs.Filter.Bloom.File.{
  bytes_of_blocks, read_blocks, bloom_save, load_bit, load_block, load_blocks, filter_of_blocks,
  bloom_load,
}
use cs.Filter.Bloom.File.RoundTrip.{contains-bloom_load}

abbrev six : BloomFilter (List Bool)
six = record { size = 6; hash_count = 2; bits = true ∷ false ∷ true ∷ true ∷ false ∷ false ∷ [] }

-- The bits 0, 2 and 3 make the word 13.
abbrev six_bytes : List ℕ
six_bytes =
    (6 ∷ 0 ∷ 0 ∷ 0 ∷ 0 ∷ 0 ∷ 0 ∷ 0 ∷ [])
    ++ ((2 ∷ 0 ∷ 0 ∷ 0 ∷ 0 ∷ 0 ∷ 0 ∷ 0 ∷ [])
        ++ ((1 ∷ 0 ∷ 0 ∷ 0 ∷ 0 ∷ 0 ∷ 0 ∷ 0 ∷ []) ++ (13 ∷ 0 ∷ 0 ∷ 0 ∷ 0 ∷ 0 ∷ 0 ∷ 0 ∷ [])))

saved :
    bloom_save six (some (record { written = []; room = 40 }))
    ≡ ok (32, record { written = six_bytes; room = 8 })
unfolding fwrite write_items to_bytes bytes_of_blocks bloom_save words_of
saved = refl

reloaded : bloom_load (some six_bytes) ≡ ok (six, [])
unfolding read_size read_blocks bloom_load load_bit load_block load_blocks filter_of_blocks set_at
reloaded = refl

six-IsValid : IsValid six
six-IsValid = record { sized = omega arith; filled = refl }

contains-bloom_load_example :
    (out : Output) × (f : BloomFilter (List Bool)) × (bloom_save six
        (some (record { written = []; room = 40 }))
      ≡ ok (length out.written % 2 ^ 64, out))
    × ((rest : List ℕ) → bloom_load (some (out.written ++ rest)) ≡ ok (f, rest))
    × (f.size ≡ 6)
    × (f.hash_count ≡ 2)
    × IsValid f
    × ((item : ℕ) → contains f item ≡ contains six item)
    × ((j : ℕ)
        → j < length out.written
        → bloom_load {B = List Bool} (some (take j out.written)) ≡ throws runtime_error)
contains-bloom_load_example =
    contains-bloom_load six 40 six-IsValid (omega arith) (omega arith) (omega arith)
