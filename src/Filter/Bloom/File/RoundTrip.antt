-- ===== src/Filter/Bloom/File/RoundTrip.antt =====
-- A Bloom filter that is saved and read back answers as before.
use cs.Base.{
  ℕ, ◌+◌, ◌*◌, ◌/◌, ◌%◌, ◌^◌, ◌≤◌, ◌<◌, ◌≡◌, refl, sym, ap, ◌∙◌, true, some, List, [], ◌∷◌, ◌++◌,
  length, length-append, take, All, All-imp, ◌==◌, eq→==, arith,
}
use cs.Base.Words.{IsU64}
use cs.Filter.Run.{ok, throws, runtime_error, ◌>>=◌, Returns}
use cs.Filter.Hasher.{Hasher}
use cs.Filter.Stream.{to_bytes, Output, write_items}
use cs.Filter.Stream.Parse.{
  Parses, return-Parses, bind-Parses, map-Parses, finish-Parses, length-to_bytes, read_size-Parses,
  write_size-all, extend, extend-append, room-extend, written-extend, fwrite-all,
}
use cs.Filter.Bitset.{Bitset}
use cs.Filter.Bloom.{BloomFilter, contains}
use cs.Filter.Bloom.Positions.{all_of, all_of-congr, positions, positions-lt}
use cs.Filter.Bloom.Contents.{IsValid, contains-all_of}
use cs.Filter.Bloom.File.{bytes_of_blocks, read_blocks, bloom_save, filter_of_blocks, bloom_load}
use cs.Filter.Bloom.File.Blocks.{load_blocks-to_blocks}

length-bytes_of_blocks : (blocks : List ℕ) → length (bytes_of_blocks blocks) ≡ length blocks * 8
unfolding bytes_of_blocks
length-bytes_of_blocks [] = refl
length-bytes_of_blocks (block ∷ blocks) = omega (
  arith,
  length-append (to_bytes 8 block) (bytes_of_blocks blocks),
  length-to_bytes 8 block,
  length-bytes_of_blocks blocks,
)

read_blocks-Parses :
    (blocks : List ℕ)
    → All IsU64 blocks
    → Parses (read_blocks (length blocks)) (bytes_of_blocks blocks) blocks
unfolding read_blocks bytes_of_blocks
read_blocks-Parses [] words = return-Parses []
read_blocks-Parses (block ∷ blocks) words =
    bind-Parses _ (read_size-Parses block words.0)
      (map-Parses _ (read_blocks-Parses blocks words.1))

write_blocks-all :
    (blocks : List ℕ) (out : Output)
    → length blocks * 8 ≤ out.room
    → write_items 8 (length blocks) (bytes_of_blocks blocks) out
      ≡ ok (extend out (bytes_of_blocks blocks))
unfolding write_items
write_blocks-all blocks out enough =
    let size = length-bytes_of_blocks blocks in
    let all : (length blocks * 8 / 8 == length blocks) ≡ true = eq→== _ _ (omega arith) in
    rw (fwrite-all 8 (bytes_of_blocks blocks) out (omega arith), size, all) refl

module _ {κ} {B : Type κ} ⦃s : Bitset B⦄ (f : BloomFilter B) where
  bloom_bytes : List ℕ
  bloom_bytes =
      to_bytes 8 f.size
      ++ (to_bytes 8 f.hash_count
          ++ (to_bytes 8 (length (s.to_blocks f.bits)) ++ bytes_of_blocks (s.to_blocks f.bits)))

  length-bloom_bytes : length bloom_bytes ≡ 24 + length (s.to_blocks f.bits) * 8
  unfolding bloom_bytes
  length-bloom_bytes =
      let blocks = s.to_blocks f.bits in
      let a = to_bytes 8 f.size in
      let b = to_bytes 8 f.hash_count in
      let c = to_bytes 8 (length blocks) in
      omega (
        arith,
        length-to_bytes 8 f.size,
        length-to_bytes 8 f.hash_count,
        length-to_bytes 8 (length blocks),
        length-bytes_of_blocks blocks,
        length-append a (b ++ (c ++ bytes_of_blocks blocks)),
        length-append b (c ++ bytes_of_blocks blocks),
        length-append c (bytes_of_blocks blocks),
      )

  bloom_save-bytes :
      (out : Output)
      → 24 + length (s.to_blocks f.bits) * 8 ≤ out.room
      → bloom_save f (some out)
        ≡ ok ((24 + length (s.to_blocks f.bits) * 8) % 2 ^ 64, extend out bloom_bytes)
  unfolding bloom_save bloom_bytes
  bloom_save-bytes out enough =
      let blocks = s.to_blocks f.bits in
      let a = to_bytes 8 f.size in
      let b = to_bytes 8 f.hash_count in
      let c = to_bytes 8 (length blocks) in
      let size_a = length-to_bytes 8 f.size in
      let size_b = length-to_bytes 8 f.hash_count in
      let size_c = length-to_bytes 8 (length blocks) in
      let out1 = extend out a in
      let out2 = extend out1 b in
      let out3 = extend out2 c in
      let room1 = room-extend out a in
      let room2 = room-extend out1 b in
      let room3 = room-extend out2 c in
      rw
        (
          write_size-all f.size out (omega arith),
          write_size-all f.hash_count out1 (omega arith),
          write_size-all (length blocks) out2 (omega arith),
          write_blocks-all blocks out3 (omega arith),
          extend-append out2 c (bytes_of_blocks blocks),
          extend-append out1 b (c ++ bytes_of_blocks blocks),
          extend-append out a (b ++ (c ++ bytes_of_blocks blocks)),
        )
        refl

  module _ (valid : IsValid f) (small : f.size + 63 < 2 ^ 64) (few : f.hash_count < 2 ^ 64) where
    -- What the constructor makes of the blocks.
    reloaded : Returns (filter_of_blocks {B = B} f.size f.hash_count (s.to_blocks f.bits)) (λ f'.
        (f'.size ≡ f.size)
        × (f'.hash_count ≡ f.hash_count)
        × IsValid f'
        × ((p : ℕ) → p < f.size → s.test f'.bits p ≡ s.test f.bits p))
    unfolding filter_of_blocks
    reloaded =
        let (b, run, (count, tests)) = load_blocks-to_blocks f.size f.bits valid.filled small in
        (
          record f { bits = b },
          rw (run, ◌>>=◌) refl,
          (refl, refl, record { sized = valid.sized; filled = count }, tests),
        )

    bloom_load-Parses :
        (f' : BloomFilter B)
        → filter_of_blocks {B = B} f.size f.hash_count (s.to_blocks f.bits) ≡ ok f'
        → Parses (λ file. bloom_load {B = B} (some file)) bloom_bytes f'
    unfolding bloom_load bloom_bytes
    bloom_load-Parses f' run =
        let blocks = s.to_blocks f.bits in
        let many = s.length-to_blocks f.bits in
        let count = valid.filled in
        bind-Parses _ (read_size-Parses f.size (omega arith)) (
          bind-Parses _ (read_size-Parses f.hash_count few) (
            bind-Parses _ (read_size-Parses (length blocks) (omega arith)) (
              finish-Parses (λ (bs : List ℕ). filter_of_blocks {B = B} f.size f.hash_count bs)
                (read_blocks-Parses blocks (s.to_blocks-IsU64 f.bits)) run)))

module _ {ℓ κ} {Item : Type ℓ} {B : Type κ} ⦃h : Hasher Item⦄ ⦃s : Bitset B⦄ where
  -- Filters with the same settings and the same bits answer alike.
  contains-same :
      (f f' : BloomFilter B) (item : Item)
      → IsValid f
      → IsValid f'
      → f'.size ≡ f.size
      → f'.hash_count ≡ f.hash_count
      → ((p : ℕ) → p < f.size → s.test f'.bits p ≡ s.test f.bits p)
      → contains f' item ≡ contains f item
  contains-same f f' item valid valid' size count tests =
      let ps = positions f.size item f.hash_count 0 in
      let same =
        all_of-congr (s.test f'.bits) (s.test f.bits) ps
          (All-imp ps tests (positions-lt f.size item f.hash_count 0 valid.sized)) in
      let moved : all_of (s.test f'.bits) (positions f'.size item f'.hash_count 0)
          ≡ all_of (s.test f'.bits) ps =
        rw (size, count) refl in
      contains-all_of f' item valid' ∙ (ap ok (moved ∙ same) ∙ sym (contains-all_of f item valid))

  -- A valid filter of less than 2 ^ 64 - 63 bits, with a `size_t` for the number of hashes, saved
  -- into an empty file with room for 24 bytes and 8 for each 64 bits: `save` returns the number of
  -- bytes it wrote, modulo 2 ^ 64. The constructor from a file reads back a valid filter with the same settings,
  -- whatever bytes follow, for which `contains` returns the same for every item; from a file that is
  -- cut short anywhere it throws.
  pub contains-bloom_load :
      (f : BloomFilter B) (room : ℕ)
      → IsValid f
      → f.size + 63 < 2 ^ 64
      → f.hash_count < 2 ^ 64
      → 24 + (f.size + 63) / 64 * 8 ≤ room
      → (out : Output) × (f' : BloomFilter B) × (bloom_save f
            (some (record { written = []; room = room }))
          ≡ ok (length out.written % 2 ^ 64, out))
        × ((rest : List ℕ) → bloom_load (some (out.written ++ rest)) ≡ ok (f', rest))
        × (f'.size ≡ f.size)
        × (f'.hash_count ≡ f.hash_count)
        × IsValid f'
        × ((item : Item) → contains f' item ≡ contains f item)
        × ((j : ℕ)
            → j < length out.written
            → bloom_load {B = B} (some (take j out.written)) ≡ throws runtime_error)
  contains-bloom_load f room valid small few enough =
      let out : Output = record { written = []; room = room } in
      let (f', run, (size, count, valid', tests)) = reloaded f valid small few in
      let parses = bloom_load-Parses f valid small few f' run in
      let bytes = written-extend out (bloom_bytes f) in
      let total = length-bloom_bytes f in
      let many = s.length-to_blocks f.bits in
      let filled = valid.filled in
      let counted : 24 + length (s.to_blocks f.bits) * 8
          ≡ length (extend out (bloom_bytes f)).written =
        rw (bytes, total) refl in
      (
        extend out (bloom_bytes f),
        f',
        bloom_save-bytes f out (omega arith)
            ∙ ap (λ (n : ℕ). ok (n % 2 ^ 64, extend out (bloom_bytes f))) counted,
        λ rest. rw bytes (parses.whole rest),
        size,
        count,
        valid',
        λ item. contains-same f f' item valid valid' size count tests,
        λ j lt. rw bytes (parses.cut j (rw bytes at lt)),
      )
