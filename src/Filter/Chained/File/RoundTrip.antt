-- ===== src/Filter/Chained/File/RoundTrip.antt =====
-- A map that is saved and read back.
use native.Mathlib.Nat.{zero-mul}
use cs.Base.{
  ℕ, zero, suc, ◌+◌, ◌*◌, ◌%◌, ◌^◌, ◌≤◌, ◌<◌, ◌≡◌, refl, sym, ap, ◌∙◌, some, List, [], ◌∷◌, ◌++◌,
  length, length-append, take, drop, take-append-drop, drop-drop, drop-length, drop-get_or, lt→ltb,
  arith,
}
use cs.Filter.Run.{ok, throws, runtime_error}
use cs.Filter.Stream.{to_bytes, Output, Header}
use cs.Filter.Stream.Parse.{
  Parses, bind-Parses, guard-Parses, map-Parses, length-to_bytes, extend, extend-append,
  room-extend, written-extend, fwrite-all, header_bytes, length-header_bytes, read_header-Parses,
}
use cs.Filter.Chained.{CuckooMap, node_count}
use cs.Filter.Chained.File.{bucket_slots, map_save, load_body, map_load}
use cs.Filter.Chained.File.Image.{
  IsStorable, chain_at, buckets_bytes, slots_from, chains_from, items_from, length-bucket_slots,
  load_buckets-Parses, save_buckets-bytes,
}

module _ {κ} {G : Type κ} (m : CuckooMap G) (storable : IsStorable m) where
  slots_from-drop :
      (i k : ℕ) → i + k ≡ m.bucket_count → slots_from m i k ≡ drop (i * m.bucket_size) m.slots
  unfolding slots_from
  slots_from-drop i zero e =
      let all : i * m.bucket_size ≡ length m.slots =
        let last : i ≡ m.bucket_count = omega arith in rw (last, storable.filled) refl in
      rw all (sym (drop-length m.slots))
  slots_from-drop i (suc k) e =
      let next : (i + 1) * m.bucket_size ≡ i * m.bucket_size + m.bucket_size = omega arith in
      let rest = slots_from-drop (i + 1) k (omega arith) in
      rw (rest, next, ← drop-drop (i * m.bucket_size) m.bucket_size m.slots)
        (take-append-drop m.bucket_size (drop (i * m.bucket_size) m.slots))

  chains_from-drop : (i k : ℕ) → i + k ≡ m.bucket_count → chains_from m i k ≡ drop i m.chains
  unfolding chains_from
  chains_from-drop i zero e =
      let all : i ≡ length m.chains = omega (arith, storable.linked) in
      rw all (sym (drop-length m.chains))
  chains_from-drop i (suc k) e =
      ap (λ t. chain_at m i ∷ t) (chains_from-drop (i + 1) k (omega arith))
      ∙ drop-get_or i m.chains [] (omega (arith, storable.linked))

  length-buckets_bytes :
      (i k : ℕ)
      → i + k ≡ m.bucket_count
      → length (buckets_bytes m i k) ≡ k * (8 + m.bucket_size) + node_count (chains_from m i k)
  unfolding buckets_bytes chains_from node_count
  length-buckets_bytes i zero e = omega arith
  length-buckets_bytes i (suc k) e =
      let slots = bucket_slots m.bucket_size m.slots i in
      let chain = chain_at m i in
      let prefix = to_bytes 8 (length chain) in
      let rest = buckets_bytes m (i + 1) k in
      omega (
        arith,
        length-bucket_slots m storable i k e,
        length-to_bytes 8 (length chain),
        length-append slots (prefix ++ (chain ++ rest)),
        length-append prefix (chain ++ rest),
        length-append chain rest,
        length-buckets_bytes (i + 1) k (omega arith),
      )

  items_from-node_count :
      (i k : ℕ) → items_from m i k ≡ k * (m.bucket_size + 1) + node_count (chains_from m i k)
  unfolding items_from chains_from node_count
  items_from-node_count i zero = omega arith
  items_from-node_count i (suc k) = omega (arith, items_from-node_count (i + 1) k)

  header : Header
  header = record {
    bucket_count = m.bucket_count;
    bucket_size = m.bucket_size;
    fingerprint_size = m.fingerprint_size;
    max_kicks = m.max_kicks;
  }

  map_bytes : List ℕ
  unfolding header
  map_bytes = header_bytes header ++ buckets_bytes m 0 m.bucket_count

  load_body-Parses :
      (g : G)
      → Parses (load_body g header) (buckets_bytes m 0 m.bucket_count) (record m { rng = g })
  unfolding load_body header
  load_body-Parses g =
      let slots : slots_from m 0 m.bucket_count ≡ m.slots =
        rw zero-mul at (slots_from-drop 0 m.bucket_count (omega arith)) in
      let chains = chains_from-drop 0 m.bucket_count (omega arith) in
      let fits = lt→ltb (m.bucket_count * (8 + m.bucket_size)) (2 ^ 64) storable.fits in
      let parsed = load_buckets-Parses m storable 0 m.bucket_count (omega arith) in
      let made =
        map-Parses {B = CuckooMap G}
          (λ buckets. record {
            bucket_count = m.bucket_count;
            bucket_size = m.bucket_size;
            fingerprint_size = m.fingerprint_size;
            max_kicks = m.max_kicks;
            slots = buckets.0;
            chains = buckets.1;
            rng = g;
          })
          parsed in
      guard-Parses _ _ fits (rw (slots, chains) at made)

  map_load-Parses :
      (g : G) → Parses (λ file. map_load g (some file)) map_bytes (record m { rng = g })
  unfolding map_load map_bytes header
  map_load-Parses g =
      bind-Parses _
        (read_header-Parses header
          (storable.sizes.0, storable.sizes.1, storable.settings.0, storable.settings.1))
        (load_body-Parses g)

  map_save-bytes :
      (out : Output)
      → length map_bytes ≤ out.room
      → map_save m (some out)
        ≡ ok ((4 + items_from m 0 m.bucket_count) % 2 ^ 64, extend out map_bytes)
  unfolding map_save map_bytes header
  map_save-bytes out enough =
      let a = to_bytes 8 m.bucket_count in
      let b = to_bytes 8 m.bucket_size in
      let c = to_bytes 8 m.fingerprint_size in
      let d = to_bytes 8 m.max_kicks in
      let rest = buckets_bytes m 0 m.bucket_count in
      let size_a = length-to_bytes 8 m.bucket_count in
      let size_b = length-to_bytes 8 m.bucket_size in
      let size_c = length-to_bytes 8 m.fingerprint_size in
      let size_d = length-to_bytes 8 m.max_kicks in
      let total = length-header_bytes header rest in
      let out1 = extend out a in
      let out2 = extend out1 b in
      let out3 = extend out2 c in
      let out4 = extend out3 d in
      let room1 = room-extend out a in
      let room2 = room-extend out1 b in
      let room3 = room-extend out2 c in
      let room4 = room-extend out3 d in
      rw
        (
          fwrite-all 8 a out (omega arith),
          fwrite-all 8 b out1 (omega arith),
          fwrite-all 8 c out2 (omega arith),
          fwrite-all 8 d out3 (omega arith),
          size_a,
          size_b,
          size_c,
          size_d,
          save_buckets-bytes m storable 0 m.bucket_count 4 out4 (omega arith) (omega arith)
              (omega arith),
          extend-append out2 c d,
          extend-append out1 b (c ++ d),
          extend-append out a (b ++ (c ++ d)),
          extend-append out (a ++ (b ++ (c ++ d))) rest,
        )
        refl

  length-map_bytes :
      length map_bytes ≡ 32 + m.bucket_count * (8 + m.bucket_size) + node_count m.chains
  unfolding map_bytes header
  length-map_bytes = omega (
    arith,
    length-header_bytes header (buckets_bytes m 0 m.bucket_count),
    length-buckets_bytes 0 m.bucket_count (omega arith),
    ap node_count (chains_from-drop 0 m.bucket_count (omega arith)),
  )

-- A map with `size_t`s for sizes, the buckets in memory and their pointers aligned, saved into an empty file that takes 32 bytes, 8 and
-- the slots for each bucket, and 1 for each node: `save` writes just those bytes and returns the
-- number of items in them, modulo 2 ^ 64. The constructor from a file reads the same map back, but for
-- the state of the engine, whatever bytes follow; from a file that is cut short anywhere it throws.
pub map_load-map_save {κ} :
    {G : Type κ} (m : CuckooMap G) (g : G) (room : ℕ)
    → IsStorable m
    → 32 + m.bucket_count * (8 + m.bucket_size) + node_count m.chains ≤ room
    → (n : ℕ) × (out : Output) × (map_save m (some (record { written = []; room = room }))
        ≡ ok (n, out))
      × (n ≡ (4 + m.bucket_count * (m.bucket_size + 1) + node_count m.chains) % 2 ^ 64)
      × (length out.written ≡ 32 + m.bucket_count * (8 + m.bucket_size) + node_count m.chains)
      × ((rest : List ℕ)
          → map_load g (some (out.written ++ rest)) ≡ ok (record m { rng = g }, rest))
      × ((j : ℕ)
          → j < length out.written
          → map_load g (some (take j out.written)) ≡ throws runtime_error)
map_load-map_save m g room storable enough =
    let size = length-map_bytes m storable in
    let parses = map_load-Parses m storable g in
    let out : Output = record { written = []; room = room } in
    let items = items_from-node_count m storable 0 m.bucket_count in
    let chains = ap node_count (chains_from-drop m storable 0 m.bucket_count (omega arith)) in
    let bytes = written-extend out (map_bytes m storable) in
    (
      (4 + items_from m 0 m.bucket_count) % 2 ^ 64,
      extend out (map_bytes m storable),
      map_save-bytes m storable out (omega arith),
      omega arith,
      rw bytes size,
      λ rest. rw bytes (parses.whole rest),
      λ j lt. rw bytes (parses.cut j (rw bytes at lt)),
    )
