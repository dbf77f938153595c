-- ===== src/Filter/Cuckoo/File/RoundTrip.antt =====
-- A filter that is saved and read back answers as before.
use native.Mathlib.Nat.{zero-mul, mod-eq_of_lt}
use cs.Base.{
  ℕ, zero, suc, ◌+◌, ◌*◌, ◌%◌, ◌^◌, ◌≤◌, ◌<◌, ◌≡◌, refl, sym, ap, ◌∙◌, some, List, [], ◌++◌, length,
  length-append, take, arith,
}
use cs.Filter.Run.{ok, throws, runtime_error}
use cs.Filter.Hasher.{Hasher}
use cs.Filter.Stream.{to_bytes, Output, Header}
use cs.Filter.Stream.Parse.{
  Parses, bind-Parses, map-Parses, length-to_bytes, write_size-all, extend, extend-append,
  room-extend, written-extend, header_bytes, length-header_bytes, read_header-Parses,
}
use cs.Filter.Cuckoo.{CuckooFilter, contains}
use cs.Filter.Cuckoo.Valid.{IsValid}
use cs.Filter.Cuckoo.Place.{narrow}
use cs.Filter.Cuckoo.File.{gather, save, load_body, load}
use cs.Filter.Cuckoo.File.Compact.{length-gather}
use cs.Filter.Cuckoo.File.Reloaded.{reloaded, contains-reloaded}
use cs.Filter.Cuckoo.File.Image.{
  slots_at, buckets_bytes, length-slots_at, load_buckets-Parses, save_buckets-bytes,
}

module _ {κ} {G : Type κ} (f : CuckooFilter G) (valid : IsValid f) where
  header : Header
  header = record {
    bucket_count = f.bucket_count;
    bucket_size = f.bucket_size;
    fingerprint_size = f.fingerprint_size;
    max_kicks = f.max_kicks;
  }

  filter_bytes : List ℕ
  unfolding header
  filter_bytes = header_bytes header ++ buckets_bytes f 0 f.bucket_count

  load_body-Parses :
      (g : G) → Parses (load_body g header) (buckets_bytes f 0 f.bucket_count) (reloaded f valid g)
  unfolding load_body header reloaded
  load_body-Parses g =
      let fits : f.bucket_count * f.bucket_size % 2 ^ 64 ≡ f.bucket_count * f.bucket_size =
        mod-eq_of_lt valid.fits in
      let read =
        load_buckets-Parses f valid 0 f.bucket_count [] (omega arith)
          (sym (zero-mul f.bucket_size)) in
      map-Parses {B = CuckooFilter G}
        (λ buckets. record {
          bucket_count = f.bucket_count;
          bucket_size = f.bucket_size;
          fingerprint_size = f.fingerprint_size;
          max_kicks = f.max_kicks;
          buckets = buckets;
          rng = g;
        })
        (rw fits read)

  load-Parses :
      (g : G)
      → f.max_kicks < 2 ^ 64
      → Parses (λ file. load g (some file)) filter_bytes (reloaded f valid g)
  unfolding load filter_bytes header
  load-Parses g kicks =
      let many : f.bucket_count < 2 ^ 64 = grind (arith, valid.fits, valid.has_slots) in
      bind-Parses _
        (read_header-Parses header (many, narrow f valid, omega (arith, valid.few_bits), kicks))
        (load_body-Parses g)

  length-filter_bytes : length filter_bytes ≡ 32 + length (buckets_bytes f 0 f.bucket_count)
  unfolding filter_bytes
  length-filter_bytes = length-header_bytes header (buckets_bytes f 0 f.bucket_count)

  length-buckets_bytes :
      (i k : ℕ) → i + k ≡ f.bucket_count → length (buckets_bytes f i k) ≤ k * (8 + f.bucket_size)
  unfolding buckets_bytes
  length-buckets_bytes i zero e = omega arith
  length-buckets_bytes i (suc k) e =
      let values = gather (slots_at f i) in
      let prefix = to_bytes 8 (length values) in
      let rest = buckets_bytes f (i + 1) k in
      omega (
        arith,
        length-gather (slots_at f i),
        length-slots_at f valid i k e,
        length-to_bytes 8 (length values),
        length-append prefix (values ++ rest),
        length-append values rest,
        length-buckets_bytes (i + 1) k (omega arith),
      )

  save-bytes :
      (out : Output)
      → length filter_bytes ≤ out.room
      → save f (some out)
        ≡ ok ((32 + length (buckets_bytes f 0 f.bucket_count)) % 2 ^ 64, extend out filter_bytes)
  unfolding save filter_bytes header
  save-bytes out enough =
      let a = to_bytes 8 f.bucket_count in
      let b = to_bytes 8 f.bucket_size in
      let c = to_bytes 8 f.fingerprint_size in
      let d = to_bytes 8 f.max_kicks in
      let rest = buckets_bytes f 0 f.bucket_count in
      let size_a = length-to_bytes 8 f.bucket_count in
      let size_b = length-to_bytes 8 f.bucket_size in
      let size_c = length-to_bytes 8 f.fingerprint_size in
      let size_d = length-to_bytes 8 f.max_kicks in
      let total = length-header_bytes header rest in
      let out1 = extend out a in
      let out2 = extend out1 b in
      let out3 = extend out2 c in
      let out4 = extend out3 d in
      let room1 = room-extend out a in
      let room2 = room-extend out1 b in
      let room3 = room-extend out2 c in
      let room4 = room-extend out3 d in
      rw
        (
          write_size-all f.bucket_count out (omega arith),
          write_size-all f.bucket_size out1 (omega arith),
          write_size-all f.fingerprint_size out2 (omega arith),
          write_size-all f.max_kicks out3 (omega arith),
          save_buckets-bytes f valid 0 f.bucket_count 32 out4 (omega arith) (omega arith)
              (omega arith),
          extend-append out2 c d,
          extend-append out1 b (c ++ d),
          extend-append out a (b ++ (c ++ d)),
          extend-append out (a ++ (b ++ (c ++ d))) rest,
        )
        refl

-- A valid filter with a `size_t` for the most evictions, saved into an empty file with room for 32 bytes,
-- 8 for each bucket and 1 for each slot: `save` returns the number of bytes it wrote, modulo 2 ^ 64. The
-- constructor from a file reads back a filter with the same settings, whatever bytes follow, for
-- which `contains` returns the same for every item; from a file that is cut short anywhere it throws.
pub contains-load {ℓ κ} :
    {Item : Type ℓ} {G : Type κ} ⦃h : Hasher Item⦄ (f : CuckooFilter G) (g : G) (room : ℕ)
    → IsValid f
    → f.max_kicks < 2 ^ 64
    → 32 + f.bucket_count * (8 + f.bucket_size) ≤ room
    → (out : Output) × (f' : CuckooFilter G) × (save f (some (record { written = []; room = room }))
        ≡ ok (length out.written % 2 ^ 64, out))
      × ((rest : List ℕ) → load g (some (out.written ++ rest)) ≡ ok (f', rest))
      × (f'.bucket_count ≡ f.bucket_count)
      × (f'.bucket_size ≡ f.bucket_size)
      × (f'.fingerprint_size ≡ f.fingerprint_size)
      × (f'.max_kicks ≡ f.max_kicks)
      × ((item : Item) → contains f' item ≡ contains f item)
      × ((j : ℕ)
          → j < length out.written
          → load g (some (take j out.written)) ≡ throws runtime_error)
unfolding reloaded
contains-load f g room valid kicks enough =
    let out : Output = record { written = []; room = room } in
    let body = length-buckets_bytes f valid 0 f.bucket_count (omega arith) in
    let size = length-filter_bytes f valid in
    let parses = load-Parses f valid g kicks in
    let bytes = written-extend out (filter_bytes f valid) in
    let counted : 32 + length (buckets_bytes f 0 f.bucket_count)
        ≡ length (extend out (filter_bytes f valid)).written =
      rw (bytes, size) refl in
    (
      extend out (filter_bytes f valid),
      reloaded f valid g,
      save-bytes f valid out (omega arith)
          ∙ ap (λ (n : ℕ). ok (n % 2 ^ 64, extend out (filter_bytes f valid))) counted,
      λ rest. rw bytes (parses.whole rest),
      refl,
      refl,
      refl,
      refl,
      contains-reloaded f valid g,
      λ j lt. rw bytes (parses.cut j (rw bytes at lt)),
    )
