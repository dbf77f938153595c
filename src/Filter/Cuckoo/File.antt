-- ===== src/Filter/Cuckoo/File.antt =====
-- `CuckooFilter::save`, and the constructor of `CuckooFilter` from a file. `none` is a null `FILE *`.
pub mod Compact
pub mod Image
pub mod Reloaded
pub mod RoundTrip
mod Examples
use cs.Base.{
  ℕ, zero, suc, ◌+◌, ◌*◌, ◌%◌, Option, none, some, List, [], ◌∷◌, length, take, drop, replicate,
  ltb, ◌==◌, if◌then◌else◌,
}
use cs.Base.Words.{u64_mod}
use cs.Filter.Run.{Run, ok, throws, fault, runtime_error, ◌>>=◌, write}
use cs.Filter.Stream.{to_bytes, read_size, read_byte, Output, write_items, Header, read_header}
use cs.Filter.Cuckoo.{CuckooFilter}

-- `values` after the loop over the slots of a bucket
pub gather : List ℕ → List ℕ
gather [] = []
gather (v ∷ slots) = let values = gather slots in if v == 0 then values else v ∷ values

abbrev pub bucket_slots : ℕ → List ℕ → ℕ → List ℕ
bucket_slots bucket_size buckets i = take bucket_size (drop (i * bucket_size) buckets)

-- The loop over the buckets with `k` rounds left, at bucket `i`. What it writes of a bucket without values
-- is nothing, as when it leaves the write out.
pub save_buckets {κ} : {G : Type κ} → CuckooFilter G → ℕ → ℕ → ℕ → Output → Run (ℕ × Output)
save_buckets f zero i total out = ok (total, out)
save_buckets f (suc k) i total out = do
  let slots = bucket_slots f.bucket_size f.buckets i
  if ltb (length slots) f.bucket_size then fault else do
    let values = gather slots
    let sz = length values
    out ← write_items 8 1 (to_bytes 8 sz) out
    out ← if ltb 0 sz then write_items 1 sz values out else ok out
    save_buckets f k (i + 1) ((total + (8 + sz)) % u64_mod) out

-- What `save` returns, and the file.
pub save {κ} : {G : Type κ} → CuckooFilter G → Option Output → Run (ℕ × Output)
save f none = throws runtime_error
save f (some out) = do
  out ← write_items 8 1 (to_bytes 8 f.bucket_count) out
  out ← write_items 8 1 (to_bytes 8 f.bucket_size) out
  out ← write_items 8 1 (to_bytes 8 f.fingerprint_size) out
  out ← write_items 8 1 (to_bytes 8 f.max_kicks) out
  save_buckets f f.bucket_count 0 32 out

-- The loop that stores the next `k` bytes of the file from position `pos` on. It does not compare their
-- number with the size of a bucket.
pub load_values : ℕ → ℕ → List ℕ → List ℕ → Run (List ℕ × List ℕ)
load_values zero pos buckets file = ok (buckets, file)
load_values (suc k) pos buckets file = do
  (fpv, file) ← read_byte file
  buckets ← write buckets (pos % u64_mod) fpv
  load_values k (pos + 1) buckets file

-- The loop over the buckets with `k` rounds left, at bucket `i`.
pub load_buckets : ℕ → ℕ → ℕ → List ℕ → List ℕ → Run (List ℕ × List ℕ)
load_buckets bucket_size zero i buckets file = ok (buckets, file)
load_buckets bucket_size (suc k) i buckets file = do
  (sz, file) ← read_size file
  (buckets, file) ← load_values sz (i * bucket_size) buckets file
  load_buckets bucket_size k (i + 1) buckets file

-- `g` is the state of the engine that the constructor seeds.
pub load_body {κ} : {G : Type κ} → G → Header → List ℕ → Run (CuckooFilter G × List ℕ)
load_body g h file = do
  (buckets, file) ←
      load_buckets h.bucket_size h.bucket_count 0
        (replicate (h.bucket_count * h.bucket_size % u64_mod) 0) file
  ok (
    record {
      bucket_count = h.bucket_count;
      bucket_size = h.bucket_size;
      fingerprint_size = h.fingerprint_size;
      max_kicks = h.max_kicks;
      buckets = buckets;
      rng = g;
    },
    file,
  )

pub load {κ} : {G : Type κ} → G → Option (List ℕ) → Run (CuckooFilter G × List ℕ)
load g none = throws runtime_error
load g (some file) = do (h, file) ← read_header file; load_body g h file
