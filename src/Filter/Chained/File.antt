-- ===== src/Filter/Chained/File.antt =====
-- `CuckooMap::save`, and the constructor of `CuckooMap` from a file. `none` is a null `FILE *`.
pub mod Image
pub mod RoundTrip
mod Examples
use cs.Base.{
  ℕ, zero, suc, ◌+◌, ◌*◌, ◌%◌, Option, none, some, List, [], ◌∷◌, ◌++◌, length, take, drop, ltb,
  leb, if◌then◌else◌,
}
use cs.Base.Words.{u64_mod}
use cs.Filter.Run.{Run, ok, throws, fault, runtime_error, ◌>>=◌}
use cs.Filter.Stream.{
  to_bytes, read_size, read_byte, read_bytes, Output, fwrite, Header, read_header,
}
use cs.Filter.Chained.{CuckooMap, is_aligned, read_chain}

-- The slots of bucket `i`.
abbrev pub bucket_slots : ℕ → List ℕ → ℕ → List ℕ
bucket_slots bucket_size slots i = take bucket_size (drop (i * bucket_size) slots)

-- The loop over the nodes of a chain; `n` items are written so far.
pub save_nodes : List ℕ → ℕ → Output → ℕ × Output
save_nodes [] n out = (n, out)
save_nodes (f ∷ chain) n out =
    let (k, out') = fwrite 1 (f ∷ []) out in save_nodes chain ((n + k) % u64_mod) out'

-- The loop over the buckets with `k` rounds left, at bucket `i`.
pub save_buckets {κ} : {G : Type κ} → CuckooMap G → ℕ → ℕ → ℕ → Output → Run (ℕ × Output)
unfolding read_chain
save_buckets m zero i n out = ok (n, out)
save_buckets m (suc k) i n out = do
  let slots = bucket_slots m.bucket_size m.slots i
  if ltb (length slots) m.bucket_size then fault else do
    let (a, out) = fwrite 1 slots out
    chain ← read_chain m.bucket_size m.chains i
    let (b, out) = fwrite 8 (to_bytes 8 (length chain)) out
    let (n, out) = save_nodes chain ((n + a + b) % u64_mod) out
    save_buckets m k (i + 1) n out

-- What `save` returns, and the file.
pub map_save {κ} : {G : Type κ} → CuckooMap G → Option Output → Run (ℕ × Output)
unfolding save_buckets
map_save m none = throws runtime_error
map_save m (some out) = do
  let (a, out) = fwrite 8 (to_bytes 8 m.bucket_count) out
  let (b, out) = fwrite 8 (to_bytes 8 m.bucket_size) out
  let (c, out) = fwrite 8 (to_bytes 8 m.fingerprint_size) out
  let (d, out) = fwrite 8 (to_bytes 8 m.max_kicks) out
  save_buckets m m.bucket_count 0 (a + b + c + d) out

-- The rounds of the loop that read a node and link it behind the one before it.
pub load_nodes : ℕ → List ℕ → Run (List ℕ × List ℕ)
load_nodes zero file = ok ([], file)
load_nodes (suc k) file = do
  (f, file) ← read_byte file
  (chain, file) ← load_nodes k file
  ok (f ∷ chain, file)

-- The whole loop for bucket `i`: the first node goes into the bucket's pointer.
pub load_chain : ℕ → ℕ → ℕ → List ℕ → Run (List ℕ × List ℕ)
unfolding is_aligned load_nodes
load_chain bucket_size i zero file = ok ([], file)
load_chain bucket_size i (suc k) file = do
  (f, file) ← read_byte file
  if is_aligned bucket_size i
      then (do (chain, file) ← load_nodes k file; ok (f ∷ chain, file))
      else fault

-- The loop over the buckets with `k` rounds left, at bucket `i`: their slots, and their chains.
pub load_buckets : ℕ → ℕ → ℕ → List ℕ → Run ((List ℕ × List (List ℕ)) × List ℕ)
unfolding load_chain
load_buckets bucket_size zero i file = ok (([], []), file)
load_buckets bucket_size (suc k) i file = do
  (slots, file) ← read_bytes bucket_size file
  (chain_len, file) ← read_size file
  (chain, file) ← load_chain bucket_size i chain_len file
  (rest, file) ← load_buckets bucket_size k (i + 1) file
  ok ((slots ++ rest.0, chain ∷ rest.1), file)

-- After the header. Where the number of bytes wraps around, the buckets do not fit into the array,
-- which is counted as undefined from the start.
pub load_body {κ} : {G : Type κ} → G → Header → List ℕ → Run (CuckooMap G × List ℕ)
unfolding load_buckets
load_body g h file =
    if ltb (h.bucket_count * (8 + h.bucket_size)) u64_mod
    then (do
      (buckets, file) ← load_buckets h.bucket_size h.bucket_count 0 file
      ok (
        record {
          bucket_count = h.bucket_count;
          bucket_size = h.bucket_size;
          fingerprint_size = h.fingerprint_size;
          max_kicks = h.max_kicks;
          slots = buckets.0;
          chains = buckets.1;
          rng = g;
        },
        file,
      ))
    else fault

-- `g` is the engine's state by default: this constructor does not seed it.
pub map_load {κ} : {G : Type κ} → G → Option (List ℕ) → Run (CuckooMap G × List ℕ)
unfolding read_header load_body
map_load g none = throws runtime_error
map_load g (some file) = do (h, file) ← read_header file; load_body g h file
