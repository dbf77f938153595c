-- ===== src/Filter/Stream.antt =====
-- `FILE`, as far as filter.cpp uses it. A file that is read is the list of the bytes that are left; one
-- that is written has the bytes so far and how many more it takes. A `size_t` is stored as 8 bytes,
-- the lowest first.
pub mod Parse
use cs.Base.{
  ℕ, zero, suc, ◌+◌, ◌-◌, ◌*◌, ◌/◌, ◌%◌, min, List, [], ◌∷◌, ◌++◌, length, take, drop, ltb,
  if◌then◌else◌, ◌==◌,
}
use cs.Filter.Run.{Run, ok, throws, runtime_error, ◌>>=◌}

-- The object representation of a number in `n` bytes, and the number of one.
unfoldable pub to_bytes : ℕ → ℕ → List ℕ
to_bytes zero v = []
to_bytes (suc n) v = v % 256 ∷ to_bytes n (v / 256)

pub from_bytes : List ℕ → ℕ
from_bytes [] = 0
from_bytes (b ∷ bs) = b + 256 * from_bytes bs

-- `if (fread(&x, sizeof(x), 1, fp) != 1) throw std::runtime_error(...)`, for a `size_t` and a `uint8_t`
unfoldable pub read_size : List ℕ → Run (ℕ × List ℕ)
unfolding from_bytes
read_size file =
    if ltb (length file) 8 then throws runtime_error else ok (from_bytes (take 8 file), drop 8 file)

unfoldable pub read_byte : List ℕ → Run (ℕ × List ℕ)
read_byte [] = throws runtime_error
read_byte (b ∷ file) = ok (b, file)

-- `if (fread(p, sizeof(uint8_t), n, fp) != n) throw std::runtime_error(...)`
unfoldable pub read_bytes : ℕ → List ℕ → Run (List ℕ × List ℕ)
read_bytes n file =
    if ltb (length file) n then throws runtime_error else ok (take n file, drop n file)

pub record Output : Type 0 where
  pub written : List ℕ
  pub room : ℕ

-- `fwrite` of items of `size` bytes: the number of items written, and the file.
unfoldable pub fwrite : ℕ → List ℕ → Output → ℕ × Output
fwrite size bytes out =
    let n = min (length bytes) out.room in
    (n / size, record { written = out.written ++ take n bytes; room = out.room - n })

-- `if (fwrite(p, size, n, fp) != n) throw std::runtime_error(...)`
unfoldable pub write_items : ℕ → ℕ → List ℕ → Output → Run Output
write_items size n bytes out =
    let (k, out') = fwrite size bytes out in if k == n then ok out' else throws runtime_error

-- The four sizes that both cuckoo filters begin with.
pub record Header : Type 0 where
  pub bucket_count : ℕ
  pub bucket_size : ℕ
  pub fingerprint_size : ℕ
  pub max_kicks : ℕ

unfoldable pub read_header : List ℕ → Run (Header × List ℕ)
read_header file = do
  (bucket_count, file) ← read_size file
  (bucket_size, file) ← read_size file
  (fingerprint_size, file) ← read_size file
  (max_kicks, file) ← read_size file
  ok (
    record {
      bucket_count = bucket_count;
      bucket_size = bucket_size;
      fingerprint_size = fingerprint_size;
      max_kicks = max_kicks;
    },
    file,
  )
