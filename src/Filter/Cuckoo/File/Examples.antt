-- ===== src/Filter/Cuckoo/File/Examples.antt =====
-- A filter of two buckets that is saved and read back, and a file with a wrong count.
use cs.Base.{ℕ, ◌%◌, ◌^◌, ◌<◌, ◌≡◌, refl, some, List, [], ◌∷◌, ◌++◌, length, take, arith}
use cs.Filter.Run.{ok, throws, fault, runtime_error, write}
use cs.Filter.Samples.{number_hasher}
use cs.Filter.Stream.{Output, fwrite, write_items, to_bytes, read_size, read_byte, read_header}
use cs.Filter.Cuckoo.{CuckooFilter, contains}
use cs.Filter.Cuckoo.Valid.{IsValid}
use cs.Filter.Cuckoo.File.{gather, save_buckets, save, load_values, load_buckets, load_body, load}
use cs.Filter.Cuckoo.File.RoundTrip.{contains-load}

program : Unit {0}
unfolding fwrite to_bytes read_size read_byte read_header write write_items gather save_buckets save
    load_values load_buckets load_body load
program = tt

-- The second slot of the first bucket and the first slot of the second one are filled.
abbrev stored_filter : CuckooFilter ℕ
stored_filter = record {
  bucket_count = 2;
  bucket_size = 2;
  fingerprint_size = 8;
  max_kicks = 50;
  buckets = 0 ∷ 9 ∷ 4 ∷ 0 ∷ [];
  rng = 3;
}

abbrev header : List ℕ
header =
    (2 ∷ 0 ∷ 0 ∷ 0 ∷ 0 ∷ 0 ∷ 0 ∷ 0 ∷ [])
    ++ ((2 ∷ 0 ∷ 0 ∷ 0 ∷ 0 ∷ 0 ∷ 0 ∷ 0 ∷ [])
        ++ ((8 ∷ 0 ∷ 0 ∷ 0 ∷ 0 ∷ 0 ∷ 0 ∷ 0 ∷ []) ++ (50 ∷ 0 ∷ 0 ∷ 0 ∷ 0 ∷ 0 ∷ 0 ∷ 0 ∷ [])))

abbrev stored_bytes : List ℕ
stored_bytes =
    header ++ ((1 ∷ 0 ∷ 0 ∷ 0 ∷ 0 ∷ 0 ∷ 0 ∷ 0 ∷ 9 ∷ []) ++ (1 ∷ 0 ∷ 0 ∷ 0 ∷ 0 ∷ 0 ∷ 0 ∷ 0 ∷ 4 ∷ []))

saved :
    save stored_filter (some (record { written = []; room = 60 }))
    ≡ ok (50, record { written = stored_bytes; room = 10 })
unfolding program
saved = refl

-- The value of the first bucket has moved to its front.
reloaded :
    load 0 (some stored_bytes)
    ≡ ok (record stored_filter { buckets = 9 ∷ 0 ∷ 4 ∷ 0 ∷ []; rng = 0 }, [])
unfolding program
reloaded = refl

no_room : save stored_filter (some (record { written = []; room = 40 })) ≡ throws runtime_error
unfolding program
no_room = refl

-- A count of five in the first bucket: the fifth value goes outside the array of four slots.
outside :
    load {G = ℕ} 0 (some (header ++ (5 ∷ 0 ∷ 0 ∷ 0 ∷ 0 ∷ 0 ∷ 0 ∷ 0 ∷ 1 ∷ 2 ∷ 3 ∷ 4 ∷ 5 ∷ [])))
    ≡ fault
unfolding program
outside = refl

stored_filter-IsValid : IsValid stored_filter
stored_filter-IsValid = omega arith

contains-load_example :
    (out : Output) × (f : CuckooFilter ℕ) × (save stored_filter
        (some (record { written = []; room = 60 }))
      ≡ ok (length out.written % 2 ^ 64, out))
    × ((rest : List ℕ) → load 0 (some (out.written ++ rest)) ≡ ok (f, rest))
    × (f.bucket_count ≡ 2)
    × (f.bucket_size ≡ 2)
    × (f.fingerprint_size ≡ 8)
    × (f.max_kicks ≡ 50)
    × ((item : ℕ) → contains f item ≡ contains stored_filter item)
    × ((j : ℕ)
        → j < length out.written
        → load {G = ℕ} 0 (some (take j out.written)) ≡ throws runtime_error)
contains-load_example =
    contains-load stored_filter 0 60 stored_filter-IsValid (omega arith) (omega arith)
