-- ===== src/Filter/Chained/Fresh.antt =====
-- A `CuckooMap` from the constructor.
use cs.Base.{ℕ, ◌+◌, ◌*◌, ◌^◌, ◌≤◌, ◌<◌, ◌≡◌, refl, [], replicate, length-replicate, lt→ltb, arith}
use cs.Filter.Run.{ok}
use cs.Filter.Chained.{CuckooMap, new_map}
use cs.Filter.Chained.Contents.{IsAligned, IsValid}

abbrev pub fresh_map {κ} : {G : Type κ} → ℕ → ℕ → ℕ → ℕ → G → CuckooMap G
fresh_map n s bits kicks g = record {
  bucket_count = n;
  bucket_size = s;
  fingerprint_size = bits;
  max_kicks = kicks;
  slots = replicate (n * s) 0;
  chains = replicate n [];
  rng = g;
}

pub new_map-starts {κ} :
    {G : Type κ} (n s bits kicks : ℕ) (g : G)
    → 0 < n
    → (0 < s) × (0 < bits) × (bits ≤ 8)
    → n * (8 + s) < 2 ^ 64
    → IsAligned n s
    → (new_map n s bits kicks g ≡ ok (fresh_map n s bits kicks g))
      × IsValid (fresh_map n s bits kicks g)
unfolding new_map
new_map-starts n s bits kicks g some_buckets (some_slots, some_bits, few_bits) fits aligned = (
  rw (lt→ltb _ _ fits) refl,
  record {
    slots_valid = record {
      has_buckets = some_buckets;
      has_slots = some_slots;
      has_bits = some_bits;
      few_bits = few_bits;
      fits = grind arith;
      filled = length-replicate (n * s) 0;
    };
    linked = length-replicate n [];
    aligned = aligned;
  },
)
