-- ===== src/Filter/Chained/File/Examples.antt =====
-- A map of two buckets, with one node, that is saved and read back.
use cs.Base.{
  ℕ, ◌+◌, ◌*◌, ◌%◌, ◌^◌, ◌<◌, ◌≡◌, refl, none, some, List, [], ◌∷◌, ◌++◌, length, take, replicate,
  arith,
}
use cs.Filter.Run.{ok, throws, runtime_error}
use cs.Filter.Stream.{Output, fwrite, to_bytes}
use cs.Filter.Chained.{CuckooMap, node_count}
use cs.Filter.Chained.File.{map_save, save_nodes, map_load}
use cs.Filter.Chained.File.Image.{IsStorable}
use cs.Filter.Chained.File.RoundTrip.{map_load-map_save}

abbrev stored_map : CuckooMap ℕ
stored_map = record {
  bucket_count = 2;
  bucket_size = 8;
  fingerprint_size = 8;
  max_kicks = 50;
  slots = 7 ∷ 9 ∷ 0 ∷ 4 ∷ replicate 12 0;
  chains = (5 ∷ []) ∷ [] ∷ [];
  rng = 3;
}

no_file : map_load {G = ℕ} 0 none ≡ throws runtime_error
unfolding map_load
no_file = refl

-- A `save` for which there is no room writes nothing, returns 0 and does not throw.
no_room :
    map_save stored_map (some (record { written = []; room = 0 }))
    ≡ ok (0, record { written = []; room = 0 })
unfolding map_save save_nodes fwrite to_bytes
no_room = refl

stored_map-IsStorable : IsStorable stored_map
unfolding node_count
stored_map-IsStorable = record {
  fits = omega arith;
  sizes = (omega arith, omega arith);
  settings = (omega arith, omega arith);
  filled = refl;
  linked = refl;
  aligned = λ i lt. omega arith;
  few_nodes = omega arith;
}

map_load-map_save_example :
    (n : ℕ) × (out : Output) × (map_save stored_map (some (record { written = []; room = 100 }))
      ≡ ok (n, out))
    × (n ≡ (4 + 2 * (8 + 1) + node_count stored_map.chains) % 2 ^ 64)
    × (length out.written ≡ 32 + 2 * (8 + 8) + node_count stored_map.chains)
    × ((rest : List ℕ)
        → map_load 0 (some (out.written ++ rest)) ≡ ok (record stored_map { rng = 0 }, rest))
    × ((j : ℕ)
        → j < length out.written
        → map_load {G = ℕ} 0 (some (take j out.written)) ≡ throws runtime_error)
map_load-map_save_example =
    map_load-map_save stored_map 0 100 stored_map-IsStorable (unfold node_count in omega arith)
