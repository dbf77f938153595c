-- ===== src/Filter/Chained/Examples.antt =====
-- Runs of the map over items that are their own hashes, in four buckets of eight slots.
use cs.Base.{
  ℕ, ◌+◌, ◌≡◌, ◌≢◌, ◌⊎◌, ◌↔◌, refl, Bool, true, false, List, [], ◌∷◌, ◌++◌, replicate, ltb,
  if◌then◌else◌, arith,
}
use cs.Filter.Run.{Run, ok, fault, ◌>>=◌, read, write, modulo, Returns}
use cs.Filter.Samples.{number_hasher, counter}
use cs.Filter.Hasher.{fingerprint_of, index1_of, index2_of}
use cs.Filter.Slots.{find_slot}
use cs.Filter.Cuckoo.{try_bucket, in_bucket}
use cs.Filter.Cuckoo.Place.{tag, first_bucket, second_bucket}
use cs.Filter.Chained.{
  CuckooMap, map_insert, map_contains, map_erase, map_locate, map_start_evict, map_finish,
  map_evict, push_node, add_node, is_aligned, read_chain, write_chain, runs_out_first, chain_has,
  unlink, found_in, erase_in,
}
use cs.Filter.Chained.Contents.{flat, IsValid}
use cs.Filter.Chained.Lookup.{map_view, map_contains-map_view}
use cs.Filter.Chained.Misaligned.{NoSlot, NoNode, IsMisaligned, map_contains-fault}
use cs.Filter.Chained.Erase.{map_erase-held}
use cs.Filter.Chained.Outcome.{held, map_insert-held, map_contains-insert}

program : Unit {0}
unfolding read write modulo fingerprint_of index1_of index2_of find_slot try_bucket in_bucket
    map_insert map_contains map_erase map_locate map_start_evict map_finish map_evict push_node
    add_node is_aligned read_chain write_chain runs_out_first chain_has unlink found_in erase_in
program = tt

abbrev four : CuckooMap ℕ
four = record {
  bucket_count = 4;
  bucket_size = 8;
  fingerprint_size = 8;
  max_kicks = 5;
  slots = replicate 32 0;
  chains = replicate 4 [];
  rng = 0;
}

four-IsValid : IsValid four
four-IsValid = record { slots_valid = omega arith; linked = refl; aligned = λ i lt. omega arith }

abbrev buckets_of : List ℕ → List ℕ → CuckooMap ℕ
buckets_of first last = record four { slots = first ++ (replicate 16 0 ++ last) }

-- 7 and 263 share the fingerprint 7 and the buckets 3 and 0, which are full of it: 263 goes to a chain.
abbrev full : CuckooMap ℕ
full = buckets_of (replicate 8 7) (replicate 8 7)

abbrev chained_run : Run (Bool × List ℕ × List (List ℕ))
chained_run = do (done, m) ← map_insert {Item = ℕ} full 263; ok (done, m.slots, m.chains)

chained : chained_run ≡ ok (true, full.slots, (7 ∷ []) ∷ [] ∷ [] ∷ [] ∷ [])
unfolding program
chained = refl

-- The insertion of 7 moves the fingerprint 6 out of bucket 0, and stores 7 in its alternate bucket: 6 is not found any more.
abbrev before : CuckooMap ℕ
before = buckets_of (10 ∷ 6 ∷ replicate 6 10) (replicate 8 3)

abbrev lost_in_map_run : Run (Bool × Bool × Bool)
lost_in_map_run = do
  there ← map_contains {Item = ℕ} before 6
  (done, m) ← map_insert {Item = ℕ} before 7
  after ← map_contains {Item = ℕ} m 6
  ok (there, done, after)

lost_in_map : lost_in_map_run ≡ ok (true, true, false)
unfolding program
lost_in_map = refl

-- With two slots in a bucket, the pointer of bucket 1 is at byte 10.
abbrev two_slots : CuckooMap ℕ
two_slots = record four { bucket_size = 2; slots = replicate 8 0 }

misaligned : map_contains {Item = ℕ} two_slots 5 ≡ fault
unfolding program
misaligned = refl

abbrev first : ℕ
first = first_bucket {Item = ℕ} (flat two_slots) 5

abbrev second : ℕ
second = second_bucket {Item = ℕ} (flat two_slots) 5

map_contains-fault_example : (map_contains {Item = ℕ} two_slots 5 ≡ fault) ↔ (
    NoSlot {Item = ℕ} two_slots 5 first
    × (IsMisaligned {Item = ℕ} two_slots 5 first
        ⊎ (NoNode {Item = ℕ} two_slots 5 first
            × NoSlot {Item = ℕ} two_slots 5 second
            × IsMisaligned {Item = ℕ} two_slots 5 second)))
map_contains-fault_example = map_contains-fault {Item = ℕ} two_slots 5 (omega arith) refl

map_insert-held_example : Returns (map_insert {Item = ℕ} four 7) λ r.
    (r.0 ≡ true)
    × IsValid r.1
    × ((w : ℕ) × (w ≢ 0)
        × ((weight : ℕ → ℕ)
            → held weight r.1 + weight w
              ≡ held weight four
                + weight (tag {Item = ℕ} (flat four) 7)
                + weight (tag {Item = ℕ} (flat four) 7)))
map_insert-held_example = map_insert-held four 7 four-IsValid

map_contains-insert_example :
    Returns (map_insert {Item = ℕ} four 7) λ r. map_contains {Item = ℕ} r.1 7 ≡ ok true
map_contains-insert_example = map_contains-insert four 7 four-IsValid 2 refl

map_contains-map_view_example :
    map_contains {Item = ℕ} four 7 ≡ ok (ltb 0 (map_view {Item = ℕ} four 7))
map_contains-map_view_example = map_contains-map_view four 7 four-IsValid

abbrev one_chained : CuckooMap ℕ
one_chained = record full { chains = (7 ∷ []) ∷ [] ∷ [] ∷ [] ∷ [] }

one_chained-IsValid : IsValid one_chained
one_chained-IsValid = record {
  slots_valid = omega arith;
  linked = refl;
  aligned = λ i lt. omega arith;
}

map_erase-held_example : Returns (map_erase {Item = ℕ} one_chained 7) λ r.
    (map_contains {Item = ℕ} one_chained 7 ≡ ok r.0)
    × IsValid r.1
    × ((weight : ℕ → ℕ)
        → held weight r.1 + (if r.0 then weight (tag {Item = ℕ} (flat one_chained) 7) else 0)
          ≡ held weight one_chained)
map_erase-held_example = map_erase-held one_chained 7 one_chained-IsValid
