-- ===== src/FilterBench/Complete.antt =====
-- The benchmarks of the cuckoo filter end, for any keys.
use cs.Base.{ℕ, ◌*◌, ◌/◌, ◌^◌, max, ◌≡◌, ◌<◌, ap, ◌∙◌, length, arith}
use cs.Filter.Run.{ok, ◌>>=◌, Returns}
use cs.Filter.Hasher.{Hasher, Engine}
use cs.Filter.Cuckoo as Cuckoo
use cs.Filter.Cuckoo.{CuckooFilter}
use cs.Filter.Cuckoo.Valid as Slots
use cs.Filter.Cuckoo.Lookup.{contains-view}
use cs.Filter.Cuckoo.Bag.{insert-view, erase-view}
use cs.Filter.Cuckoo.Session.{fresh, new_filter-starts}
use cs.FilterBench.{
  make_random_strings, make_cf, insert_rounds, filter_cuckoo_filter_insert_zipf,
  filter_cuckoo_filter_insert, filter_cuckoo_filter_contains, filter_cuckoo_filter_erase,
}
use cs.FilterBench.Rounds.{
  length-make_random_strings, contains_rounds-Returns, erase_rounds-Returns, insert_keys-Returns,
  insert_rounds-Returns,
}

module _ {Item S G : Type 0} ⦃h : Hasher Item⦄ ⦃e : Engine G⦄ (next : S → Item × S) (rng : S)
    (seeds : ℕ → G) (iterations batch : ℕ) where
  module _ (pos : 0 < batch) (few : batch < 2 ^ 60) where
    abbrev pub n : ℕ
    n = max 4 (batch / 4)

    bucket_bounds : (0 < n) × (n * 12 < 2 ^ 64)
    bucket_bounds = omega arith

    pub cuckoo_made :
        (i : ℕ)
        → (make_cf batch (seeds i) ≡ ok (fresh n 4 8 500 (seeds i)))
          × Slots.IsValid (fresh n 4 8 500 (seeds i))
    unfolding make_cf
    cuckoo_made i =
        let bounds = bucket_bounds in
        let (made, valid, empty) =
          new_filter-starts n 4 8 500 (seeds i) (omega arith) (omega arith) bounds.0 (omega arith)
            (omega arith) in
        (made, valid)

    module _ (k : ℕ) (power : n ≡ 2 ^ k) where
      abbrev IsBucketed : CuckooFilter G → Type 0
      IsBucketed f = Slots.IsValid f × (f.bucket_count ≡ 2 ^ k)

      cuckoo_inserts :
          (f : CuckooFilter G) (key : Item)
          → IsBucketed f
          → Returns (Cuckoo.insert f key) λ r. IsBucketed r.1
      cuckoo_inserts f key (valid, count) =
          let (r, run, after) = insert-view f k count valid key in
          (r, run, (after.still_valid, after.same_count ∙ count))

      cuckoo_erases :
          (f : CuckooFilter G) (key : Item)
          → IsBucketed f
          → Returns (Cuckoo.erase f key) λ r. IsBucketed r.1
      cuckoo_erases f key (valid, count) =
          let (r, run, after) = erase-view f k count valid key in
          (r, run, (after.still_valid, after.same_count ∙ count))

      cuckoo_rounds :
          (draw : S → Item × S)
          → Returns
              (insert_rounds
                (λ i. make_cf batch (seeds i))
                Cuckoo.insert
                (make_random_strings draw batch rng)
                iterations)
              (λ r. length r ≡ iterations * batch)
      cuckoo_rounds draw =
          let keys = make_random_strings draw batch rng in
          let full = length-make_random_strings draw batch rng in
          let (rounds, run, count) =
            insert_rounds-Returns IsBucketed Cuckoo.insert cuckoo_inserts
              (λ i. make_cf batch (seeds i)) keys
              (λ i. (fresh n 4 8 500 (seeds i), (cuckoo_made i).0, ((cuckoo_made i).1, power)))
              iterations in
          (rounds, run, count ∙ ap (λ (l : ℕ). iterations * l) full)

      -- For a batch of at least one key and fewer than 2 ^ 60 that makes the number of buckets a power of
      -- two, the benchmarks of the cuckoo filter end without a fault or an exception, whatever the
      -- keys, with one result for each key and iteration where they insert, and for each iteration where they
      -- look up or erase.
      cuckoo_benchmarks-Returns :
          (zipf : S → Item × S)
          → Returns
              (filter_cuckoo_filter_insert next rng seeds iterations batch)
              (λ r. length r ≡ iterations * batch)
            × Returns
                (filter_cuckoo_filter_insert_zipf next rng seeds iterations batch zipf)
                (λ r. length r ≡ iterations * batch)
            × Returns
                (filter_cuckoo_filter_contains next rng seeds iterations batch)
                (λ r. length r ≡ iterations)
            × Returns
                (filter_cuckoo_filter_erase next rng seeds iterations batch)
                (λ r. length r ≡ iterations)
      unfolding filter_cuckoo_filter_insert filter_cuckoo_filter_insert_zipf
          filter_cuckoo_filter_contains filter_cuckoo_filter_erase
      cuckoo_benchmarks-Returns zipf =
          let keys = make_random_strings next batch rng in
          let full = length-make_random_strings next batch rng in
          let (made, valid) = cuckoo_made 0 in
          let ((results, f), filled, (after, count)) =
            insert_keys-Returns IsBucketed Cuckoo.insert cuckoo_inserts (fresh n 4 8 500 (seeds 0))
              keys (valid, power) in
          let (found, found_run, found_length) =
            contains_rounds-Returns keys batch full pos (Cuckoo.contains f)
              (λ key. (_, contains-view f key after.0, tt)) iterations 0 pos in
          let (erased, erased_run, erased_length) =
            erase_rounds-Returns keys batch full pos IsBucketed Cuckoo.erase Cuckoo.insert
              cuckoo_erases cuckoo_inserts iterations 0 f pos after in
          (
            cuckoo_rounds next,
            cuckoo_rounds zipf,
            (found, rw (made, ◌>>=◌, filled) found_run, found_length),
            (erased, rw (made, ◌>>=◌, filled) erased_run, erased_length),
          )
