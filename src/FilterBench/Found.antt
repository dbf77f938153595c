-- ===== src/FilterBench/Found.antt =====
-- What the benchmarks of the filters find.
use native.Mathlib.Nat.{mod-eq_of_lt}
use cs.Base.{
  ℕ, zero, suc, ◌*◌, ◌/◌, ◌%◌, ◌^◌, max, ◌≡◌, ◌<◌, refl, ap, sym, ◌∙◌, true, List, [], ◌∷◌, length,
  replicate, All, arith,
}
use cs.Filter.Run.{ok, ◌>>=◌, Returns, >>=-eq-ok, ok-injective}
use cs.Filter.Hasher.{Hasher, Engine}
use cs.Filter.Bitset.{Bitset}
use cs.Filter.Bloom as Bloom
use cs.Filter.Bloom.{BloomFilter, new_bloom, bloom_insert_all}
use cs.Filter.Bloom.Contents as Bits
use cs.Filter.Cuckoo as Cuckoo
use cs.Filter.Cuckoo.{CuckooFilter}
use cs.Filter.Cuckoo.Valid as Slots
use cs.Filter.Cuckoo.Session.{fresh, insert_all, insert_all-contains}
use cs.FilterBench.{
  make_random_strings, make_cf, insert_keys, bloom_rounds, filter_bloom_filter,
  filter_bloom_filter_contains, filter_cuckoo_filter_contains,
}
use cs.FilterBench.Complete.{cuckoo_made}
use cs.FilterBench.Rounds.{length-make_random_strings, contains_rounds-replicate}

-- Insertions that all return `true` are insertions without a failure.
insert_keys-insert_all :
    {Item G : Type 0} ⦃h : Hasher Item⦄ ⦃e : Engine G⦄ (f : CuckooFilter G) (keys : List Item)
    {f' : CuckooFilter G}
    → insert_keys Cuckoo.insert f keys ≡ ok (replicate (length keys) true, f')
    → insert_all f keys 0 ≡ ok (0, f')
unfolding insert_keys insert_all
insert_keys-insert_all f [] run = cc (ok-injective run)
insert_keys-insert_all f (key ∷ keys) {f'} run =
    let ((done, f₁), first, rest) = >>=-eq-ok (Cuckoo.insert f key) _ run in
    let ((results, f₂), others, joined) = >>=-eq-ok (insert_keys Cuckoo.insert f₁ keys) _ rest in
    let same = ok-injective joined in
    let all_done : done ≡ true = cc in
    let the_rest : (results, f₂) ≡ (replicate (length keys) true, f') = cc in
    rw (first, ◌>>=◌, all_done) (insert_keys-insert_all f₁ keys (others ∙ ap ok the_rest))

module _ {Item S G : Type 0} ⦃h : Hasher Item⦄ ⦃e : Engine G⦄ (next : S → Item × S) (rng : S)
    (seeds : ℕ → G) (iterations batch : ℕ) where
  module _ (B : Type 0) ⦃b : Bitset B⦄ (pos : 0 < batch) (fits : batch * 10 < 2 ^ 64) where
    some_bits : 0 < batch * 10
    some_bits = omega arith

    filled :
        Returns
          (bloom_insert_all
            (new_bloom {B = B} (batch * 10 % 2 ^ 64) 3)
            (make_random_strings next batch rng))
          λ f. All (λ key. Bloom.contains f key ≡ ok true) (make_random_strings next batch rng)
    filled =
        let (f, run, (valid, found)) =
          Bits.bloom_insert_all-contains (new_bloom {B = B} (batch * 10) 3)
            (make_random_strings next batch rng)
            (Bits.new_bloom-IsValid {B = B} (batch * 10) 3 some_bits) in
        rw (mod-eq_of_lt fits) (f, run, found)

    all_filled : (n : ℕ) → bloom_rounds B batch (make_random_strings next batch rng) n ≡ ok tt
    unfolding bloom_rounds
    all_filled zero = refl
    all_filled (suc n) = rw (filled.1, ◌>>=◌) (all_filled n)

    -- For a batch of at least one key, and of so few that its bits can be counted, the benchmark that
    -- fills Bloom filters ends without a fault or an exception, and the one of `contains` finds its key in every
    -- iteration.
    pub bloom_benchmarks-finds :
        (filter_bloom_filter next rng seeds iterations batch B ≡ ok tt)
        × (filter_bloom_filter_contains next rng seeds iterations batch B
            ≡ ok (replicate iterations true))
    unfolding filter_bloom_filter filter_bloom_filter_contains
    bloom_benchmarks-finds =
        let keys = make_random_strings next batch rng in
        (
          all_filled iterations,
          rw (filled.1, ◌>>=◌)
              (contains_rounds-replicate keys batch (length-make_random_strings next batch rng) pos
                (Bloom.contains filled.0) filled.2 iterations 0 pos),
        )

  -- For a batch of at least one key and fewer than 2 ^ 60 that makes the number of buckets a power of
  -- two: if the benchmark's insertions of all keys returned `true`, its lookups in the cuckoo filter
  -- find the key in every iteration.
  pub filter_cuckoo_filter_contains-finds :
      (k : ℕ) (f₀ f : CuckooFilter G)
      → 0 < batch
      → batch < 2 ^ 60
      → max 4 (batch / 4) ≡ 2 ^ k
      → make_cf batch (seeds 0) ≡ ok f₀
      → insert_keys Cuckoo.insert f₀ (make_random_strings next batch rng)
        ≡ ok (replicate batch true, f)
      → filter_cuckoo_filter_contains next rng seeds iterations batch
        ≡ ok (replicate iterations true)
  unfolding filter_cuckoo_filter_contains
  filter_cuckoo_filter_contains-finds k f₀ f pos few power made filled =
      let keys = make_random_strings next batch rng in
      let full = length-make_random_strings next batch rng in
      let (made', valid) = cuckoo_made next rng seeds iterations batch pos few 0 in
      let same : f₀ ≡ fresh (max 4 (batch / 4)) 4 8 500 (seeds 0) =
        ok-injective (sym made ∙ made') in
      let (count, valid') : (f₀.bucket_count ≡ 2 ^ k) × Slots.IsValid f₀ = rw same (power, valid) in
      let found =
        insert_all-contains keys f₀ k count valid'
          (insert_keys-insert_all f₀ keys (rw full filled)) in
      rw (made, ◌>>=◌, filled)
        (contains_rounds-replicate keys batch full pos (Cuckoo.contains f) found iterations 0 pos)
