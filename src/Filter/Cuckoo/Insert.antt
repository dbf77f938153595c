-- ===== src/Filter/Cuckoo/Insert.antt =====
-- `insert` ends on every valid filter, and what it does to the contents.
use cs.Base.{
  ℕ, ◌*◌, ◌<◌, ◌≡◌, inl, inr, Bool, true, none, List, set, length-set, bit_and, ◌==◌, arith,
  Bool-cases,
}
use cs.Filter.Run.{ok, ◌>>=◌}
use cs.Filter.Hasher.{Hasher, Engine}
use cs.Filter.Slots.{Absent, IsAt}
use cs.Filter.Cuckoo.{CuckooFilter, try_bucket, evict, insert}
use cs.Filter.Cuckoo.Valid.{IsValid, print_of_bounds, locate_ok}
use cs.Filter.Cuckoo.Balance.{try_bucket-cases}
use cs.Filter.Cuckoo.Place.{
  tag, first_bucket, second_bucket, first_bucket-lt, second_bucket-lt, bucket_fits, narrow,
}
use cs.Filter.Cuckoo.Evict.{Ends, Ends-alternate, fill-Gains, evict-Ends}

module _ {ℓ κ} {Item : Type ℓ} {G : Type κ} ⦃h : Hasher Item⦄ ⦃e : Engine G⦄ where
  -- What `insert` returns, for some new bytes and engine state; all else of the filter is kept.
  pub record Inserts (f : CuckooFilter G) (item : Item) : Type (ℓ ⊔ κ) where
    pub done : Bool
    pub buckets : List ℕ
    pub rng : G
    pub returns : insert f item ≡ ok (done, record f { buckets = buckets; rng = rng })
    pub ends :
        Ends h.hash_byte f.bucket_count f.bucket_size
          (first_bucket f item)
          (tag f item)
          f.buckets
          (done, buckets, rng)

  module _ (f : CuckooFilter G) (item : Item) (valid : IsValid f) where
    abbrev i₁ : ℕ
    i₁ = first_bucket f item

    abbrev i₂ : ℕ
    i₂ = second_bucket f item

    abbrev fp : ℕ
    fp = tag f item

    -- The eviction loop, from either bucket.
    evicts :
        (i : ℕ) (g : G)
        → i < f.bucket_count
        → Absent 0 f.bucket_size (i * f.bucket_size) f.buckets
        → (r : Bool × List ℕ × G) × (evict h.hash_byte f.bucket_count f.bucket_size f.max_kicks i fp
              f.buckets g
            ≡ ok r)
          × Ends h.hash_byte f.bucket_count f.bucket_size i fp f.buckets r
    evicts i g hi full =
        evict-Ends h.hash_byte f.bucket_count f.bucket_size valid.has_buckets valid.has_slots
          (narrow f valid) f.max_kicks i fp f.buckets g hi
          (omega (arith, (print_of_bounds f.fingerprint_size item valid.few_bits).0)) valid.filled
          full

    -- The first free slot of either bucket.
    fills :
        (i p : ℕ)
        → i < f.bucket_count
        → IsAt 0 f.bucket_size (i * f.bucket_size) p f.buckets
        → Ends h.hash_byte f.bucket_count f.bucket_size i fp f.buckets
            (true, set f.buckets p fp, f.rng)
    fills i p hi at' = (
      length-set f.buckets p fp,
      fill-Gains h.hash_byte f.bucket_count f.bucket_size i fp p f.buckets hi at'.from at'.below
          (omega (arith, bucket_fits f valid i hi, at'.below)) at'.holds,
    )

    via_second :
        (r : Bool × List ℕ × G)
        → Ends h.hash_byte f.bucket_count f.bucket_size i₂ fp f.buckets r
        → Ends h.hash_byte f.bucket_count f.bucket_size i₁ fp f.buckets r
    via_second r =
        Ends-alternate h.hash_byte f.bucket_count f.bucket_size i₁ fp f.buckets r
          (first_bucket-lt f item valid)

    full_both :
        try_bucket f.bucket_size i₁ fp f.buckets ≡ ok none
        → try_bucket f.bucket_size i₂ fp f.buckets ≡ ok none
        → Absent 0 f.bucket_size (i₁ * f.bucket_size) f.buckets
        → Absent 0 f.bucket_size (i₂ * f.bucket_size) f.buckets
        → Inserts f item
    unfolding insert
    full_both run₁ run₂ full₁ full₂ =
        let g = (e.draw f.rng).1 in
        elim (Bool-cases (bit_and (e.draw f.rng).0 1 == 0)) [
          | inl even ↦
              let ((done, b, g'), run, ends) = evicts i₂ g (second_bucket-lt f item valid) full₂ in
              record {
                done = done;
                buckets = b;
                rng = g';
                returns = rw (locate_ok f item valid, ◌>>=◌, run₁, run₂, even, run);
                ends = via_second (done, b, g') ends;
              }
          | inr odd ↦
              let ((done, b, g'), run, ends) = evicts i₁ g (first_bucket-lt f item valid) full₁ in
              record {
                done = done;
                buckets = b;
                rng = g';
                returns = rw (locate_ok f item valid, ◌>>=◌, run₁, run₂, odd, run);
                ends = ends;
              }
        ]

    -- `insert` returns on every valid filter. Where the result is `true` the fingerprint is added to
    -- the contents; where it is `false` it is added, and some fingerprint that may be another is lost.
    pub insert-Inserts : Inserts f item
    unfolding insert
    insert-Inserts =
        elim (try_bucket-cases f.bucket_size i₁ fp f.buckets
          (bucket_fits f valid i₁ (first_bucket-lt f item valid))) [
            | inr (p, run, at') ↦ record {
              done = true;
              buckets = set f.buckets p fp;
              rng = f.rng;
              returns = rw (locate_ok f item valid, ◌>>=◌, run);
              ends = fills i₁ p (first_bucket-lt f item valid) at';
            }
            | inl (run₁, full₁) ↦
                elim (try_bucket-cases f.bucket_size i₂ fp f.buckets
                  (bucket_fits f valid i₂ (second_bucket-lt f item valid))) [
                    | inl (run₂, full₂) ↦ full_both run₁ run₂ full₁ full₂
                    | inr (p, run, at') ↦ record {
                      done = true;
                      buckets = set f.buckets p fp;
                      rng = f.rng;
                      returns = rw (locate_ok f item valid, ◌>>=◌, run₁, run);
                      ends =
                          via_second (true, set f.buckets p fp, f.rng)
                            (fills i₂ p (second_bucket-lt f item valid) at');
                    }
                  ]
          ]
