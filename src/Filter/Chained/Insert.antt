-- ===== src/Filter/Chained/Insert.antt =====
-- `insert` of the map: it returns, and what it does to the contents.
use cs.Base.{
  ℕ, ◌+◌, ◌*◌, ◌<◌, ◌≡◌, ◌≢◌, refl, ◌∙◌, ◌⊎◌, inl, inr, true, List, [], ◌∷◌, length, get_or, set,
  length-set, bit_and, ◌==◌, if◌then◌else◌, arith, Bool-cases,
}
use cs.Filter.Run.{ok, ◌>>=◌}
use cs.Filter.Hasher.{Hasher, Engine}
use cs.Filter.Slots.{Absent, IsAt}
use cs.Filter.Cuckoo.Valid.{print_of_bounds}
use cs.Filter.Cuckoo.Balance.{total, try_bucket-cases}
use cs.Filter.Cuckoo.Place.{
  tag, first_bucket, second_bucket, first_bucket-lt, second_bucket-lt, bucket_fits,
}
use cs.Filter.Cuckoo.Evict.{IsFair, fill-Gains}
use cs.Filter.Chained.{CuckooMap, map_insert, map_start_evict}
use cs.Filter.Chained.Contents.{flat, IsValid, content, chains_sum, push-chains_sum, map_locate_ok}
use cs.Filter.Chained.Finish.{push_node_ok, finish_placed, finish_left, start_runs}
use cs.Filter.Chained.Evict.{map_evict-Leaves}

module _ {ℓ κ} {Item : Type ℓ} {G : Type κ} ⦃h : Hasher Item⦄ ⦃e : Engine G⦄ where
  -- What `insert` returns: `x` is stored in bucket `t` beside the new fingerprint, and `w` of bucket
  -- `j` is gone. Either `w` itself went to a chain of the item, or the new fingerprint was stored in its place.
  pub record Puts (m : CuckooMap G) (item : Item) : Type (ℓ ⊔ κ) where
    pub slots : List ℕ
    pub chains : List (List ℕ)
    pub rng : G
    pub returns :
        map_insert m item ≡ ok (true, record m { slots = slots; chains = chains; rng = rng })
    pub same_slots : length slots ≡ length m.slots
    pub same_chains : length chains ≡ length m.chains
    pub j : ℕ
    pub w : ℕ
    pub t : ℕ
    pub x : ℕ
    pub present : w ≢ 0
    pub choice :
        ((t ≡ j) × (x ≡ tag (flat m) item))
        ⊎ ((x ≡ w) × ((t ≡ first_bucket (flat m) item) ⊎ (t ≡ second_bucket (flat m) item)))
    pub balance :
        (weight : ℕ → ℕ → ℕ)
        → IsFair h.hash_byte m.bucket_count weight
        → total weight m.bucket_size slots + chains_sum weight 0 chains + weight j w
          ≡ content weight m + weight (first_bucket (flat m) item) (tag (flat m) item) + weight t x

  module _ (m : CuckooMap G) (item : Item) (valid : IsValid m) where
    abbrev i₁ : ℕ
    i₁ = first_bucket (flat m) item

    abbrev i₂ : ℕ
    i₂ = second_bucket (flat m) item

    abbrev fp : ℕ
    fp = tag (flat m) item

    fp-ne_zero : fp ≢ 0
    fp-ne_zero z =
        omega (arith, (print_of_bounds m.fingerprint_size item valid.slots_valid.few_bits).0)

    i₁-lt : i₁ < m.bucket_count
    i₁-lt = first_bucket-lt (flat m) item valid.slots_valid

    i₂-lt : i₂ < m.bucket_count
    i₂-lt = second_bucket-lt (flat m) item valid.slots_valid

    -- Either bucket counts as the first one.
    first_counts :
        (i : ℕ)
        → ((i ≡ i₁) ⊎ (i ≡ i₂))
        → (weight : ℕ → ℕ → ℕ) → IsFair h.hash_byte m.bucket_count weight
        → weight i fp ≡ weight i₁ fp
    first_counts i (inl same) weight fair = rw same refl
    first_counts i (inr other) weight fair = rw other (fair.moves i₁ fp i₁-lt)

    -- The first free slot of either bucket.
    fills :
        (i p : ℕ)
        → i < m.bucket_count
        → ((i ≡ i₁) ⊎ (i ≡ i₂))
        → IsAt 0 m.bucket_size (i * m.bucket_size) p m.slots
        → map_insert m item ≡ ok (true, record m { slots = set m.slots p fp })
        → Puts m item
    unfolding content
    fills i p hi which at' run = record {
      slots = set m.slots p fp;
      chains = m.chains;
      rng = m.rng;
      returns = run;
      same_slots = length-set m.slots p fp;
      same_chains = refl;
      j = i₁;
      w = fp;
      t = i₁;
      x = fp;
      present = fp-ne_zero;
      choice = inl (refl, refl);
      balance = λ weight fair. omega (
        arith,
        fill-Gains h.hash_byte m.bucket_count m.bucket_size i fp p m.slots hi at'.from at'.below
            (omega (arith, bucket_fits (flat m) valid.slots_valid i hi, at'.below)) at'.holds weight
            fair,
        first_counts i which weight fair,
      );
    }

    -- The eviction loop from either bucket, and what follows it.
    evicts :
        (i : ℕ)
        → i < m.bucket_count
        → ((i ≡ i₁) ⊎ (i ≡ i₂))
        → Absent 0 m.bucket_size (i * m.bucket_size) m.slots
        → (if bit_and (e.draw m.rng).0 1 == 0 then i₂ else i₁) ≡ i
        → map_insert m item ≡ map_start_evict h.hash_byte m fp i₁ i₂
        → Puts m item
    unfolding content
    evicts i hi which full start run =
        let v = valid.slots_valid in
        let ((hand, b, g'), ran, end) =
          map_evict-Leaves h.hash_byte m.bucket_count m.bucket_size fp v.has_buckets v.has_slots
            m.max_kicks i fp m.slots (e.draw m.rng).1 hi fp-ne_zero v.filled full in
        let (t, ht, where', pushed) =
          push_node_ok (record m { slots = b; rng = g' }) end.w i₁ i₂
            (omega (arith, i₁-lt, valid.linked)) (omega (arith, i₂-lt, valid.linked))
            (valid.aligned i₁ i₁-lt) (valid.aligned i₂ i₂-lt) in
        elim end.in_hand [
          | inl placed ↦ record {
            slots = b;
            chains = m.chains;
            rng = g';
            returns =
                run
                ∙ start_runs h.hash_byte m fp i₁ i₂ i (hand, b, g') start ran
                ∙ finish_placed m i₁ i₂ hand b g' placed;
            same_slots = end.same_length;
            same_chains = refl;
            j = end.j;
            w = end.w;
            t = end.j;
            x = fp;
            present = end.present;
            choice = inl (refl, refl);
            balance = λ weight fair.
                omega
                  (arith, rw placed at (end.balance weight fair), first_counts i which weight fair);
          }
          | inr left ↦ record {
            slots = b;
            chains = set m.chains t (end.w ∷ get_or m.chains t []);
            rng = g';
            returns =
                run
                ∙ start_runs h.hash_byte m fp i₁ i₂ i (hand, b, g') start ran
                ∙ finish_left m i₁ i₂ hand b g' end.w _ left pushed;
            same_slots = end.same_length;
            same_chains = length-set m.chains t (end.w ∷ get_or m.chains t []);
            j = end.j;
            w = end.w;
            t = t;
            x = end.w;
            present = end.present;
            choice = inr (refl, where');
            balance = λ weight fair. omega (
              arith,
              rw left at (end.balance weight fair),
              first_counts i which weight fair,
              push-chains_sum weight m.chains t end.w ht,
            );
          }
        ]

    pub map_insert-Puts : Puts m item
    unfolding map_insert
    map_insert-Puts =
        let v = valid.slots_valid in
        let located = map_locate_ok m item valid.slots_valid in
        elim (try_bucket-cases m.bucket_size i₁ fp m.slots (bucket_fits (flat m) v i₁ i₁-lt)) [
          | inr (p, run, at') ↦ fills i₁ p i₁-lt (inl refl) at' (rw (located, ◌>>=◌, run))
          | inl (run₁, full₁) ↦
              elim (try_bucket-cases m.bucket_size i₂ fp m.slots
                (bucket_fits (flat m) v i₂ i₂-lt)) [
                  | inr (p, run, at') ↦
                      fills i₂ p i₂-lt (inr refl) at' (rw (located, ◌>>=◌, run₁, run))
                  | inl (run₂, full₂) ↦ elim (Bool-cases (bit_and (e.draw m.rng).0 1 == 0)) [
                    | inl even ↦
                        evicts i₂ i₂-lt (inr refl) full₂ (rw even refl)
                          (rw (located, ◌>>=◌, run₁, run₂))
                    | inr odd ↦
                        evicts i₁ i₁-lt (inl refl) full₁ (rw odd refl)
                          (rw (located, ◌>>=◌, run₁, run₂))
                  ]
                ]
        ]
