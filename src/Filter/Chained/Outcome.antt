-- ===== src/Filter/Chained/Outcome.antt =====
-- What `insert` of the map leaves behind: the fingerprints that it holds, and the item's own.
use cs.Base.{
  ℕ, ◌+◌, ◌^◌, ◌≤◌, ◌<◌, ◌≡◌, ◌≢◌, refl, ◌∙◌, inl, inr, true, lt→ltb, ◌==◌, if◌then◌else◌, arith,
}
use cs.Filter.Run.{ok, Returns}
use cs.Filter.Hasher.{Hasher, Engine}
use cs.Filter.Cuckoo.Valid.{print_of_bounds}
use cs.Filter.Cuckoo.Place.{tag, first_bucket}
use cs.Filter.Cuckoo.Evict.{IsFair}
use cs.Filter.Cuckoo.Lookup.{of_pair}
use cs.Filter.Cuckoo.Bag.{resized, IsFair-item}
use cs.Filter.Chained.{CuckooMap, map_insert, map_contains}
use cs.Filter.Chained.Contents.{flat, IsValid, content}
use cs.Filter.Chained.Insert.{Puts, map_insert-Puts}
use cs.Filter.Chained.Lookup.{map_view, map_contains-map_view}

abbrev pub taken : (ℕ → ℕ) → ℕ → ℕ → ℕ
taken weight i x = if x == 0 then 0 else weight x

-- The sum of `weight` over the fingerprints in all slots that are not free, and in all nodes.
unfoldable pub held {κ} : {G : Type κ} → (ℕ → ℕ) → CuckooMap G → ℕ
unfolding content
held weight m = content (taken weight) m

taken-IsFair : (hash_byte : ℕ → ℕ) (n : ℕ) (weight : ℕ → ℕ) → IsFair hash_byte n (taken weight)
taken-IsFair hash_byte n weight = record { free = λ i. refl; moves = λ i x lt. refl }

pub taken-ne_zero : (weight : ℕ → ℕ) (i x : ℕ) → x ≢ 0 → taken weight i x ≡ weight x
taken-ne_zero weight i x n = ground arith

module _ {ℓ κ} {Item : Type ℓ} {G : Type κ} ⦃h : Hasher Item⦄ ⦃e : Engine G⦄ (m : CuckooMap G)
    (item : Item) (valid : IsValid m) where
  after : Puts m item → CuckooMap G
  after put = record m { slots = put.slots; chains = put.chains; rng = put.rng }

  after-IsValid : (put : Puts m item) → IsValid (after put)
  unfolding after
  after-IsValid put = record {
    slots_valid = resized (flat m) put.slots put.rng valid.slots_valid put.same_slots;
    linked = put.same_chains ∙ valid.linked;
    aligned = valid.aligned;
  }

  tag-ne_zero : tag (flat m) item ≢ 0
  tag-ne_zero z =
      omega (arith, (print_of_bounds m.fingerprint_size item valid.slots_valid.few_bits).0)

  -- On a valid map, whose pointers are all aligned, `insert` returns `true` and keeps it valid. For every way to count fingerprints,
  -- those in the slots and nodes are those before with the item's added, where some
  -- fingerprint `w`, which is the item's own if nothing is lost, has become the item's.
  pub map_insert-held : Returns (map_insert m item) λ r.
      (r.0 ≡ true)
      × IsValid r.1
      × ((w : ℕ) × (w ≢ 0)
          × ((weight : ℕ → ℕ)
              → held weight r.1 + weight w
                ≡ held weight m + weight (tag (flat m) item) + weight (tag (flat m) item)))
  unfolding after held content
  map_insert-held =
      let put = map_insert-Puts m item valid in
      let fp = tag (flat m) item in
      let counts : (weight : ℕ → ℕ)
          → held weight (after put) + weight put.w
            ≡ held weight m + weight fp + taken weight put.t put.x =
        λ weight.
          rw
            (
              taken-ne_zero weight put.j put.w put.present,
              taken-ne_zero weight (first_bucket (flat m) item) fp tag-ne_zero,
            )
            at (put.balance (taken weight) (taken-IsFair h.hash_byte m.bucket_count weight)) in
      (
        (true, after put),
        put.returns,
        (
          refl,
          after-IsValid put,
          elim put.choice [
            | inl (t_is, x_is) ↦ (
              put.w,
              put.present,
              λ weight.
                  omega
                    (arith, rw x_is at (counts weight), taken-ne_zero weight put.t fp tag-ne_zero),
            )
            | inr (x_is, t_is) ↦ (
              fp,
              tag-ne_zero,
              λ weight.
                  omega (
                    arith,
                    rw x_is at (counts weight),
                    taken-ne_zero weight put.t put.w put.present,
                  ),
            )
          ],
        ),
      )

  abbrev pair_weight : ℕ → ℕ → ℕ
  pair_weight = of_pair h.hash_byte m.bucket_count (first_bucket (flat m) item) (tag (flat m) item)

  -- What is lost counts at most what is stored beside the fingerprint.
  loss_bounded : (put : Puts m item) → pair_weight put.j put.w ≤ pair_weight put.t put.x
  unfolding of_pair
  loss_bounded put = ground (arith, put.choice)

  own_weight : pair_weight (first_bucket (flat m) item) (tag (flat m) item) ≡ 1
  unfolding of_pair
  own_weight = ground arith

  -- With a power of two for the number of buckets, an item is found after its `insert`.
  pub map_contains-insert :
      (k : ℕ)
      → m.bucket_count ≡ 2 ^ k
      → Returns (map_insert m item) λ r. map_contains r.1 item ≡ ok true
  unfolding after map_view content
  map_contains-insert k power =
      let put = map_insert-Puts m item valid in
      let balance = put.balance pair_weight (IsFair-item (flat m) k power valid.slots_valid item) in
      let found : 0 < map_view (after put) item =
        omega (arith, balance, loss_bounded put, own_weight) in
      (
        (true, after put),
        put.returns,
        map_contains-map_view (after put) item (after-IsValid put) ∙ rw (lt→ltb 0 _ found),
      )
