-- ===== src/Filter/Chained/Lookup.antt =====
-- `contains` of the map against the number of places that can stand for an item.
use native.Mathlib.Nat.{zero-add, add-zero}
use native.Mathlib.Decide.{ℕ_discrete}
use cs.Base.{
  ℕ, zero, suc, ◌+◌, ◌*◌, ◌≤◌, ◌<◌, ◌≡◌, ◌≢◌, refl, ◌⊎◌, inl, inr, true, false, List, [], ◌∷◌,
  length, get_or, ltb, lt→ltb, arith, Bool-cases,
}
use cs.Filter.Run.{ok, ◌>>=◌}
use cs.Filter.Hasher.{Hasher}
use cs.Filter.Slots.{Absent, IsAt}
use cs.Filter.Cuckoo.{in_bucket}
use cs.Filter.Cuckoo.Place.{tag, first_bucket, second_bucket, first_bucket-lt, second_bucket-lt}
use cs.Filter.Cuckoo.Lookup.{of_pair, view, looks, first_counts, second_counts, none_counts}
use cs.Filter.Chained.{CuckooMap, chain_has, found_in, map_contains}
use cs.Filter.Chained.Contents.{
  flat, IsValid, content, chain_sum, chains_sum, map_locate_ok, read_chain_ok,
}

chain_has-true :
    (weight : ℕ → ℕ) (fp : ℕ) (c : List ℕ)
    → weight fp ≡ 1
    → chain_has fp c ≡ true
    → 0 < chain_sum weight c
unfolding chain_has chain_sum
chain_has-true weight fp [] one e = ground arith
chain_has-true weight fp (x ∷ xs) one e = ground (arith, chain_has-true weight fp xs one)

chain_has-false :
    (weight : ℕ → ℕ) (fp : ℕ) (c : List ℕ)
    → ((x : ℕ) → x ≢ fp → weight x ≡ 0)
    → chain_has fp c ≡ false
    → chain_sum weight c ≡ 0
unfolding chain_has chain_sum
chain_has-false weight fp [] other e = refl
chain_has-false weight fp (x ∷ xs) other e =
    ground (arith, chain_has-false weight fp xs other, other x)

chain_sum-zero : (weight : ℕ → ℕ) (c : List ℕ) → ((x : ℕ) → weight x ≡ 0) → chain_sum weight c ≡ 0
unfolding chain_sum
chain_sum-zero weight [] h = refl
chain_sum-zero weight (x ∷ xs) h = omega (arith, h x, chain_sum-zero weight xs h)

chain_sum-le :
    (weight : ℕ → ℕ → ℕ) (pos i : ℕ) (cs : List (List ℕ))
    → i < length cs
    → chain_sum (weight (pos + i)) (get_or cs i []) ≤ chains_sum weight pos cs
unfolding chains_sum
chain_sum-le weight pos i [] h = absurd (omega arith)
chain_sum-le weight pos zero (c ∷ cs) h = rw add-zero (omega arith)
chain_sum-le weight pos (suc i) (c ∷ cs) h =
    let rest = chain_sum-le weight (suc pos) i cs (omega arith) in
    let shifted : suc pos + i ≡ pos + suc i = omega arith in omega (arith, rw shifted at rest)

chains_sum-zero :
    (weight : ℕ → ℕ → ℕ) (pos : ℕ) (cs : List (List ℕ))
    → ((i : ℕ) → i < length cs → chain_sum (weight (pos + i)) (get_or cs i []) ≡ 0)
    → chains_sum weight pos cs ≡ 0
unfolding chains_sum
chains_sum-zero weight pos [] h = refl
chains_sum-zero weight pos (c ∷ cs) h =
    let first = rw add-zero at (h 0 (omega arith)) in
    let rest = chains_sum-zero weight (suc pos) cs (λ i lt.
      let shifted : suc pos + i ≡ pos + suc i = omega arith in
      rw shifted (h (suc i) (omega arith))) in
    omega arith

module _ {ℓ κ} {Item : Type ℓ} {G : Type κ} ⦃h : Hasher Item⦄ (m : CuckooMap G) (item : Item) where
  -- The number of slots and nodes that can stand for the item.
  unfoldable pub map_view : ℕ
  unfolding content
  map_view =
      content (of_pair h.hash_byte m.bucket_count (first_bucket (flat m) item) (tag (flat m) item))
        m

  module _ (valid : IsValid m) where
    abbrev weight : ℕ → ℕ → ℕ
    weight = of_pair h.hash_byte m.bucket_count (first_bucket (flat m) item) (tag (flat m) item)

    abbrev fp : ℕ
    fp = tag (flat m) item

    abbrev i₁ : ℕ
    i₁ = first_bucket (flat m) item

    abbrev i₂ : ℕ
    i₂ = second_bucket (flat m) item

    weight_first : weight i₁ fp ≡ 1
    unfolding of_pair
    weight_first = ground arith

    weight_second : weight i₂ fp ≡ 1
    unfolding of_pair
    weight_second = ground arith

    chain_counts :
        (i : ℕ)
        → i < m.bucket_count
        → weight i fp ≡ 1
        → chain_has fp (get_or m.chains i []) ≡ true
        → 0 < chains_sum weight 0 m.chains
    chain_counts i hi one has =
        let le = rw zero-add at (chain_sum-le weight 0 i m.chains (omega (arith, valid.linked))) in
        omega (arith, chain_has-true (weight i) fp (get_or m.chains i []) one has)

    -- One round of the loop, which answers by the slots of the bucket and its chain.
    rounds :
        (i : ℕ)
        → i < m.bucket_count
        → ((found_in m i fp ≡ ok true)
            × (((p : ℕ) × IsAt fp m.bucket_size (i * m.bucket_size) p m.slots)
                ⊎ (chain_has fp (get_or m.chains i []) ≡ true)))
          ⊎ ((found_in m i fp ≡ ok false)
              × Absent fp m.bucket_size (i * m.bucket_size) m.slots
              × (chain_has fp (get_or m.chains i []) ≡ false))
    unfolding found_in in_bucket
    rounds i hi = elim (looks (flat m) item valid.slots_valid i hi) [
      | inr (p, run, at') ↦ inl (rw (run, ◌>>=◌), inl (p, at'))
      | inl (run, absent) ↦
          let there =
            read_chain_ok m.bucket_size m.chains i (omega (arith, valid.linked))
              (valid.aligned i hi) in
          elim (Bool-cases (chain_has fp (get_or m.chains i []))) [
            | inl has ↦ inl (rw (run, ◌>>=◌, there, has), inr has)
            | inr lacks ↦ inr (rw (run, ◌>>=◌, there, lacks), absent, lacks)
          ]
    ]

    slot_or_node :
        (i : ℕ)
        → i < m.bucket_count
        → weight i fp ≡ 1
        → ((p : ℕ) → IsAt fp m.bucket_size (i * m.bucket_size) p m.slots → 0 < view (flat m) item)
        → (((p : ℕ) × IsAt fp m.bucket_size (i * m.bucket_size) p m.slots)
            ⊎ (chain_has fp (get_or m.chains i []) ≡ true))
        → 0 < map_view
    unfolding map_view content view
    slot_or_node i hi one counts (inl (p, at')) = omega (arith, counts p at')
    slot_or_node i hi one counts (inr has) = omega (arith, chain_counts i hi one has)

    other_bucket : (i x : ℕ) → i ≢ i₁ → i ≢ i₂ → weight i x ≡ 0
    unfolding of_pair
    other_bucket i x n₁ n₂ = ground arith

    other_print : (i x : ℕ) → x ≢ fp → weight i x ≡ 0
    unfolding of_pair
    other_print i x n = ground arith

    nowhere :
        Absent fp m.bucket_size (i₁ * m.bucket_size) m.slots
        → Absent fp m.bucket_size (i₂ * m.bucket_size) m.slots
        → chain_has fp (get_or m.chains i₁ []) ≡ false
        → chain_has fp (get_or m.chains i₂ []) ≡ false
        → map_view ≡ 0
    unfolding map_view content view
    nowhere absent₁ absent₂ lacks₁ lacks₂ =
        let chains = chains_sum-zero weight 0 m.chains λ i lt. rw zero-add (elim (ℕ_discrete i i₁) [
          | yes e ↦
              chain_has-false (weight i) fp (get_or m.chains i []) (other_print i) (rw e lacks₁)
          | no n₁ ↦ elim (ℕ_discrete i i₂) [
            | yes e ↦
                chain_has-false (weight i) fp (get_or m.chains i []) (other_print i) (rw e lacks₂)
            | no n₂ ↦ chain_sum-zero (weight i) (get_or m.chains i []) (λ x. other_bucket i x n₁ n₂)
          ]
        ]) in
        omega (arith, none_counts (flat m) item valid.slots_valid absent₁ absent₂, chains)

    -- On a valid map, whose pointers are all aligned, `contains` returns, and says whether some slot or some node of the item's two
    -- buckets holds its fingerprint.
    pub map_contains-map_view : map_contains m item ≡ ok (ltb 0 map_view)
    unfolding map_contains
    map_contains-map_view =
        let v = valid.slots_valid in
        let located = map_locate_ok m item valid.slots_valid in
        elim (rounds i₁ (first_bucket-lt (flat m) item v)) [
          | inl (run, why) ↦
              let some_there =
                slot_or_node i₁ (first_bucket-lt (flat m) item v) weight_first
                  (first_counts (flat m) item v) why in
              rw (located, ◌>>=◌, run, lt→ltb 0 map_view some_there)
          | inr (run₁, absent₁, lacks₁) ↦ elim (rounds i₂ (second_bucket-lt (flat m) item v)) [
            | inl (run, why) ↦
                let some_there =
                  slot_or_node i₂ (second_bucket-lt (flat m) item v) weight_second
                    (second_counts (flat m) item v) why in
                rw (located, ◌>>=◌, run₁, run, lt→ltb 0 map_view some_there)
            | inr (run₂, absent₂, lacks₂) ↦
                rw (located, ◌>>=◌, run₁, run₂, nowhere absent₁ absent₂ lacks₁ lacks₂)
          ]
        ]
