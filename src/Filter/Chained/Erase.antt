-- ===== src/Filter/Chained/Erase.antt =====
-- `erase` of the map: what it returns, and what it does to the contents.
use native.Mathlib.Nat.{add-zero}
use cs.Base.{
  ℕ, ◌+◌, ◌<◌, ◌≡◌, ◌≢◌, refl, ◌∙◌, ◌⊎◌, inl, inr, true, false, none, some, List, [], ◌∷◌, length,
  get_or, set, length-set, ◌==◌, if◌then◌else◌, arith, Bool-cases, ==→eq,
}
use cs.Filter.Run.{ok, ◌>>=◌, write_ok, Returns}
use cs.Filter.Hasher.{Hasher}
use cs.Filter.Cuckoo.{in_bucket}
use cs.Filter.Cuckoo.Valid.{print_of_bounds}
use cs.Filter.Cuckoo.Place.{tag, first_bucket, second_bucket, first_bucket-lt, second_bucket-lt}
use cs.Filter.Cuckoo.Lookup.{looks, inside_of, clear-Loses}
use cs.Filter.Cuckoo.Bag.{resized}
use cs.Filter.Chained.{CuckooMap, chain_has, unlink, found_in, erase_in, map_contains, map_erase}
use cs.Filter.Chained.Contents.{
  flat, IsValid, content, chain_sum, chains_sum-set, map_locate_ok, read_chain_ok, write_chain_ok,
}
use cs.Filter.Chained.Outcome.{held, taken, taken-ne_zero}

-- A chain without a node for `fp`, or what it is with the first of them taken out.
unlink-cases :
    (fp : ℕ) (c : List ℕ)
    → ((chain_has fp c ≡ false) × (unlink fp c ≡ none))
      ⊎ ((c' : List ℕ) × (chain_has fp c ≡ true)
          × (unlink fp c ≡ some c')
          × ((weight : ℕ → ℕ) → chain_sum weight c' + weight fp ≡ chain_sum weight c))
unfolding chain_has unlink chain_sum
unlink-cases fp [] = inl (refl, refl)
unlink-cases fp (x ∷ xs) = elim (Bool-cases (x == fp)) [
  | inl here ↦ inr (xs, rw here, rw here, λ weight. rw (==→eq x fp here) (omega arith))
  | inr other ↦ elim (unlink-cases fp xs) [
    | inl (lacks, stuck) ↦ inl (rw (other, lacks), rw (other, stuck))
    | inr (c', has, cut, sums) ↦
        inr (x ∷ c', rw (other, has), rw (other, cut), λ weight. omega (arith, sums weight))
  ]
]

module _ {ℓ κ} {Item : Type ℓ} {G : Type κ} ⦃h : Hasher Item⦄ (m : CuckooMap G) (item : Item)
    (valid : IsValid m) where
  abbrev fp : ℕ
  fp = tag (flat m) item

  fp-ne_zero : fp ≢ 0
  fp-ne_zero z =
      omega (arith, (print_of_bounds m.fingerprint_size item valid.slots_valid.few_bits).0)

  -- What one round leaves where it finds the fingerprint.
  record Frees (i : ℕ) : Type κ where
    slots : List ℕ
    chains : List (List ℕ)
    found : found_in m i fp ≡ ok true
    returns : erase_in m i fp ≡ ok (some (record m { slots = slots; chains = chains }))
    same_slots : length slots ≡ length m.slots
    same_chains : length chains ≡ length m.chains
    balance :
        (weight : ℕ → ℕ)
        → held weight (record m { slots = slots; chains = chains }) + weight fp ≡ held weight m

  rounds :
      (i : ℕ)
      → i < m.bucket_count
      → ((found_in m i fp ≡ ok false) × (erase_in m i fp ≡ ok none)) ⊎ Frees i
  unfolding found_in erase_in in_bucket held content
  rounds i hi =
      let there : i < length m.chains = omega (arith, valid.linked) in
      elim (looks (flat m) item valid.slots_valid i hi) [
        | inr (p, run, at') ↦
            let inside = inside_of (flat m) item valid.slots_valid i p hi at' in
            inr (record {
              slots = set m.slots p 0;
              chains = m.chains;
              found = rw (run, ◌>>=◌);
              returns = rw (run, ◌>>=◌, write_ok m.slots p 0 inside);
              same_slots = length-set m.slots p 0;
              same_chains = refl;
              balance = λ weight. omega (
                arith,
                clear-Loses m.bucket_size i fp p m.slots (taken weight) inside at' refl,
                taken-ne_zero weight i fp fp-ne_zero,
              );
            })
        | inl (run, absent) ↦ elim (unlink-cases fp (get_or m.chains i [])) [
          | inl (lacks, stuck) ↦ inl (
            rw (
              run,
              ◌>>=◌,
              read_chain_ok m.bucket_size m.chains i there (valid.aligned i hi),
              lacks,
            ),
            rw (
              run,
              ◌>>=◌,
              read_chain_ok m.bucket_size m.chains i there (valid.aligned i hi),
              stuck,
            ),
          )
          | inr (c', has, cut, sums) ↦ inr (record {
            slots = m.slots;
            chains = set m.chains i c';
            found = rw (
              run,
              ◌>>=◌,
              read_chain_ok m.bucket_size m.chains i there (valid.aligned i hi),
              has,
            );
            returns = rw (
              run,
              ◌>>=◌,
              read_chain_ok m.bucket_size m.chains i there (valid.aligned i hi),
              cut,
              write_chain_ok m.bucket_size m.chains i c' there (valid.aligned i hi),
            );
            same_slots = refl;
            same_chains = length-set m.chains i c';
            balance = λ weight. omega (
              arith,
              chains_sum-set (taken weight) 0 m.chains i c' there,
              sums (taken weight i),
              taken-ne_zero weight i fp fp-ne_zero,
            );
          })
        ]
      ]

  freed-IsValid : (i : ℕ) (f : Frees i) → IsValid (record m { slots = f.slots; chains = f.chains })
  freed-IsValid i f = record {
    slots_valid = resized (flat m) f.slots m.rng valid.slots_valid f.same_slots;
    linked = f.same_chains ∙ valid.linked;
    aligned = valid.aligned;
  }

  -- On a valid map, whose pointers are all aligned, `erase` returns what `contains` would have, and keeps the map valid. The
  -- fingerprints in the slots and nodes are those before without the item's if that is `true`, and
  -- the same ones else, for every way to count them.
  pub map_erase-held : Returns (map_erase m item) λ r.
      (map_contains m item ≡ ok r.0)
      × IsValid r.1
      × ((weight : ℕ → ℕ) → held weight r.1 + (if r.0 then weight fp else 0) ≡ held weight m)
  unfolding map_erase map_contains
  map_erase-held =
      let v = valid.slots_valid in
      let located = map_locate_ok m item valid.slots_valid in
      elim (rounds (first_bucket (flat m) item) (first_bucket-lt (flat m) item v)) [
        | inr f ↦ (
          (true, record m { slots = f.slots; chains = f.chains }),
          rw (located, ◌>>=◌, f.returns),
          (rw (located, ◌>>=◌, f.found), freed-IsValid _ f, f.balance),
        )
        | inl (lacks, stuck) ↦
            elim (rounds (second_bucket (flat m) item) (second_bucket-lt (flat m) item v)) [
              | inr f ↦ (
                (true, record m { slots = f.slots; chains = f.chains }),
                rw (located, ◌>>=◌, stuck, f.returns),
                (rw (located, ◌>>=◌, lacks, f.found), freed-IsValid _ f, f.balance),
              )
              | inl (lacks₂, stuck₂) ↦ (
                (false, m),
                rw (located, ◌>>=◌, stuck, stuck₂),
                (rw (located, ◌>>=◌, lacks, lacks₂), valid, λ weight. add-zero _),
              )
            ]
      ]
