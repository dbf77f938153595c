-- ===== src/Filter/Chained/Misaligned.antt =====
-- When a lookup in the map is undefined.
use native.Mathlib.Decide.{ℕ_discrete}
use cs.Base.{
  ℕ, ◌+◌, ◌*◌, ◌%◌, ◌<◌, ◌≡◌, ◌≢◌, refl, sym, ◌∙◌, ◌↔◌, ◌⊎◌, inl, inr, Bool, true, false, List, [],
  ◌∷◌, length, get_or, ◌==◌, ltb, All, arith, Bool-cases, ==→eq, ==→ne, ne→==,
}
use cs.Filter.Run.{ok, fault, ◌>>=◌, ok-ne_fault}
use cs.Filter.Hasher.{Hasher}
use cs.Filter.Slots.{Absent}
use cs.Filter.Cuckoo.{in_bucket}
use cs.Filter.Cuckoo.Valid as Flat
use cs.Filter.Cuckoo.Place.{tag, first_bucket, second_bucket, first_bucket-lt, second_bucket-lt}
use cs.Filter.Cuckoo.Lookup.{looks}
use cs.Filter.Chained.{CuckooMap, is_aligned, read_chain, chain_has, found_in, map_contains}
use cs.Filter.Chained.Contents.{flat, map_locate_ok, read_chain_ok}

chain_has-cases :
    (fp : ℕ) (c : List ℕ)
    → ((chain_has fp c ≡ true) × ¬ All (λ x. x ≢ fp) c)
      ⊎ ((chain_has fp c ≡ false) × All (λ x. x ≢ fp) c)
unfolding chain_has
chain_has-cases fp [] = inr (refl, tt)
chain_has-cases fp (x ∷ xs) = elim (Bool-cases (x == fp)) [
  | inl here ↦ inl (rw here refl, λ other. other.0 (==→eq x fp here))
  | inr other ↦ elim (chain_has-cases fp xs) [
    | inl (has, some_there) ↦ inl (rw (other, has) refl, λ none. some_there none.1)
    | inr (lacks, none) ↦ inr (rw (other, lacks) refl, (==→ne x fp other, none))
  ]
]

read_chain_fault :
    (bucket_size : ℕ) (cs : List (List ℕ)) (i : ℕ)
    → i * (8 + bucket_size) % 8 ≢ 0
    → read_chain bucket_size cs i ≡ fault
unfolding read_chain is_aligned
read_chain_fault bucket_size cs i odd =
    let no_pointer = ne→== (i * (8 + bucket_size) % 8) 0 odd in
    elim (Bool-cases (ltb i (length cs))) [
      | inl inside ↦ rw (inside, no_pointer) refl
      | inr outside ↦ rw outside refl
    ]

module _ {ℓ κ} {Item : Type ℓ} {G : Type κ} ⦃h : Hasher Item⦄ (m : CuckooMap G) (item : Item) where
  abbrev fp : ℕ
  fp = tag (flat m) item

  -- No slot of bucket `i`, and no node of its chain, holds the item's fingerprint.
  abbrev pub NoSlot : ℕ → Type 0
  NoSlot i = Absent (tag (flat m) item) m.bucket_size (i * m.bucket_size) m.slots

  abbrev pub NoNode : ℕ → Type 0
  NoNode i = All (λ x. x ≢ tag (flat m) item) (get_or m.chains i [])

  abbrev pub IsMisaligned : ℕ → Type 0
  IsMisaligned i = i * (8 + m.bucket_size) % 8 ≢ 0

  module _ (v : Flat.IsValid (flat m)) (linked : length m.chains ≡ m.bucket_count) where
    round_cases :
        (i : ℕ)
        → i < m.bucket_count
        → ((found_in m i fp ≡ ok true) × ¬ (NoSlot i × (IsMisaligned i ⊎ NoNode i)))
          ⊎ (((found_in m i fp ≡ ok false) × NoSlot i × NoNode i × ¬ IsMisaligned i)
              ⊎ ((found_in m i fp ≡ fault) × NoSlot i × IsMisaligned i))
    unfolding found_in in_bucket
    round_cases i hi = elim (looks (flat m) item v i hi) [
      | inr (p, run, at') ↦
          inl (rw (run, ◌>>=◌) refl, λ lacks. lacks.0 p at'.from at'.below at'.holds)
      | inl (run, absent) ↦ elim (ℕ_discrete (i * (8 + m.bucket_size) % 8) 0) [
        | no odd ↦
            inr (
              inr
                (rw (run, ◌>>=◌, read_chain_fault m.bucket_size m.chains i odd) refl, absent, odd))
        | yes even ↦
            let there = read_chain_ok m.bucket_size m.chains i (omega arith) even in
            elim (chain_has-cases fp (get_or m.chains i [])) [
              | inl (has, some_there) ↦ inl (
                rw (run, ◌>>=◌, there, has) refl,
                λ lacks. elim lacks.1 [ inl odd ↦ odd even | inr none ↦ some_there none ],
              )
              | inr (lacks, none) ↦
                  inr (inl (rw (run, ◌>>=◌, there, lacks) refl, absent, none, λ odd. odd even))
            ]
      ]
    ]

    answered : (b : Bool) → map_contains m item ≡ ok b → ¬ (map_contains m item ≡ fault)
    answered b e e' = ok-ne_fault (sym e ∙ e')

    -- Where the slots are valid and each bucket has a chain, `contains` is undefined exactly if it comes
    -- to a pointer that is not aligned: no slot of the item's first bucket holds its fingerprint, and the
    -- pointer of that is not aligned, or no node of its chain does either, nor a slot of the second
    -- bucket, and the pointer of the second bucket is not aligned.
    pub map_contains-fault : (map_contains m item ≡ fault) ↔ (
        NoSlot (first_bucket (flat m) item)
        × (IsMisaligned (first_bucket (flat m) item)
            ⊎ (NoNode (first_bucket (flat m) item)
                × NoSlot (second_bucket (flat m) item)
                × IsMisaligned (second_bucket (flat m) item))))
    unfolding map_contains
    map_contains-fault =
        let located = map_locate_ok m item v in
        elim (round_cases (first_bucket (flat m) item) (first_bucket-lt (flat m) item v)) [
          | inl (run, found) ↦ (
            λ e. absurd (answered true (rw (located, ◌>>=◌, run) refl) e),
            λ d. absurd (found (d.0, elim d.1 [ inl odd ↦ inl odd | inr rest ↦ inr rest.0 ])),
          )
          | inr (inr (run, absent, odd)) ↦
              (λ e. (absent, inl odd), λ d. rw (located, ◌>>=◌, run) refl)
          | inr (inl (run, absent, none, even)) ↦
              elim (round_cases (second_bucket (flat m) item) (second_bucket-lt (flat m) item v)) [
                | inl (run₂, found) ↦ (
                  λ e. absurd (answered true (rw (located, ◌>>=◌, run, run₂) refl) e),
                  λ d. elim d.1 [
                    | inl odd ↦ absurd (even odd)
                    | inr rest ↦ absurd (found (rest.1, inl rest.2))
                  ],
                )
                | inr (inl (run₂, absent₂, none₂, even₂)) ↦ (
                  λ e. absurd (answered false (rw (located, ◌>>=◌, run, run₂) refl) e),
                  λ d. elim d.1 [ inl odd ↦ absurd (even odd) | inr rest ↦ absurd (even₂ rest.2) ],
                )
                | inr (inr (run₂, absent₂, odd₂)) ↦ (
                  λ e. (absent, inr (none, absent₂, odd₂)),
                  λ d. rw (located, ◌>>=◌, run, run₂) refl,
                )
              ]
        ]
