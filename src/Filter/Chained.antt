-- ===== src/Filter/Chained.antt =====
-- `CuckooMap` of filter.cpp: the constructor, `insert`, `contains`, `erase` and `size`. Each of its
-- buckets is a pointer to a chain of nodes, then the slots. `slots` has the slots of all
-- buckets one after another, and `chains` what the pointers lead to, a list for each bucket.
pub mod Contents
pub mod Evict
pub mod Finish
pub mod Insert
pub mod Lookup
pub mod Outcome
pub mod Erase
pub mod Fresh
pub mod Misaligned
pub mod File
mod Examples
use cs.Base.{
  ℕ, zero, suc, ◌+◌, ◌*◌, ◌%◌, bit_and, Bool, true, false, ◌&&◌, ◌||◌, Option, none, some, List, [],
  ◌∷◌, replicate, length, get_or, set, ltb, ◌==◌, if◌then◌else◌,
}
use cs.Base.Words.{u64_mod}
use cs.Filter.Run.{Run, ok, fault, ◌>>=◌, read, write, modulo}
use cs.Filter.Hasher.{Hasher, Engine, fingerprint_of, index1_of, index2_of}
use cs.Filter.Cuckoo.{try_bucket, in_bucket}

pub record CuckooMap {ℓ} (G : Type ℓ) : Type ℓ where
  pub bucket_count : ℕ
  pub bucket_size : ℕ
  pub fingerprint_size : ℕ
  pub max_kicks : ℕ
  pub slots : List ℕ
  pub chains : List (List ℕ)
  pub rng : G

-- The constructor; `g` is the state of the seeded engine. Where the number of bytes wraps around, the
-- buckets do not fit into the array, which is counted as undefined from the start.
unfoldable pub new_map {ℓ} : {G : Type ℓ} → ℕ → ℕ → ℕ → ℕ → G → Run (CuckooMap G)
new_map bucket_count bucket_size fingerprint_size max_kicks g =
    if ltb (bucket_count * (8 + bucket_size)) u64_mod
    then ok (record {
      bucket_count = bucket_count;
      bucket_size = bucket_size;
      fingerprint_size = fingerprint_size;
      max_kicks = max_kicks;
      slots = replicate (bucket_count * bucket_size) 0;
      chains = replicate bucket_count [];
      rng = g;
    })
    else fault

-- Whether bucket `i`, whose address is that of the array plus its stride times `i`, is aligned for the
-- pointer at its start. `new` aligns the array.
pub is_aligned : ℕ → ℕ → Bool
is_aligned bucket_size i = i * (8 + bucket_size) % 8 == 0

-- The pointer of bucket `i`, read and written as a `Node *`. C++ leaves that undefined where the
-- address is not aligned for one.
pub read_chain : ℕ → List (List ℕ) → ℕ → Run (List ℕ)
unfolding is_aligned
read_chain bucket_size chains i =
    if ltb i (length chains) && is_aligned bucket_size i then ok (get_or chains i []) else fault

pub write_chain : ℕ → List (List ℕ) → ℕ → List ℕ → Run (List (List ℕ))
unfolding is_aligned
write_chain bucket_size chains i c =
    if ltb i (length chains) && is_aligned bucket_size i then ok (set chains i c) else fault

-- `while (h1 && h2)`, then whether `!h1 && h2`.
pub runs_out_first : List ℕ → List ℕ → Bool
runs_out_first [] [] = false
runs_out_first [] (y ∷ ys) = true
runs_out_first (x ∷ xs) [] = false
runs_out_first (x ∷ xs) (y ∷ ys) = runs_out_first xs ys

module _ {κ} {G : Type κ} ⦃e : Engine G⦄ (hash_byte : ℕ → ℕ) (bucket_count bucket_size fp : ℕ) where
  -- The eviction loop of an `insert` of `fp`, with `k` rounds left, at bucket `idx` with `cur` in
  -- hand. `try_slot` stores `fp`, not what is in hand. `none` is the return from the loop; else what is in hand at its end.
  pub map_evict : ℕ → ℕ → ℕ → List ℕ → G → Run (Option ℕ × List ℕ × G)
  unfolding modulo read write index2_of try_bucket
  map_evict zero idx cur slots g = ok (some cur, slots, g)
  map_evict (suc k) idx cur slots g = do
    let g' = (e.draw g).1
    victim ← modulo (e.draw g).0 bucket_size
    old ← read slots (idx * bucket_size + victim)
    swapped ← write slots (idx * bucket_size + victim) cur
    idx' ← index2_of hash_byte bucket_count idx old
    placed ← try_bucket bucket_size idx' fp swapped
    elim placed [ some b ↦ ok (none, b, g') | none ↦ map_evict k idx' old swapped g' ]

-- `new Node{cur, old_head}` at the head of the chain of bucket `target`.
pub add_node {ℓ} : {G : Type ℓ} → CuckooMap G → ℕ → ℕ → Run (CuckooMap G)
unfolding read_chain write_chain
add_node m cur target = do
  old_head ← read_chain m.bucket_size m.chains target
  chains ← write_chain m.bucket_size m.chains target (cur ∷ old_head)
  ok (record m { chains = chains })

-- What follows the loop: a node for `cur` in the chain of one of the two buckets.
pub push_node {ℓ} : {G : Type ℓ} → CuckooMap G → ℕ → ℕ → ℕ → Run (CuckooMap G)
unfolding read_chain runs_out_first add_node
push_node m cur i1 i2 = do
  h1 ← read_chain m.bucket_size m.chains i1
  h2 ← read_chain m.bucket_size m.chains i2
  add_node m cur (if runs_out_first h1 h2 then i1 else i2)

-- After the loop, with its result.
pub map_finish {κ} :
    {G : Type κ} → CuckooMap G → ℕ → ℕ → Option ℕ × List ℕ × G → Run (Bool × CuckooMap G)
unfolding push_node
map_finish m i1 i2 (none, b, g) = ok (true, record m { slots = b; rng = g })
map_finish m i1 i2 (some cur, b, g) = do
  m' ← push_node (record m { slots = b; rng = g }) cur i1 i2
  ok (true, m')

-- From the point where both buckets were full.
pub map_start_evict {κ} :
    {G : Type κ} ⦃e : Engine G⦄ → (ℕ → ℕ) → CuckooMap G → ℕ → ℕ → ℕ → Run (Bool × CuckooMap G)
unfolding map_evict map_finish
map_start_evict ⦃e⦄ hash_byte m fp i1 i2 = do
  let bit = (e.draw m.rng).0
  let g = (e.draw m.rng).1
  let idx = if bit_and bit 1 == 0 then i2 else i1
  r ← map_evict hash_byte m.bucket_count m.bucket_size fp m.max_kicks idx fp m.slots g
  map_finish m i1 i2 r

module _ {ℓ κ} {Item : Type ℓ} {G : Type κ} ⦃h : Hasher Item⦄ where
  -- The fingerprint and the two buckets of an item, with which each method begins.
  pub map_locate : CuckooMap G → Item → Run (ℕ × ℕ × ℕ)
  unfolding fingerprint_of index1_of index2_of
  map_locate m item = do
    fp ← fingerprint_of 32 m.fingerprint_size item
    i1 ← index1_of m.bucket_count item
    i2 ← index2_of h.hash_byte m.bucket_count i1 fp
    ok (fp, i1, i2)

  unfoldable pub map_insert : ⦃e : Engine G⦄ → CuckooMap G → Item → Run (Bool × CuckooMap G)
  unfolding map_locate try_bucket map_start_evict
  map_insert m item = do
    (fp, i1, i2) ← map_locate m item
    first ← try_bucket m.bucket_size i1 fp m.slots
    elim first [
      | some b ↦ ok (true, record m { slots = b })
      | none ↦ do
        second ← try_bucket m.bucket_size i2 fp m.slots
        elim second [
          | some b ↦ ok (true, record m { slots = b })
          | none ↦ map_start_evict h.hash_byte m fp i1 i2
        ]
    ]

-- The loop over a chain.
pub chain_has : ℕ → List ℕ → Bool
chain_has fp [] = false
chain_has fp (x ∷ xs) = if x == fp then true else chain_has fp xs

-- The chain without its first node that holds `fp`, if there is one.
pub unlink : ℕ → List ℕ → Option (List ℕ)
unlink fp [] = none
unlink fp (x ∷ xs) =
    let rest : Option (List ℕ) = elim (unlink fp xs) [ none ↦ none | some c ↦ some (x ∷ c) ] in
    if x == fp then some xs else rest

-- The nodes of all chains.
unfoldable pub node_count : List (List ℕ) → ℕ
node_count [] = 0
node_count (c ∷ cs) = length c + node_count cs

module _ {κ} {G : Type κ} where
  -- One round of the loop over the two buckets in `contains`, and in `erase`.
  pub found_in : CuckooMap G → ℕ → ℕ → Run Bool
  unfolding in_bucket read_chain chain_has
  found_in m i fp = do
    slot ← in_bucket m.bucket_size i fp m.slots
    elim slot [
      | some p ↦ ok true
      | none ↦ do c ← read_chain m.bucket_size m.chains i; ok (chain_has fp c)
    ]

  pub erase_in : CuckooMap G → ℕ → ℕ → Run (Option (CuckooMap G))
  unfolding in_bucket read_chain write_chain unlink write
  erase_in m i fp = do
    slot ← in_bucket m.bucket_size i fp m.slots
    elim slot [
      | some p ↦ do b ← write m.slots p 0; ok (some (record m { slots = b }))
      | none ↦ do
        c ← read_chain m.bucket_size m.chains i
        elim (unlink fp c) [
          | none ↦ ok none
          | some c' ↦ do
            cs ← write_chain m.bucket_size m.chains i c'
            ok (some (record m { chains = cs }))
        ]
    ]

  -- In bits; a node takes 16 bytes.
  unfoldable pub map_size : CuckooMap G → ℕ
  unfolding node_count
  map_size m = (m.bucket_count * (8 + m.bucket_size) * 8 + node_count m.chains * (16 * 8)) % u64_mod

module _ {ℓ κ} {Item : Type ℓ} {G : Type κ} ⦃h : Hasher Item⦄ where
  unfoldable pub map_contains : CuckooMap G → Item → Run Bool
  unfolding map_locate found_in
  map_contains m item = do
    (fp, i1, i2) ← map_locate m item
    first ← found_in m i1 fp
    elim first [ true ↦ ok true | false ↦ found_in m i2 fp ]

  pub map_erase : CuckooMap G → Item → Run (Bool × CuckooMap G)
  unfolding map_locate erase_in
  map_erase m item = do
    (fp, i1, i2) ← map_locate m item
    first ← erase_in m i1 fp
    elim first [
      | some m' ↦ ok (true, m')
      | none ↦ do
        second ← erase_in m i2 fp
        elim second [ some m' ↦ ok (true, m') | none ↦ ok (false, m) ]
    ]
