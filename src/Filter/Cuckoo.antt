-- ===== src/Filter/Cuckoo.antt =====
-- `CuckooFilter` of filter.cpp: the constructor, `insert`, `contains`, `erase` and `size`.
-- `buckets_` is one array of bytes, in which bucket `i` has the slots from `i * bucket_size_` on.
pub mod Valid
pub mod Balance
pub mod Evict
pub mod Place
pub mod Insert
pub mod Lookup
pub mod Bag
pub mod Session
pub mod File
mod Examples
use cs.Base.{
  ℕ, zero, suc, ◌+◌, ◌-◌, ◌*◌, ◌%◌, bit_and, Bool, true, false, ◌||◌, Option, none, some, List,
  replicate, ltb, ◌==◌, if◌then◌else◌,
}
use cs.Base.Words.{u64_mod}
use cs.Filter.Run.{Run, ok, throws, invalid_argument, ◌>>=◌, read, write}
use cs.Filter.Hasher.{Hasher, Engine, fingerprint_of, index1_of, index2_of}
use cs.Filter.Slots.{find_slot}

pub record CuckooFilter {ℓ} (G : Type ℓ) : Type ℓ where
  pub bucket_count : ℕ
  pub bucket_size : ℕ
  pub fingerprint_size : ℕ
  pub max_kicks : ℕ
  pub buckets : List ℕ
  pub rng : G

-- The constructor; `g` is the state of the seeded engine.
unfoldable pub new_filter {ℓ} : {G : Type ℓ} → ℕ → ℕ → ℕ → ℕ → G → Run (CuckooFilter G)
new_filter bucket_count bucket_size fingerprint_size max_kicks g =
    if fingerprint_size == 0 || ltb 8 fingerprint_size
    then throws invalid_argument
    else ok (record {
      bucket_count = bucket_count;
      bucket_size = bucket_size;
      fingerprint_size = fingerprint_size;
      max_kicks = max_kicks;
      buckets = replicate (bucket_count * bucket_size % u64_mod) 0;
      rng = g;
    })

-- The loop that stores `fp` in the first free slot of bucket `i`, if there is one.
unfoldable pub try_bucket : ℕ → ℕ → ℕ → List ℕ → Run (Option (List ℕ))
unfolding write
try_bucket bucket_size i fp buckets = do
  slot ← find_slot 0 bucket_size (i * bucket_size) buckets
  elim slot [ none ↦ ok none | some p ↦ do b ← write buckets p fp; ok (some b) ]

-- The loops that look for `fp` in bucket `i`.
unfoldable pub in_bucket : ℕ → ℕ → ℕ → List ℕ → Run (Option ℕ)
in_bucket bucket_size i fp buckets = find_slot fp bucket_size (i * bucket_size) buckets

module _ {κ} {G : Type κ} ⦃e : Engine G⦄ (hash_byte : ℕ → ℕ) (bucket_count bucket_size : ℕ) where
  -- The eviction loop with `k` rounds left, at bucket `idx`, with `fp` still to be placed.
  unfoldable pub evict : ℕ → ℕ → ℕ → List ℕ → G → Run (Bool × List ℕ × G)
  unfolding read write
  evict zero idx fp buckets g = ok (false, buckets, g)
  evict (suc k) idx fp buckets g = do
    let victim = (e.uniform ((bucket_size + u64_mod - 1) % u64_mod) g).0
    let g' = (e.uniform ((bucket_size + u64_mod - 1) % u64_mod) g).1
    old ← read buckets (idx * bucket_size + victim)
    swapped ← write buckets (idx * bucket_size + victim) fp
    idx' ← index2_of hash_byte bucket_count idx old
    placed ← try_bucket bucket_size idx' old swapped
    elim placed [ some b ↦ ok (true, b, g') | none ↦ evict k idx' old swapped g' ]

module _ {ℓ κ} {Item : Type ℓ} {G : Type κ} ⦃h : Hasher Item⦄ where
  unfoldable pub fingerprint : CuckooFilter G → Item → Run ℕ
  fingerprint f item = fingerprint_of 64 f.fingerprint_size item

  unfoldable pub index1 : CuckooFilter G → Item → Run ℕ
  index1 f item = index1_of f.bucket_count item

  -- The fingerprint and the two buckets of an item, with which each method begins.
  unfoldable pub locate : CuckooFilter G → Item → Run (ℕ × ℕ × ℕ)
  unfolding fingerprint index1
  locate f item = do
    fp ← fingerprint f item
    i1 ← index1 f item
    i2 ← index2_of h.hash_byte f.bucket_count i1 fp
    ok (fp, i1, i2)

  unfoldable pub contains : CuckooFilter G → Item → Run Bool
  unfolding locate in_bucket
  contains f item = do
    (fp, i1, i2) ← locate f item
    first ← in_bucket f.bucket_size i1 fp f.buckets
    elim first [
      | some p ↦ ok true
      | none ↦ do
        second ← in_bucket f.bucket_size i2 fp f.buckets
        elim second [ some p ↦ ok true | none ↦ ok false ]
    ]

  unfoldable pub erase : CuckooFilter G → Item → Run (Bool × CuckooFilter G)
  unfolding locate in_bucket
  erase f item = do
    (fp, i1, i2) ← locate f item
    first ← in_bucket f.bucket_size i1 fp f.buckets
    elim first [
      | some p ↦ do b ← write f.buckets p 0; ok (true, record f { buckets = b })
      | none ↦ do
        second ← in_bucket f.bucket_size i2 fp f.buckets
        elim second [
          | some p ↦ do b ← write f.buckets p 0; ok (true, record f { buckets = b })
          | none ↦ ok (false, f)
        ]
    ]

-- From the point where both buckets were full.
unfoldable pub start_evict {κ} :
    {G : Type κ} ⦃e : Engine G⦄ → (ℕ → ℕ) → CuckooFilter G → ℕ → ℕ → ℕ → Run (Bool × CuckooFilter G)
start_evict ⦃e⦄ hash_byte f fp i1 i2 = do
  let bit = (e.draw f.rng).0
  let g = (e.draw f.rng).1
  let idx = if bit_and bit 1 == 0 then i2 else i1
  (done, b, g') ← evict hash_byte f.bucket_count f.bucket_size f.max_kicks idx fp f.buckets g
  ok (done, record f { buckets = b; rng = g' })

module _ {ℓ κ} {Item : Type ℓ} {G : Type κ} ⦃h : Hasher Item⦄ ⦃e : Engine G⦄ where
  unfoldable pub insert : CuckooFilter G → Item → Run (Bool × CuckooFilter G)
  unfolding locate try_bucket start_evict
  insert f item = do
    (fp, i1, i2) ← locate f item
    first ← try_bucket f.bucket_size i1 fp f.buckets
    elim first [
      | some b ↦ ok (true, record f { buckets = b })
      | none ↦ do
        second ← try_bucket f.bucket_size i2 fp f.buckets
        elim second [
          | some b ↦ ok (true, record f { buckets = b })
          | none ↦ start_evict h.hash_byte f fp i1 i2
        ]
    ]

-- In bits.
unfoldable pub size {ℓ} : {G : Type ℓ} → CuckooFilter G → ℕ
size f = f.bucket_count * f.bucket_size % u64_mod * 8 % u64_mod
