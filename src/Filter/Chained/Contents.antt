-- ===== src/Filter/Chained/Contents.antt =====
-- The fingerprints of the map: those in the slots and those in the chains.
use native.Mathlib.Nat.{add-zero, zero-add}
use cs.Base.{
  ℕ, zero, suc, ◌+◌, ◌*◌, ◌%◌, ◌<◌, ◌≡◌, refl, List, [], ◌∷◌, length, get_or, set, lt→ltb, ltb,
  arith,
}
use cs.Filter.Run.{modulo_ok, ok, ◌>>=◌}
use cs.Filter.Hasher.{Hasher, index1_of}
use cs.Filter.Cuckoo.{CuckooFilter}
use cs.Filter.Cuckoo.Valid as Flat
use cs.Filter.Cuckoo.Valid.{fingerprint_of-print_of, index2_of-alternate, home}
use cs.Filter.Cuckoo.Balance.{total}
use cs.Filter.Cuckoo.Place.{tag, first_bucket, second_bucket}
use cs.Filter.Chained.{CuckooMap, map_locate, is_aligned, read_chain, write_chain, runs_out_first}

-- The slots alone, as those of a `CuckooFilter`.
abbrev pub flat {κ} : {G : Type κ} → CuckooMap G → CuckooFilter G
flat m = record {
  bucket_count = m.bucket_count;
  bucket_size = m.bucket_size;
  fingerprint_size = m.fingerprint_size;
  max_kicks = m.max_kicks;
  buckets = m.slots;
  rng = m.rng;
}

-- The pointers of all buckets stand at addresses that are aligned for them.
abbrev pub IsAligned : ℕ → ℕ → Type 0
IsAligned bucket_count bucket_size = (i : ℕ) → i < bucket_count → i * (8 + bucket_size) % 8 ≡ 0

pub record IsValid {κ} {G : Type κ} (m : CuckooMap G) : Type 0 where
  pub slots_valid : Flat.IsValid (flat m)
  pub linked : length m.chains ≡ m.bucket_count
  pub aligned : IsAligned m.bucket_count m.bucket_size

-- The sum of `weight x` over the nodes of a chain, and of `weight i x` over all chains, counted from `pos`.
unfoldable pub chain_sum : (ℕ → ℕ) → List ℕ → ℕ
chain_sum weight [] = 0
chain_sum weight (x ∷ xs) = weight x + chain_sum weight xs

unfoldable pub chains_sum : (ℕ → ℕ → ℕ) → ℕ → List (List ℕ) → ℕ
chains_sum weight pos [] = 0
chains_sum weight pos (c ∷ cs) = chain_sum (weight pos) c + chains_sum weight (suc pos) cs

unfoldable pub content {κ} : {G : Type κ} → (ℕ → ℕ → ℕ) → CuckooMap G → ℕ
content weight m = total weight m.bucket_size m.slots + chains_sum weight 0 m.chains

pub chains_sum-set :
    (weight : ℕ → ℕ → ℕ) (pos : ℕ) (cs : List (List ℕ)) (i : ℕ) (c : List ℕ)
    → i < length cs
    → chains_sum weight pos (set cs i c) + chain_sum (weight (pos + i)) (get_or cs i [])
      ≡ chains_sum weight pos cs + chain_sum (weight (pos + i)) c
unfolding chains_sum
chains_sum-set weight pos [] i c h = absurd (omega arith)
chains_sum-set weight pos (d ∷ cs) zero c h = rw add-zero (omega arith)
chains_sum-set weight pos (d ∷ cs) (suc i) c h =
    let rest = chains_sum-set weight (suc pos) cs i c (omega arith) in
    let shifted : suc pos + i ≡ pos + suc i = omega arith in omega (arith, rw shifted at rest)

push_at :
    (weight : ℕ → ℕ → ℕ) (pos : ℕ) (cs : List (List ℕ)) (i x : ℕ)
    → i < length cs
    → chains_sum weight pos (set cs i (x ∷ get_or cs i []))
      ≡ chains_sum weight pos cs + weight (pos + i) x
unfolding chain_sum
push_at weight pos cs i x h = omega (arith, chains_sum-set weight pos cs i (x ∷ get_or cs i []) h)

pub push-chains_sum :
    (weight : ℕ → ℕ → ℕ) (cs : List (List ℕ)) (i x : ℕ)
    → i < length cs
    → chains_sum weight 0 (set cs i (x ∷ get_or cs i [])) ≡ chains_sum weight 0 cs + weight i x
push-chains_sum weight cs i x h = rw zero-add at (push_at weight 0 cs i x h)

module _ {ℓ κ} {Item : Type ℓ} {G : Type κ} ⦃h : Hasher Item⦄ where
  pub map_locate_ok :
      (m : CuckooMap G) (item : Item)
      → Flat.IsValid (flat m)
      → map_locate m item
        ≡ ok (tag (flat m) item, first_bucket (flat m) item, second_bucket (flat m) item)
  unfolding map_locate index1_of home
  map_locate_ok m item v = rw (
    fingerprint_of-print_of 32 m.fingerprint_size item v.few_bits (omega arith),
    ◌>>=◌,
    modulo_ok (h.hash_item item) m.bucket_count v.has_buckets,
    index2_of-alternate h.hash_byte m.bucket_count (first_bucket (flat m) item) (tag (flat m) item)
        v.has_buckets,
  )

pub read_chain_ok :
    (bucket_size : ℕ) (cs : List (List ℕ)) (i : ℕ)
    → i < length cs
    → i * (8 + bucket_size) % 8 ≡ 0
    → read_chain bucket_size cs i ≡ ok (get_or cs i [])
unfolding read_chain is_aligned
read_chain_ok bucket_size cs i h a = rw (lt→ltb i (length cs) h, a) refl

pub write_chain_ok :
    (bucket_size : ℕ) (cs : List (List ℕ)) (i : ℕ) (c : List ℕ)
    → i < length cs
    → i * (8 + bucket_size) % 8 ≡ 0
    → write_chain bucket_size cs i c ≡ ok (set cs i c)
unfolding write_chain is_aligned
write_chain_ok bucket_size cs i c h a = rw (lt→ltb i (length cs) h, a) refl

-- The loop over the two chains says whether the first one is shorter.
runs_out_first-length : (xs ys : List ℕ) → runs_out_first xs ys ≡ ltb (length xs) (length ys)
unfolding runs_out_first
runs_out_first-length [] [] = ground arith
runs_out_first-length [] (y ∷ ys) = ground arith
runs_out_first-length (x ∷ xs) [] = ground arith
runs_out_first-length (x ∷ xs) (y ∷ ys) = ground (arith, runs_out_first-length xs ys)
