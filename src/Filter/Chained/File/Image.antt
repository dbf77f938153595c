-- ===== src/Filter/Chained/File/Image.antt =====
-- The bytes that `save` writes, and what the constructor makes of them.
use cs.Base.{
  ℕ, zero, suc, ◌+◌, ◌*◌, ◌/◌, ◌%◌, ◌^◌, ◌≤◌, ◌<◌, ◌≡◌, refl, List, [], ◌∷◌, ◌++◌, length,
  length-append, length-take, length-drop, get_or, ltb, not-ltb, ◌==◌, false, arith,
}
use cs.Filter.Run.{ok, fault}
use cs.Filter.Stream.{to_bytes, Output}
use cs.Filter.Stream.Parse.{
  Parses, return-Parses, bind-Parses, map-Parses, guard-Parses, length-to_bytes, read_size-Parses,
  read_byte-Parses, read_bytes-Parses, extend, extend-append, extend_none, room-extend, fwrite-all,
}
use cs.Filter.Chained.{CuckooMap, is_aligned, node_count}
use cs.Filter.Chained.Contents.{IsAligned, read_chain_ok}
use cs.Filter.Chained.File.{
  bucket_slots, save_nodes, save_buckets, load_nodes, load_chain, load_buckets,
}

-- Maps whose sizes and chain lengths are `size_t`s, and whose buckets fit into memory.
pub record IsStorable {κ} {G : Type κ} (m : CuckooMap G) : Type 0 where
  pub fits : m.bucket_count * (8 + m.bucket_size) < 2 ^ 64
  pub sizes : (m.bucket_count < 2 ^ 64) × (m.bucket_size < 2 ^ 64)
  pub settings : (m.fingerprint_size < 2 ^ 64) × (m.max_kicks < 2 ^ 64)
  pub filled : length m.slots ≡ m.bucket_count * m.bucket_size
  pub linked : length m.chains ≡ m.bucket_count
  pub aligned : IsAligned m.bucket_count m.bucket_size
  pub few_nodes : node_count m.chains < 2 ^ 64

load_nodes-Parses : (chain : List ℕ) → Parses (load_nodes (length chain)) chain chain
unfolding load_nodes
load_nodes-Parses [] = return-Parses []
load_nodes-Parses (f ∷ chain) =
    bind-Parses _ (read_byte-Parses f) (map-Parses _ (load_nodes-Parses chain))

load_chain-Parses :
    (bucket_size i : ℕ) (chain : List ℕ)
    → i * (8 + bucket_size) % 8 ≡ 0
    → Parses (load_chain bucket_size i (length chain)) chain chain
unfolding load_chain is_aligned
load_chain-Parses bucket_size i [] aligned = return-Parses []
load_chain-Parses bucket_size i (f ∷ chain) aligned = bind-Parses _ (read_byte-Parses f) (
    guard-Parses fault (i * (8 + bucket_size) % 8 == 0) (rw aligned refl)
      (map-Parses _ (load_nodes-Parses chain)))

module _ {κ} {G : Type κ} (m : CuckooMap G) where
  abbrev pub chain_at : ℕ → List ℕ
  chain_at i = get_or m.chains i []

  -- The bytes of `k` buckets from bucket `i` on.
  unfoldable pub buckets_bytes : ℕ → ℕ → List ℕ
  buckets_bytes i zero = []
  buckets_bytes i (suc k) =
      bucket_slots m.bucket_size m.slots i
      ++ (to_bytes 8 (length (chain_at i)) ++ (chain_at i ++ buckets_bytes (i + 1) k))

  -- Their slots, their chains, and the number of items written for them.
  unfoldable pub slots_from : ℕ → ℕ → List ℕ
  slots_from i zero = []
  slots_from i (suc k) = bucket_slots m.bucket_size m.slots i ++ slots_from (i + 1) k

  unfoldable pub chains_from : ℕ → ℕ → List (List ℕ)
  chains_from i zero = []
  chains_from i (suc k) = chain_at i ∷ chains_from (i + 1) k

  unfoldable pub items_from : ℕ → ℕ → ℕ
  items_from i zero = 0
  items_from i (suc k) = m.bucket_size + 1 + length (chain_at i) + items_from (i + 1) k

length-get_or : (cs : List (List ℕ)) (i : ℕ) → length (get_or cs i []) ≤ node_count cs
unfolding node_count
length-get_or [] i = omega arith
length-get_or (c ∷ cs) zero = omega arith
length-get_or (c ∷ cs) (suc i) = omega (arith, length-get_or cs i)

save_nodes-bytes :
    (chain : List ℕ) (n : ℕ) (out : Output)
    → n < 2 ^ 64
    → length chain ≤ out.room
    → save_nodes chain n out ≡ ((n + length chain) % 2 ^ 64, extend out chain)
unfolding save_nodes
save_nodes-bytes [] n out small enough =
    let same : (n + 0) % 2 ^ 64 ≡ n = omega arith in rw (same, extend_none out) refl
save_nodes-bytes (f ∷ chain) n out small enough =
    let room = room-extend out (f ∷ []) in
    let count : ((n + 1) % 2 ^ 64 + length chain) % 2 ^ 64 ≡ (n + suc (length chain)) % 2 ^ 64 =
      omega arith in
    rw
      (
        fwrite-all 1 (f ∷ []) out (omega arith),
        save_nodes-bytes chain ((n + 1) % 2 ^ 64) (extend out (f ∷ [])) (omega arith) (omega arith),
        extend-append out (f ∷ []) chain,
        count,
      )
      refl

module _ {κ} {G : Type κ} (m : CuckooMap G) (storable : IsStorable m) where
  pub length-bucket_slots :
      (i k : ℕ)
      → i + suc k ≡ m.bucket_count
      → length (bucket_slots m.bucket_size m.slots i) ≡ m.bucket_size
  length-bucket_slots i k e =
      let all : length m.slots ≡ (i + suc k) * m.bucket_size = rw e storable.filled in
      length-take m.bucket_size _ (rw length-drop (omega arith))

  pub load_buckets-Parses :
      (i k : ℕ)
      → i + k ≡ m.bucket_count
      → Parses
          (load_buckets m.bucket_size k i)
          (buckets_bytes m i k)
          (slots_from m i k, chains_from m i k)
  unfolding load_buckets buckets_bytes slots_from chains_from
  load_buckets-Parses i zero e = return-Parses ([], [])
  load_buckets-Parses i (suc k) e =
      bind-Parses _ (read_bytes-Parses m.bucket_size _ (length-bucket_slots i k e)) (
        bind-Parses _
          (read_size-Parses (length (chain_at m i))
            (omega (arith, length-get_or m.chains i, storable.few_nodes)))
          (bind-Parses _
            (load_chain-Parses m.bucket_size i (chain_at m i) (storable.aligned i (omega arith)))
            (map-Parses _ (load_buckets-Parses (i + 1) k (omega arith)))))

  -- With room enough, the loop over the buckets writes their bytes.
  pub save_buckets-bytes :
      (i k n : ℕ) (out : Output)
      → i + k ≡ m.bucket_count
      → n < 2 ^ 64
      → length (buckets_bytes m i k) ≤ out.room
      → save_buckets m k i n out
        ≡ ok ((n + items_from m i k) % 2 ^ 64, extend out (buckets_bytes m i k))
  unfolding save_buckets buckets_bytes items_from
  save_buckets-bytes i zero n out e small enough =
      let same : (n + 0) % 2 ^ 64 ≡ n = omega arith in rw (same, extend_none out) refl
  save_buckets-bytes i (suc k) n out e small enough =
      let slots = bucket_slots m.bucket_size m.slots i in
      let chain = chain_at m i in
      let prefix = to_bytes 8 (length chain) in
      let rest = buckets_bytes m (i + 1) k in
      let out1 = extend out slots in
      let out2 = extend out1 prefix in
      let out3 = extend out2 chain in
      let size = length-bucket_slots i k e in
      let eight = length-to_bytes 8 (length chain) in
      let total : length (slots ++ (prefix ++ (chain ++ rest)))
          ≡ m.bucket_size + 8 + length chain + length rest =
        omega (
          arith,
          length-append slots (prefix ++ (chain ++ rest)),
          length-append prefix (chain ++ rest),
          length-append chain rest,
        ) in
      let room1 = room-extend out slots in
      let room2 = room-extend out1 prefix in
      let room3 = room-extend out2 chain in
      let n1 = (n + length slots / 1 + length prefix / 8) % 2 ^ 64 in
      let n2 = (n1 + length chain) % 2 ^ 64 in
      let long : ltb (length slots) m.bucket_size ≡ false =
        not-ltb (length slots) m.bucket_size (λ short. omega arith) in
      let count : (n2 + items_from m (i + 1) k) % 2 ^ 64
          ≡ (n + (m.bucket_size + 1 + length chain + items_from m (i + 1) k)) % 2 ^ 64 =
        omega arith in
      rw
        (
          long,
          read_chain_ok m.bucket_size m.chains i (omega (arith, storable.linked))
              (storable.aligned i (omega arith)),
          fwrite-all 1 slots out (omega arith),
          fwrite-all 8 prefix out1 (omega arith),
          save_nodes-bytes chain n1 out2 (omega arith) (omega arith),
          save_buckets-bytes (i + 1) k n2 out3 (omega arith) (omega arith) (omega arith),
          count,
          extend-append out2 chain rest,
          extend-append out1 prefix (chain ++ rest),
          extend-append out slots (prefix ++ (chain ++ rest)),
        )
        refl
