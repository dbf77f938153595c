-- ===== src/Main.antt =====
-- mousedb/src/main.cpp: the measurement of the three filters under a uniform and a Zipfian workload.
-- The numbers that it draws, their texts, and the sizes that it gets by floating-point arithmetic are
-- arguments.
pub mod Loops
pub mod Parts
pub mod Measured
pub mod Refound
mod Examples
use cs.Base.{ℕ, zero, suc, ◌+◌, Bool, true, false, Option, none, some, List, [], ◌∷◌, if◌then◌else◌}
use cs.Filter.Run.{Run, ok, throws, fault, ◌>>=◌}
use cs.Filter.Hasher.{Hasher, Engine}
use cs.Filter.Bitset.{Bitset}
use cs.Filter.Bloom as Bloom
use cs.Filter.Bloom.{BloomFilter, new_bloom}
use cs.Filter.Cuckoo as Cuckoo
use cs.Filter.Cuckoo.{CuckooFilter, new_filter}
use cs.Filter.Chained.{CuckooMap, new_map, map_insert, map_contains, map_size}

-- `ceil` of the floating-point expressions in `make_bf`, `make_cf` and `make_cm`, for `n` items.
pub record Sizes : Type 0 where
  pub bits : ℕ → ℕ
  pub hashes : ℕ → ℕ
  pub buckets : ℕ → ℕ

pub make_bf {κ} : {B : Type κ} ⦃s : Bitset B⦄ → Sizes → ℕ → BloomFilter B
make_bf sizes n = new_bloom (sizes.bits n) (sizes.hashes n)

pub make_cf {κ} : {G : Type κ} → Sizes → ℕ → G → Run (CuckooFilter G)
make_cf sizes n g = new_filter (sizes.buckets n) 2 8 50 g

pub make_cm {κ} : {G : Type κ} → Sizes → ℕ → G → Run (CuckooMap G)
make_cm sizes n g = new_map (sizes.buckets n) 2 8 50 g

-- The numbers of one workload, in the order in which they are printed.
pub record Report : Type 0 where
  pub bf_fp : ℕ
  pub bf_size : ℕ
  pub cf_fail : ℕ
  pub cf_fp : ℕ
  pub cf_size : ℕ
  pub cm_fail : ℕ
  pub cm_fp : ℕ
  pub cm_size : ℕ

-- The loops, for a generator with state `S`; `next` draws a number and gives its text.
module _ {Item S : Type 0} (next : S → Item × S) where
  -- `n` rounds of a loop that inserts and does not look at the result.
  pub fill {ℓ} : {F : Type ℓ} → (F → Item → Run F) → ℕ → F → S → Run (F × S)
  fill put zero f s = ok (f, s)
  fill put (suc n) f s = do f' ← put f (next s).0; fill put n f' (next s).1

  -- `n` rounds of a loop that inserts and counts the failures.
  pub fill_counting {ℓ} :
      {F : Type ℓ} → (F → Item → Run (Bool × F)) → ℕ → F → S → ℕ → Run (ℕ × F × S)
  fill_counting put zero f s fail = ok (fail, f, s)
  fill_counting put (suc n) f s fail = do
    (done, f') ← put f (next s).0
    fill_counting put n f' (next s).1 (if done then fail else fail + 1)

  -- `n` rounds of a loop that counts the items found.
  pub count_found : (Item → Run Bool) → ℕ → S → ℕ → Run (ℕ × S)
  count_found test zero s fp = ok (fp, s)
  count_found test (suc n) s fp = do
    found ← test (next s).0
    count_found test n (next s).1 (if found then fp + 1 else fp)

-- The measurement of each filter: the items to insert come from `next` and `uni_rng`, those to test from
-- `uniform` and `test_rng`. The results are the numbers printed, and the generators afterwards.
module _ {Item S : Type 0} ⦃h : Hasher Item⦄ (sizes : Sizes) (uniform : S → Item × S) where
  pub measure_bf : (B : Type 0) ⦃b : Bitset B⦄ → (S → Item × S) → ℕ → S → S → Run (ℕ × ℕ × S × S)
  measure_bf B next n uni_rng test_rng = do
    (bf, uni_rng) ← fill next Bloom.insert n (make_bf {B = B} sizes n) uni_rng
    (bf_fp, test_rng) ← count_found uniform (Bloom.contains bf) n test_rng 0
    ok (bf_fp, bf.size, uni_rng, test_rng)

  module _ {G : Type 0} ⦃e : Engine G⦄ where
    -- The cuckoo filters seed their own generators from `std::random_device`.
    pub measure_cf : (S → Item × S) → ℕ → S → S → G → Run (ℕ × ℕ × ℕ × S × S)
    measure_cf next n uni_rng test_rng cf_rng = do
      cf ← make_cf sizes n cf_rng
      (cf_fail, cf, uni_rng) ← fill_counting next Cuckoo.insert n cf uni_rng 0
      (cf_fp, test_rng) ← count_found uniform (Cuckoo.contains cf) n test_rng 0
      ok (cf_fail, cf_fp, Cuckoo.size cf, uni_rng, test_rng)

    pub measure_cm : (S → Item × S) → ℕ → S → S → G → Run (ℕ × ℕ × ℕ × S × S)
    measure_cm next n uni_rng test_rng cm_rng = do
      cm ← make_cm sizes n cm_rng
      (cm_fail, cm, uni_rng) ← fill_counting next map_insert n cm uni_rng 0
      (cm_fp, test_rng) ← count_found uniform (map_contains cm) n test_rng 0
      ok (cm_fail, cm_fp, map_size cm, uni_rng, test_rng)

module _ {Item S G : Type 0} (B : Type 0) ⦃h : Hasher Item⦄ ⦃b : Bitset B⦄ ⦃e : Engine G⦄
    (sizes : Sizes) (uniform zipf : S → Item × S) where
  -- One workload.
  pub measure : (S → Item × S) → ℕ → S → S → G → G → Run (Report × S × S)
  measure next n uni_rng test_rng cf_rng cm_rng = do
    (bf_fp, bf_size, uni_rng, test_rng) ← measure_bf sizes uniform B next n uni_rng test_rng
    (cf_fail, cf_fp, cf_size, uni_rng, test_rng) ←
        measure_cf sizes uniform next n uni_rng test_rng cf_rng
    (cm_fail, cm_fp, cm_size, uni_rng, test_rng) ←
        measure_cm sizes uniform next n uni_rng test_rng cm_rng
    ok (
      record {
        bf_fp = bf_fp;
        bf_size = bf_size;
        cf_fail = cf_fail;
        cf_fp = cf_fp;
        cf_size = cf_size;
        cm_fail = cm_fail;
        cm_fp = cm_fp;
        cm_size = cm_size;
      },
      uni_rng,
      test_rng,
    )

  -- Both workloads; the reports are what `main` prints.
  pub workloads : ℕ → S → S → G × G → G × G → Run (Report × Report)
  workloads n uni_rng test_rng (cf_rng, cm_rng) (cf_rng', cm_rng') = do
    (uniform_report, uni_rng, test_rng) ← measure uniform n uni_rng test_rng cf_rng cm_rng
    (zipf_report, uni_rng, test_rng) ← measure zipf n uni_rng test_rng cf_rng' cm_rng'
    ok (uniform_report, zipf_report)

  -- The first argument after the program's name, read by `std::stoull`, where `none` is an exception,
  -- is the number of items; `none` is the exit code 1.
  pub main :
      {Arg : Type 0}
      → (Arg → Option ℕ)
      → List Arg
      → S
      → S
      → G × G
      → G × G
      → Run (Option (Report × Report))
  main stoull (program ∷ arg ∷ _) uni_rng test_rng rngs rngs' = elim (stoull arg) [
    | none ↦ ok none
    | some n ↦ do r ← workloads n uni_rng test_rng rngs rngs'; ok (some r)
  ]
  main stoull _ uni_rng test_rng rngs rngs' = do
    r ← workloads 1000000 uni_rng test_rng rngs rngs'
    ok (some r)
