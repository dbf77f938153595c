-- ===== src/Filter/Cuckoo/File/Compact.antt =====
-- Moving the values of each bucket to its front leaves the sums over the slots.
use native.Mathlib.Nat.{add-zero}
use cs.Base.{
  ℕ, zero, suc, ◌+◌, ◌-◌, ◌*◌, ◌/◌, ◌≤◌, ◌≡◌, refl, sym, ◌∙◌, List, [], ◌∷◌, ◌++◌, length,
  length-append, length-replicate, replicate, arith,
}
use cs.Filter.Slots.Tally.{tally}
use cs.Filter.Cuckoo.Balance.{bucket_of_slot}
use cs.Filter.Cuckoo.File.{gather}

-- The slots of a bucket after a round trip.
pub compact : List ℕ → List ℕ
compact slots = gather slots ++ replicate (length slots - length (gather slots)) 0

pub compact-gather :
    (s : ℕ) (slots : List ℕ)
    → length slots ≡ s
    → compact slots ≡ gather slots ++ replicate (s - length (gather slots)) 0
unfolding compact
compact-gather s slots size = rw (← size) refl

pub length-gather : (slots : List ℕ) → length (gather slots) ≤ length slots
unfolding gather
length-gather [] = omega arith
length-gather (v ∷ slots) = ground (arith, length-gather slots)

pub length-compact : (slots : List ℕ) → length (compact slots) ≡ length slots
unfolding compact
length-compact slots =
    let zeros = length slots - length (gather slots) in
    omega (
      arith,
      length-gather slots,
      length-append (gather slots) (replicate zeros 0),
      length-replicate {A = ℕ} zeros 0,
    )

bucket_sum : (ℕ → ℕ) → List ℕ → ℕ
bucket_sum weight [] = 0
bucket_sum weight (x ∷ xs) = weight x + bucket_sum weight xs

bucket_sum-append :
    (weight : ℕ → ℕ) (xs ys : List ℕ)
    → bucket_sum weight (xs ++ ys) ≡ bucket_sum weight xs + bucket_sum weight ys
unfolding bucket_sum
bucket_sum-append weight [] ys = omega arith
bucket_sum-append weight (x ∷ xs) ys = omega (arith, bucket_sum-append weight xs ys)

bucket_sum-replicate :
    (weight : ℕ → ℕ) (n : ℕ) → weight 0 ≡ 0 → bucket_sum weight (replicate n 0) ≡ 0
unfolding bucket_sum
bucket_sum-replicate weight zero h = refl
bucket_sum-replicate weight (suc n) h = omega (arith, bucket_sum-replicate weight n h)

bucket_sum-gather :
    (weight : ℕ → ℕ) (xs : List ℕ)
    → weight 0 ≡ 0
    → bucket_sum weight (gather xs) ≡ bucket_sum weight xs
unfolding bucket_sum gather
bucket_sum-gather weight [] h = refl
bucket_sum-gather weight (x ∷ xs) h = ground (arith, bucket_sum-gather weight xs h)

bucket_sum-compact :
    (weight : ℕ → ℕ) (xs : List ℕ)
    → weight 0 ≡ 0
    → bucket_sum weight (compact xs) ≡ bucket_sum weight xs
unfolding compact
bucket_sum-compact weight xs h =
    let zeros = length xs - length (gather xs) in
    omega (
      arith,
      bucket_sum-append weight (gather xs) (replicate zeros 0),
      bucket_sum-replicate weight zeros h,
      bucket_sum-gather weight xs h,
    )

module _ (weight : ℕ → ℕ → ℕ) (s : ℕ) where
  -- In one bucket the weight does not depend on the position.
  tally-bucket :
      (i j : ℕ) (xs : List ℕ)
      → j + length xs ≤ s
      → tally (λ p x. weight (p / s) x) (i * s + j) xs ≡ bucket_sum (weight i) xs
  unfolding tally bucket_sum
  tally-bucket i j [] h = refl
  tally-bucket i j (x ∷ xs) h =
      let next : suc (i * s + j) ≡ i * s + suc j = omega arith in
      let here : (i * s + j) / s ≡ i = bucket_of_slot s i (i * s + j) (omega arith) (omega arith) in
      rw (here, next, tally-bucket i (suc j) xs (omega arith)) refl

pub tally-append :
    (weight : ℕ → ℕ → ℕ) (pos : ℕ) (xs ys : List ℕ)
    → tally weight pos (xs ++ ys) ≡ tally weight pos xs + tally weight (pos + length xs) ys
unfolding tally
tally-append weight pos [] ys = rw add-zero (omega arith)
tally-append weight pos (x ∷ xs) ys =
    let next : pos + suc (length xs) ≡ suc pos + length xs = omega arith in
    rw (next, tally-append weight (suc pos) xs ys) (omega arith)

pub tally-compact :
    (weight : ℕ → ℕ → ℕ) (s i : ℕ) (slots : List ℕ)
    → length slots ≡ s
    → ((b : ℕ) → weight b 0 ≡ 0)
    → tally (λ p x. weight (p / s) x) (i * s) (compact slots)
      ≡ tally (λ p x. weight (p / s) x) (i * s) slots
tally-compact weight s i slots size free = rw add-zero at (
    tally-bucket weight s i 0 (compact slots) (omega (arith, length-compact slots))
    ∙ (bucket_sum-compact (weight i) slots (free i)
        ∙ sym (tally-bucket weight s i 0 slots (omega arith))))
