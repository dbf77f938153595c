-- ===== src/Filter/Slots/Tally.antt =====
-- Sums over all positions of an array, and what a write changes in them.
use native.Mathlib.Nat.{add-zero}
use cs.Base.{ℕ, zero, suc, ◌+◌, ◌≤◌, ◌<◌, ◌≡◌, refl, sym, List, [], ◌∷◌, length, get_or, set, arith}

add_suc : (pos i : ℕ) → pos + suc i ≡ suc pos + i
add_suc pos i = omega arith

module _ (weight : ℕ → ℕ → ℕ) where
  -- The sum of `weight p x` over the positions `p`, counted from `pos`, and what they hold.
  unfoldable pub tally : ℕ → List ℕ → ℕ
  tally pos [] = 0
  tally pos (x ∷ xs) = weight pos x + tally (suc pos) xs

  pub tally-set :
      (pos : ℕ) (xs : List ℕ) (i v : ℕ)
      → i < length xs
      → tally pos (set xs i v) + weight (pos + i) (get_or xs i 0)
        ≡ tally pos xs + weight (pos + i) v
  unfolding tally
  tally-set pos [] i v h = absurd (omega arith)
  tally-set pos (x ∷ xs) zero v h = rw add-zero (omega arith)
  tally-set pos (x ∷ xs) (suc i) v h =
      let rest = tally-set (suc pos) xs i v (omega arith) in
      let shifted : suc pos + i ≡ pos + suc i = omega arith in omega (arith, rw shifted at rest)

  pub weight-le-tally :
      (pos : ℕ) (xs : List ℕ) (i : ℕ)
      → i < length xs
      → weight (pos + i) (get_or xs i 0) ≤ tally pos xs
  unfolding tally
  weight-le-tally pos [] i h = absurd (omega arith)
  weight-le-tally pos (x ∷ xs) zero h = rw add-zero (omega arith)
  weight-le-tally pos (x ∷ xs) (suc i) h =
      let rest = weight-le-tally (suc pos) xs i (omega arith) in
      let shifted : suc pos + i ≡ pos + suc i = omega arith in omega (arith, rw shifted at rest)

  pub tally-eq-zero :
      (pos : ℕ) (xs : List ℕ)
      → ((i : ℕ) → i < length xs → weight (pos + i) (get_or xs i 0) ≡ 0)
      → tally pos xs ≡ 0
  unfolding tally
  tally-eq-zero pos [] h = refl
  tally-eq-zero pos (x ∷ xs) h =
      let first : weight pos x ≡ 0 = rw add-zero at (h 0 (omega arith)) in
      let rest =
        tally-eq-zero (suc pos) xs (λ i lt. rw (sym (add_suc pos i)) (h (suc i) (omega arith))) in
      omega arith

  pub tally-le : ((p x : ℕ) → weight p x ≤ 1) → (pos : ℕ) (xs : List ℕ) → tally pos xs ≤ length xs
  unfolding tally
  tally-le small pos [] = omega arith
  tally-le small pos (x ∷ xs) = omega (arith, small pos x, tally-le small (suc pos) xs)
