-- ===== src/Random/Cycle.antt =====
-- What the draws are, and from which seeds the generator works.
use cs.Base.{
  ℕ, ◌+◌, ◌*◌, ◌/◌, ◌%◌, ◌^◌, ◌≤◌, ◌<◌, ◌≡◌, bit_or, Bool, ◌⊎◌, ◌≢◌, ◌↔◌, arith, if◌then◌else◌,
}
use cs.Base.Bits.{bit_and_mask, bit_or_low}
use cs.Base.Words.{u64_mod}
use cs.Random.{Random, modulus, multiplier, fold_product, next32, next64}

-- The seeds from which every draw is a new non-zero residue.
abbrev pub IsLive : Random → Type 0
IsLive r = (0 < r.seed) × (r.seed < modulus)

fold-lt : (p : ℕ) → fold_product p < 2 ^ 32
unfolding fold_product
fold-lt p = omega arith

-- Bit 31 has the weight 1 modulo 2 ^ 31 - 1, so folding keeps the residue.
fold_residue : (p : ℕ) → p < 2 ^ 47 → fold_product p ≡ p / 2 ^ 31 + p % 2 ^ 31
unfolding fold_product
fold_residue p h = omega (arith, bit_and_mask 31 p)

step_seed : (r : Random) → r.seed < 2 ^ 32 → (next32 r).0.seed ≤ modulus
unfolding next32
step_seed r h = ground (arith, fold_residue (r.seed * multiplier) (omega arith), fold_product)

never_zero : (s : ℕ) → 0 < s → s < modulus → 0 < s * multiplier % modulus
never_zero s lo hi = omega arith

residue_injective :
    (s t : ℕ)
    → (0 < s) × (s < modulus)
    → (0 < t) × (t < modulus)
    → s * multiplier % modulus ≡ t * multiplier % modulus
    → s ≡ t
residue_injective s t hs ht e = omega arith

residue_moves : (s : ℕ) → 0 < s → s < modulus → s * multiplier % modulus ≢ s
residue_moves s lo hi e = omega arith

first_seed : (r : Random) → (next32 r).0.seed < 2 ^ 32
unfolding next32
first_seed r = ground (arith, fold-lt (r.seed * multiplier % 2 ^ 64))

-- A live generator steps by multiplication modulo 2 ^ 31 - 1, stays live, and returns its new seed.
pub next32-IsLive :
    (r : Random)
    → IsLive r
    → ((next32 r).0.seed ≡ r.seed * multiplier % modulus)
      × IsLive (next32 r).0
      × ((next32 r).1 ≡ (next32 r).0.seed)
unfolding next32
next32-IsLive r live =
    ground
      (arith, fold_residue (r.seed * multiplier) (omega arith), never_zero r.seed live.0 live.1)

-- Two live generators that step to one seed had one seed: the draws run through a permutation.
next32_injective :
    (r s : Random) → IsLive r → IsLive s → (next32 r).0.seed ≡ (next32 s).0.seed → r.seed ≡ s.seed
next32_injective r s hr hs e =
    residue_injective r.seed s.seed hr hs (omega (arith, next32-IsLive r hr, next32-IsLive s hs))

fixed_dead :
    (r : Random) → r.seed ≤ modulus → (next32 r).0.seed ≡ r.seed → (r.seed ≡ 0) ⊎ (r.seed ≡ modulus)
fixed_dead r h e = ground (arith, next32-IsLive r, residue_moves r.seed)

dead_fixed : (r : Random) → (r.seed ≡ 0) ⊎ (r.seed ≡ modulus) → (next32 r).0.seed ≡ r.seed
unfolding next32
dead_fixed r d = ground (arith, fold_residue (r.seed * multiplier))

-- A seed of at most 2 ^ 31 - 1 stays as it is under a step exactly if it is 0 or 2 ^ 31 - 1.
next32_stuck :
    (r : Random)
    → r.seed ≤ modulus
    → ((next32 r).0.seed ≡ r.seed) ↔ ((r.seed ≡ 0) ⊎ (r.seed ≡ modulus))
next32_stuck r h = (fixed_dead r h, dead_fixed r)

-- From any 64-bit seed, the seed is at most 2 ^ 31 - 1 after two draws.
next32_settles : (r : Random) → (next32 (next32 r).0).0.seed ≤ modulus
next32_settles r = step_seed (next32 r).0 (first_seed r)

join_halves : (a b : ℕ) → a < 2 ^ 31 → b < 2 ^ 31 → bit_or (a * 2 ^ 32 % u64_mod) b ≡ a * 2 ^ 32 + b
join_halves a b ha hb = ground (arith, bit_or_low 32 a b)

-- For a live generator the two halves of `next64` are two consecutive draws, each below 2 ^ 31,
-- so that bits 31 and 63 of the result are never set.
next64_halves :
    (high_first : Bool) (r : Random)
    → IsLive r
    → let a = (next32 r).1 in
      let b = (next32 (next32 r).0).1 in
      ((next64 high_first r).1 / 2 ^ 32 ≡ (if high_first then a else b))
      × ((next64 high_first r).1 % 2 ^ 32 ≡ (if high_first then b else a))
      × (a < 2 ^ 31)
      × (b < 2 ^ 31)
      × ((next64 high_first r).0 ≡ (next32 (next32 r).0).0)
unfolding next64
next64_halves high_first r live =
    let s = (next32 r).0 in
    let a = (next32 r).1 in
    let b = (next32 s).1 in
    ground (arith, next32-IsLive r, next32-IsLive s, join_halves a b, join_halves b a)
