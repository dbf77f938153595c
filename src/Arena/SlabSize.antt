-- ===== src/Arena/SlabSize.antt =====
-- The size of the slabs.
use native.Mathlib.Nat.{mod-lt, div-add-mod, mul-mod_left}
use native.Mathlib.Decide.{dec_lt}
use cs.Base.{ℕ, ◌+◌, ◌*◌, ◌/◌, ◌%◌, ◌^◌, ◌≤◌, ◌<◌, ◌≡◌, ◌≢◌, min, max, arith}
use cs.Arena.{optimize_slab_size}

clamp_bounds : (n : ℕ) → (4096 ≤ min (max n 4096) (2 ^ 31)) × (min (max n 4096) (2 ^ 31) ≤ 2 ^ 31)
clamp_bounds n = omega arith

quotient_below : (d m n : ℕ) → 0 < d → n ≤ m → m % d ≡ 0 → n % d ≢ 0 → n / d < m / d
quotient_below d m n pos le div rest = elim (dec_lt (n / d) (m / d)) [
  | yes h ↦ h
  | no h ↦
      let wide : m / d * d ≤ n / d * d = grind arith in
      absurd (omega (arith, div-add-mod n d, div-add-mod m d, wide))
]

round_up :
    (d m n : ℕ)
    → 0 < d
    → n ≤ m
    → m % d ≡ 0
    → n % d ≢ 0
    → (n < (1 + n / d) * d) × ((1 + n / d) * d ≤ m) × ((1 + n / d) * d % d ≡ 0)
round_up d m n pos le div rest =
    let below = quotient_below d m n pos le div rest in
    let wide : (1 + n / d) * d ≤ m / d * d = grind arith in
    (
      omega (arith, div-add-mod n d, mod-lt n pos),
      omega (arith, div-add-mod m d, wide),
      mul-mod_left (1 + n / d) d,
    )

-- For an alignment that divides 2 ^ 31, the slab size is a multiple of it from 4096 to 2 ^ 31; it is
-- at least the requested size, if that is at most 2 ^ 31; and it is its own slab size.
pub optimize_slab_size_bounds :
    (align_unit slab_size : ℕ)
    → 0 < align_unit
    → 2 ^ 31 % align_unit ≡ 0
    → (4096 ≤ optimize_slab_size align_unit slab_size)
      × (optimize_slab_size align_unit slab_size ≤ 2 ^ 31)
      × (optimize_slab_size align_unit slab_size % align_unit ≡ 0)
      × (min slab_size (2 ^ 31) ≤ optimize_slab_size align_unit slab_size)
      × (optimize_slab_size align_unit (optimize_slab_size align_unit slab_size)
          ≡ optimize_slab_size align_unit slab_size)
unfolding optimize_slab_size
optimize_slab_size_bounds align_unit slab_size pos div =
    let n = min (max slab_size 4096) (2 ^ 31) in
    ground (arith, clamp_bounds slab_size, round_up align_unit (2 ^ 31) n pos)
