-- ===== src/ArenaBench/Packed.antt =====
-- The benchmark of `Arena` fills its slabs without a gap.
use native.Mathlib.Nat.{zero-mul}
use cs.Base.{
  ℕ, zero, suc, ◌+◌, ◌-◌, ◌*◌, ◌/◌, ◌%◌, ◌^◌, ◌≡◌, ◌<◌, refl, some, List, [], ◌∷◌, length, arith,
}
use cs.Arena.{Ptr, Arena, new_arena}
use cs.Arena.Packing.{
  place, place-at, Packed, allocate-Packed, next-Packed, length-slabs, new_arena-Packed,
}
use cs.Memtable.Memory.{◌>>=◌}
use cs.ArenaBench.{arena_rounds, arena_arena_allocate}

-- The places of `n` allocations from number `i` on.
unfoldable pub places : ℕ → ℕ → ℕ → ℕ → List Ptr
places size per i zero = []
places size per i (suc n) = place size per i ∷ places size per (suc i) n

module _ (size per : ℕ) (full : per * size ≡ 2 ^ 20) (several : 1 < per)
    (some_bytes : 0 < size) where
  arena_rounds-places :
      (n q r : ℕ) (a : Arena)
      → r < per
      → Packed size per a q r
      → (a' : Arena) × (q' : ℕ) × (r' : ℕ) × (r' < per)
        × (arena_rounds size a n ≡ some (places size per (q * per + r) n, a'))
        × (q' * per + r' ≡ q * per + r + n)
        × Packed size per a' q' r'
  unfolding arena_rounds places
  arena_rounds-places zero q r a lt packed = (a, q, r, lt, refl, omega arith, packed)
  arena_rounds-places (suc n) q r a lt packed =
      let (a₁, run, packed₁) = allocate-Packed size per full several some_bytes a q r lt packed in
      let (q₁, r₁, lt₁, same, packed₂) =
        next-Packed size per full several some_bytes a₁ q r lt packed₁ in
      let (a', q', r', lt', runs, count, packed') = arena_rounds-places n q₁ r₁ a₁ lt₁ packed₂ in
      (
        a',
        q',
        r',
        lt',
        rw (run, ◌>>=◌, runs, same, place-at size per q r lt) refl,
        omega arith,
        packed',
      )

  -- For a size of which a slab of 2 ^ 20 bytes takes exactly `per`, more than one, and an alignment
  -- that divides 2 ^ 20: the benchmark of `Arena` gets its allocations one behind the other, the
  -- i-th one in slab i / per at i % per * size, and at the end there are just as many slabs as they fill or
  -- begin.
  pub arena_arena_allocate-places :
      (align_unit iterations : ℕ)
      → 2 ^ 20 % align_unit ≡ 0
      → (a : Arena) × (arena_arena_allocate align_unit size iterations
          ≡ some (places size per 0 iterations, a))
        × (length a.slabs ≡ (iterations + (per - 1)) / per)
  unfolding arena_arena_allocate
  arena_arena_allocate-places align_unit iterations div =
      let start = new_arena-Packed size per align_unit div in
      let (a, q, r, lt, run, count, packed) =
        arena_rounds-places iterations 0 0 (new_arena align_unit (2 ^ 20)) (omega arith) start in
      let none : 0 * per + 0 ≡ 0 = omega (arith, zero-mul per) in
      let all : q * per + r ≡ iterations = omega (arith, none) in
      (a, rw none at run, rw all at (length-slabs size per a q r lt packed))
