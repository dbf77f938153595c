-- ===== src/Arena/Packing.antt =====
-- Allocations of one size that divides the slab size: slab after slab, without a gap.
use native.Mathlib.Nat.{div-eq_of_lt-le, div-add-mod, mul-le-mul_right, suc-mul, zero-mul}
use native.Mathlib.Decide.{dec_lt}
use cs.Base.{
  ℕ, zero, suc, ◌+◌, ◌-◌, ◌*◌, ◌/◌, ◌%◌, ◌^◌, ◌≡◌, ◌<◌, ◌≤◌, refl, ap, Option, some, length,
  length-append, false, true, ltb, leb, arith,
}
use cs.Arena.{
  Ptr, Arena, new_arena, allocate, refill, slabify, bump, add64, sub64, optimize_slab_size,
}

module _ (size per : ℕ) where
  -- Where allocation number `i` of `size` bytes belongs, if a slab takes `per` of them.
  abbrev pub place : ℕ → Ptr
  place i = record { slab = i / per; offset = i % per * size }

  quotient : (q r : ℕ) → r < per → (q * per + r) / per ≡ q
  quotient q r lt =
      let next : (q + 1) * per ≡ q * per + per = grind arith in
      div-eq_of_lt-le per (omega arith) (omega (arith, next))

  pub place-at : (q r : ℕ) → r < per → place (q * per + r) ≡ record { slab = q; offset = r * size }
  place-at q r lt =
      let same = quotient q r lt in
      let parts = div-add-mod (q * per + r) per in
      let rest : (q * per + r) % per ≡ r = omega (arith, rw same at parts) in rw (same, rest) refl

  -- After some allocations that fill `q` slabs and `r` places of the next one.
  abbrev pub Packed : Arena → ℕ → ℕ → Type 0
  Packed a q zero = (a.slab_size ≡ 2 ^ 20) × (a.active_slab_unused ≡ 0) × (length a.slabs ≡ q)
  Packed a q (suc r) =
      (a.slab_size ≡ 2 ^ 20)
      × (a.active_slab_unused + suc r * size ≡ 2 ^ 20)
      × (length a.slabs ≡ suc q)
      × (a.active_slab ≡ some (record { slab = q; offset = 0 }))

  -- As many slabs as the allocations fill or begin.
  pub length-slabs :
      (a : Arena) (q r : ℕ)
      → r < per
      → Packed a q r
      → length a.slabs ≡ (q * per + r + (per - 1)) / per
  length-slabs a q zero lt (slab, unused, count) =
      let last : q * per + 0 + (per - 1) ≡ q * per + (per - 1) = omega arith in
      rw (count, last, quotient q (per - 1) (omega arith)) refl
  length-slabs a q (suc r) lt (slab, unused, count, active) =
      let next : suc q * per ≡ q * per + per = suc-mul q per in
      let same : q * per + suc r + (per - 1) ≡ suc q * per + r = omega (arith, next) in
      rw (count, same, quotient (suc q) r (omega arith)) refl

  module _ (full : per * size ≡ 2 ^ 20) (several : 1 < per) (some_bytes : 0 < size) where
    small : size < 2 ^ 20
    small = let h : 2 * size ≤ per * size = mul-le-mul_right size several in omega arith

    pub allocate-Packed :
        (a : Arena) (q r : ℕ)
        → r < per
        → Packed a q r
        → (a' : Arena) × (allocate a size ≡ some (record { slab = q; offset = r * size }, a'))
          × Packed a' q (suc r)
    unfolding allocate refill slabify bump
    allocate-Packed a q zero lt (slab, unused, count) =
        let none_left : zero * size ≡ 0 = zero-mul size in
        let one : suc zero * size ≡ zero * size + size = suc-mul zero size in
        let big : leb (2 ^ 20) size ≡ false = ground (arith, small) in
        let needs : ltb 0 size ≡ true = ground arith in
        (
          (refill (record a { used = add64 a.used size }) size).1,
          rw (slab, unused, big, needs, count, none_left) refl,
          (
            slab,
            rw slab (omega (arith, small)),
            rw (length-append a.slabs _, count) (omega arith),
            rw count refl,
          ),
        )
    allocate-Packed a q (suc r) lt (slab, unused, count, active) =
        let more : suc (suc r) * size ≡ suc r * size + size = suc-mul (suc r) size in
        let room : suc (suc r) * size ≤ per * size = mul-le-mul_right size lt in
        let big : leb a.slab_size size ≡ false = ground (arith, small) in
        let start : 0 + (a.slab_size - a.active_slab_unused) ≡ suc r * size = omega arith in
        let fits : ltb a.active_slab_unused size ≡ false = ground arith in
        (
          record a {
            used = add64 a.used size;
            active_slab_unused = sub64 a.active_slab_unused size;
            unused = sub64 a.unused size;
          },
          rw (big, fits, active, start)
              (ap
                (λ (s : Option Ptr). some (
                  record { slab = q; offset = suc r * size },
                  record a {
                    active_slab = s;
                    used = add64 a.used size;
                    active_slab_unused = sub64 a.active_slab_unused size;
                    unused = sub64 a.unused size;
                  },
                ))
                active),
          (slab, omega arith, count, active),
        )

    -- A full slab is one of those before the next place.
    pub next-Packed :
        (a : Arena) (q r : ℕ)
        → r < per
        → Packed a q (suc r)
        → (q' : ℕ) × (r' : ℕ) × (r' < per) × (q' * per + r' ≡ suc (q * per + r)) × Packed a q' r'
    next-Packed a q r lt packed = elim (dec_lt (suc r) per) [
      | yes h ↦ (q, suc r, h, omega arith, packed)
      | no h ↦
          let last : suc r ≡ per = omega arith in
          let (slab, unused, count, _) = packed in
          let used_up : suc r * size ≡ 2 ^ 20 = rw last full in
          let next : suc q * per ≡ q * per + per = suc-mul q per in
          (suc q, 0, omega arith, omega (arith, next), (slab, omega arith, count))
    ]

  pub new_arena-Packed :
      (align_unit : ℕ) → 2 ^ 20 % align_unit ≡ 0 → Packed (new_arena align_unit (2 ^ 20)) 0 0
  unfolding new_arena optimize_slab_size
  new_arena-Packed align_unit div = (rw div refl, refl, refl)
