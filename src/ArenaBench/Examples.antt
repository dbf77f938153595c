-- ===== src/ArenaBench/Examples.antt =====
-- The benchmark of `Arena` for a size that fits 256 times into a slab.
use cs.Base.{◌+◌, ◌-◌, ◌/◌, ◌^◌, ◌≡◌, refl, some, [], ◌∷◌, length, arith}
use cs.Arena.{Arena}
use cs.ArenaBench.{arena_arena_allocate}
use cs.ArenaBench.Packed.{places, arena_arena_allocate-places}

three_places :
    places (2 ^ 19) 2 0 3
    ≡ record { slab = 0; offset = 0 }
      ∷ record { slab = 0; offset = 2 ^ 19 }
      ∷ record { slab = 1; offset = 0 }
      ∷ []
unfolding places
three_places = refl

arena_arena_allocate-places_example :
    (a : Arena) × (arena_arena_allocate 16 4096 300 ≡ some (places 4096 256 0 300, a))
    × (length a.slabs ≡ (300 + (256 - 1)) / 256)
arena_arena_allocate-places_example =
    arena_arena_allocate-places 4096 256 refl (omega arith) (omega arith) 16 300 refl
