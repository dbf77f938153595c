-- ===== src/Arena/Examples.antt =====
-- The arena on small inputs, some of them those of mousedb/src/arena.test.cpp.
use cs.Base.{
  ℕ, ◌+◌, ◌-◌, ◌%◌, ◌^◌, ◌≤◌, ◌≡◌, refl, min, Option, none, some, List, [], ◌∷◌, length, All, arith,
}
use cs.Arena.{optimize_slab_size, new_arena, Arena, allocate}
use cs.Arena.SlabSize.{optimize_slab_size_bounds}
use cs.Arena.Blocks.{Request, piece, Block, serve, run, IsInside, AllApart, run-new_arena}
use cs.Arena.Account.{total, recounts, run-new_arena_counts}

abbrev counters : Option (List Block × Arena) → ℕ × ℕ × ℕ
counters none = (0, 0, 0)
counters (some (bs, a)) = (a.used, a.unused, a.size)

abbrev requests : List Request
requests = piece 100 ∷ piece 200 ∷ []

multiple_allocations : counters (run (new_arena 16 4096) [] requests) ≡ (300, 4096 - 300, 4096)
unfolding run new_arena serve allocate
multiple_allocations = refl

exact_slab_size : counters (run (new_arena 16 4096) [] (piece 4096 ∷ [])) ≡ (4096, 0, 4096)
unfolding run new_arena serve allocate
exact_slab_size = refl

-- The second request gives up a slab with 3096 bytes left in it, which `unused` counts twice.
abbrev give_up : List Request
give_up = piece 1000 ∷ piece 4000 ∷ []

given_up : counters (run (new_arena 16 4096) [] give_up) ≡ (5000, 3192 + 3096, 8192)
unfolding run new_arena serve allocate
given_up = refl

optimize_slab_size_bounds_example :
    (4096 ≤ optimize_slab_size 16 5001)
    × (optimize_slab_size 16 5001 ≤ 2 ^ 31)
    × (optimize_slab_size 16 5001 % 16 ≡ 0)
    × (min 5001 (2 ^ 31) ≤ optimize_slab_size 16 5001)
    × (optimize_slab_size 16 (optimize_slab_size 16 5001) ≡ optimize_slab_size 16 5001)
optimize_slab_size_bounds_example = optimize_slab_size_bounds 16 5001 (omega arith) refl

run-new_arena_example :
    (bs : List Block) × (a : Arena) × (run (new_arena 16 4096) [] give_up ≡ some (bs, a))
    × (length bs ≡ length give_up)
    × All (IsInside a.slabs) bs
    × AllApart bs
run-new_arena_example =
    run-new_arena 16 4096 give_up (omega arith) refl (omega arith, (omega arith, tt))

run-new_arena_counts_example :
    (bs : List Block) × (a : Arena) × (run (new_arena 16 4096) [] give_up ≡ some (bs, a))
    × (a.used ≡ total give_up)
    × (a.used + a.unused ≡ a.size + recounts (new_arena 16 4096) give_up)
run-new_arena_counts_example =
    run-new_arena_counts 16 4096 give_up (omega arith) refl (omega arith, (omega arith, tt))
      (omega arith)
