-- ===== src/Arena/Concurrent/Examples.antt =====
-- The concurrent arena on small inputs, some of them those of mousedb/src/arena.test.cpp.
use cs.Base.{ℕ, ◌-◌, ◌≡◌, refl, true, false, Option, none, some, List, [], ◌∷◌, length, All, arith}
use cs.Arena.{allocate}
use cs.Arena.Blocks.{Block, IsInside, AllApart}
use cs.Arena.Concurrent.{
  ConcurrentArena, Turn, new_concurrent, concurrent_allocate, arena_allocate, shard_allocate,
  takes_arena, pick_shard, round_up_to_power_of_two,
}
use cs.Arena.Concurrent.Calls.{run_calls}
use cs.Arena.Concurrent.Start.{run_calls-new_concurrent}

round_up_to_six : round_up_to_power_of_two 6 ≡ 8
unfolding round_up_to_power_of_two
round_up_to_six = refl

abbrev first_thread : Turn
first_thread = record {
  cpu_id = 0;
  arena_free = true;
  shard_free = true;
  processor = 0;
  thread_hash = 0;
}

-- It finds both mutexes locked and runs on processor 3.
abbrev late_thread : Turn
late_thread = record {
  cpu_id = 0;
  arena_free = false;
  shard_free = false;
  processor = 3;
  thread_hash = 0;
}

abbrev blocks_of : Option (List Block × ConcurrentArena) → List (ℕ × ℕ)
blocks_of none = []
blocks_of (some (bs, c)) = pairs bs
  where
    pairs : List Block → List (ℕ × ℕ)
    pairs [] = []
    pairs (b ∷ bs) = (b.slab, b.offset) ∷ pairs bs

abbrev unused_of : Option (List Block × ConcurrentArena) → ℕ
unused_of none = 0
unused_of (some (bs, c)) = c.unused

abbrev calls : List (Turn × ℕ)
calls = (first_thread, 100) ∷ (first_thread, 200) ∷ (late_thread, 50) ∷ (late_thread, 60) ∷ []

multiple_allocations :
    unused_of
      (run_calls (new_concurrent 16 8 4096) [] ((first_thread, 100) ∷ (first_thread, 200) ∷ []))
    ≡ 4096 - 300
unfolding run_calls new_concurrent concurrent_allocate arena_allocate shard_allocate takes_arena
    pick_shard allocate
multiple_allocations = refl

-- The third call takes 512 bytes for the shard of processor 3, and the fourth one cuts its own out of them.
shared_slice :
    blocks_of (run_calls (new_concurrent 16 8 4096) [] calls)
    ≡ (0, 350) ∷ (0, 300) ∷ (0, 100) ∷ (0, 0) ∷ []
unfolding run_calls new_concurrent concurrent_allocate arena_allocate shard_allocate takes_arena
    pick_shard allocate
shared_slice = refl

run_calls-new_concurrent_example :
    (bs : List Block) × (c : ConcurrentArena) × (run_calls (new_concurrent 16 8 4096) [] calls
      ≡ some (bs, c))
    × (length bs ≡ length calls)
    × All (IsInside c.arena.slabs) bs
    × AllApart bs
    × (c.used ≡ c.arena.used)
    × (c.unused ≡ c.arena.unused)
    × (c.size ≡ c.arena.size)
run_calls-new_concurrent_example =
    run_calls-new_concurrent 16 8 4096 calls (omega arith) refl (omega arith) (omega arith)
