-- ===== src/ArenaBench.antt =====
-- mousedb/src/arena.bench.cpp: what the benchmarks of the arenas do with them. A benchmark runs for the
-- number of iterations that the library chooses; each thread has an arena of its own. The result is
-- the pointers that it hands to `DoNotOptimize`, and the arena.
pub mod Packed
mod Apart
mod Examples
use cs.Base.{ℕ, zero, suc, ◌^◌, Option, none, some, List, [], ◌∷◌}
use cs.Arena.{Ptr, Arena, new_arena, allocate}
use cs.Arena.Concurrent.{ConcurrentArena, new_concurrent, Turn, concurrent_allocate}
use cs.Memtable.Memory.{◌>>=◌}

pub arena_rounds : ℕ → Arena → ℕ → Option (List Ptr × Arena)
arena_rounds size arena zero = some ([], arena)
arena_rounds size arena (suc iterations) = do
  (ptr, arena) ← allocate arena size
  (ptrs, arena) ← arena_rounds size arena iterations
  some (ptr ∷ ptrs, arena)

-- One iteration for each turn.
pub concurrent_rounds : ℕ → ConcurrentArena → List Turn → Option (List Ptr × ConcurrentArena)
concurrent_rounds size arena [] = some ([], arena)
concurrent_rounds size arena (t ∷ turns) = do
  (ptr, arena, _) ← concurrent_allocate arena t size
  (ptrs, arena) ← concurrent_rounds size arena turns
  some (ptr ∷ ptrs, arena)

pub arena_arena_allocate : ℕ → ℕ → ℕ → Option (List Ptr × Arena)
arena_arena_allocate align_unit size iterations =
    arena_rounds size (new_arena align_unit (2 ^ 20)) iterations

pub arena_concurrent_arena_allocate : ℕ → ℕ → ℕ → List Turn → Option (List Ptr × ConcurrentArena)
arena_concurrent_arena_allocate align_unit num_cpus size turns =
    concurrent_rounds size (new_concurrent align_unit num_cpus (2 ^ 20)) turns
