-- ===== src/ArenaBench/Apart.antt =====
-- The benchmark of `ConcurrentArena` gets blocks inside the slabs and apart from one another.
use cs.Base.{ℕ, ◌%◌, ◌^◌, ◌≡◌, ◌<◌, ◌≤◌, refl, ap, suc, some, List, [], ◌∷◌, length, All}
use cs.Arena.{Ptr}
use cs.Arena.Blocks.{Block, block_at, IsInside, AllApart}
use cs.Arena.Splitting.{drop_regions}
use cs.Arena.Concurrent.{ConcurrentArena, Turn}
use cs.Arena.Concurrent.Regions.{IsServing, regions}
use cs.Arena.Concurrent.Calls.{concurrent_allocate-IsServing}
use cs.Arena.Concurrent.Start.{new_concurrent-IsServing}
use cs.Memtable.Memory.{◌>>=◌}
use cs.ArenaBench.{concurrent_rounds, arena_concurrent_arena_allocate}

-- The blocks of some pointers, with the last one first, before those of `bs`.
unfoldable blocks_of : ℕ → List Ptr → List Block → List Block
blocks_of size [] bs = bs
blocks_of size (p ∷ ptrs) bs = blocks_of size ptrs (block_at p size ∷ bs)

concurrent_rounds-IsServing :
    (size : ℕ) (some_bytes : 0 < size) (turns : List Turn) (c : ConcurrentArena) (bs : List Block)
    → IsServing c bs
    → (ptrs : List Ptr) × (c' : ConcurrentArena) × (concurrent_rounds size c turns
        ≡ some (ptrs, c'))
      × (length ptrs ≡ length turns)
      × IsServing c' (blocks_of size ptrs bs)
unfolding concurrent_rounds blocks_of
concurrent_rounds-IsServing size some_bytes [] c bs serving = ([], c, refl, refl, serving)
concurrent_rounds-IsServing size some_bytes (t ∷ turns) c bs serving =
    let (p, c', cpu_id, run, serving') =
      concurrent_allocate-IsServing c bs serving t size some_bytes in
    let (ptrs, c'', runs, count, serving'') =
      concurrent_rounds-IsServing size some_bytes turns c' _ serving' in
    (p ∷ ptrs, c'', rw (run, ◌>>=◌, runs) refl, ap suc count, serving'')

-- With an alignment that divides 2 ^ 31, at most 2 ^ 32 processors, a size of at least one byte and
-- any turns, the benchmark of `ConcurrentArena` gets a pointer for each turn, and the blocks there
-- are inside their slabs, any two of them in different slabs or one behind the other.
arena_concurrent_arena_allocate-apart :
    (align_unit num_cpus size : ℕ) (turns : List Turn)
    → 0 < align_unit
    → 2 ^ 31 % align_unit ≡ 0
    → num_cpus ≤ 2 ^ 32
    → 0 < size
    → (ptrs : List Ptr) × (c : ConcurrentArena) × (arena_concurrent_arena_allocate align_unit
          num_cpus size turns
        ≡ some (ptrs, c))
      × (length ptrs ≡ length turns)
      × All (IsInside c.arena.slabs) (blocks_of size ptrs [])
      × AllApart (blocks_of size ptrs [])
unfolding arena_concurrent_arena_allocate
arena_concurrent_arena_allocate-apart align_unit num_cpus size turns pos div few some_bytes =
    let (ptrs, c, run, count, serving) =
      concurrent_rounds-IsServing size some_bytes turns _ []
        (new_concurrent-IsServing align_unit num_cpus (2 ^ 20) pos div few) in
    let sound = drop_regions c.arena (regions c.shards) _ serving.sound in
    (ptrs, c, run, count, sound.inside, sound.apart)
