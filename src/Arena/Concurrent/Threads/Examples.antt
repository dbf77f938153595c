-- ===== src/Arena/Concurrent/Threads/Examples.antt =====
-- Two threads in the arena at once: the second one finds the arena's mutex taken, turns to a shard, and
-- waits for the mutex again to refill it.
use cs.Base.{
  ℕ, ◌*◌, ◌≡◌, ◌≤◌, ◌<◌, refl, true, false, Option, none, some, List, [], ◌∷◌, ◌++◌, length, All,
  arith, replicate,
}
use cs.Arena.{allocate}
use cs.Arena.Blocks.{Block, IsInside, AllApart}
use cs.SpinMutex.{lock_round, try_lock, unlock}
use cs.Arena.Concurrent.{new_concurrent, get_shard, reset_shard, refill_size}
use cs.Arena.Concurrent.Threads.{Event, System, run_steps, new_system, Pc, wait_refill}
use cs.Arena.Concurrent.Threads.Views.{owns_arena, owns_shard}
use cs.Arena.Concurrent.Threads.Progress.{in_call}
use cs.Arena.Concurrent.Threads.Safety.{run_steps-new_system}
use cs.Arena.Concurrent.Threads.Completion.{run_steps-completes}

abbrev turn : ℕ → ℕ → ℕ × Event
turn i size = (i, record { size = size; processor = 1; thread_hash = 7 })

abbrev both_inside : List (ℕ × Event)
both_inside =
    turn 0 100
    ∷ turn 1 50
    ∷ turn 0 1
    ∷ turn 1 1
    ∷ turn 0 1
    ∷ turn 1 1
    ∷ turn 1 1
    ∷ turn 1 1
    ∷ turn 1 1
    ∷ []

abbrev to_the_end : List (ℕ × Event)
to_the_end = both_inside ++ replicate 5 (turn 0 1) ++ replicate 10 (turn 1 1)

abbrev given_of : Option System → List (ℕ × ℕ × ℕ)
given_of none = []
given_of (some s) = triples s.memory.given
  where
    triples : List Block → List (ℕ × ℕ × ℕ)
    triples [] = []
    triples (b ∷ bs) = (b.slab, b.offset, b.bytes) ∷ triples bs

abbrev pc_of : Option System → ℕ → Pc
pc_of none i = Pc.idle
pc_of (some s) i = s.pc i

-- The first thread owns the arena's mutex, and the second one, with a shard's, waits for it.
second_waits :
    pc_of (run_steps (new_system (new_concurrent 16 2 4096)) both_inside) 1 ≡ wait_refill 50 0
unfolding run_steps new_system new_concurrent get_shard try_lock lock_round
second_waits = refl

-- The slice of 512 bytes for the shard stands behind the first thread's block.
both_served :
    given_of (run_steps (new_system (new_concurrent 16 2 4096)) to_the_end)
    ≡ (0, 100, 50) ∷ (0, 0, 100) ∷ []
unfolding run_steps new_system new_concurrent get_shard reset_shard refill_size try_lock lock_round
    unlock allocate
both_served = refl

run_steps-new_system_example :
    (s : System) × (run_steps (new_system (new_concurrent 16 2 4096)) to_the_end ≡ some s)
    × All (IsInside s.memory.arena.arena.slabs) s.memory.given
    × AllApart s.memory.given
    × ((i j : ℕ) → owns_arena (s.pc i) ≡ true → owns_arena (s.pc j) ≡ true → i ≡ j)
    × ((i j k : ℕ) → owns_shard k (s.pc i) ≡ true → owns_shard k (s.pc j) ≡ true → i ≡ j)
    × (((i : ℕ) → owns_arena (s.pc i) ≡ false)
        → (s.memory.arena.used ≡ s.memory.arena.arena.used)
          × (s.memory.arena.unused ≡ s.memory.arena.arena.unused)
          × (s.memory.arena.size ≡ s.memory.arena.arena.size))
run_steps-new_system_example =
    run_steps-new_system 16 2 4096 to_the_end (omega arith) refl (omega arith) (omega arith)

run_steps-completes_example :
    (s : System) × (run_steps (new_system (new_concurrent 16 2 4096)) both_inside ≡ some s)
    × (rest : List (ℕ × Event)) × (s' : System) × (run_steps s rest ≡ some s')
    × (length rest ≤ 15 * 2)
    × All (λ turn. turn.0 < 2) rest
    × ((i : ℕ) → in_call (s'.pc i) ≡ false)
run_steps-completes_example =
    run_steps-completes 16 2 4096 2 both_inside (omega arith) refl (omega arith) (omega arith)
