-- ===== src/Arena/Concurrent/Threads/Safety.antt =====
-- The arena stays sound however the steps of the threads are interleaved.
use mathlib.Core.Bool.{true≢false}
use cs.Base.{
  sym, ◌∙◌, inl, inr, Bool-cases, ℕ, ◌%◌, ◌^◌, ◌≡◌, ◌≤◌, ◌<◌, refl, true, false, some, List, [],
  ◌∷◌, All,
}
use cs.Arena.Blocks.{IsInside, AllApart}
use cs.Arena.Splitting.{drop_regions}
use cs.Arena.Concurrent.{ConcurrentArena, new_concurrent}
use cs.Arena.Concurrent.Regions.{regions, IsServing}
use cs.Arena.Concurrent.Start.{new_concurrent-IsServing}
use cs.Arena.Concurrent.Threads.{
  Memory, Event, Pc, idle, peeking, trying_arena, wait_arena, in_arena, at_shard, wait_shard,
  in_shard, wait_refill, loading, refilling, storing_used, storing_unused, storing_size,
  leaving_arena, cutting, taking, leaving_shard, System, put, step, run_steps, new_system,
}
use cs.Arena.Concurrent.Threads.Views.{owns_arena, owns_shard}
use cs.Arena.Concurrent.Threads.Invariant.{Inv, Inv-step}
use cs.Arena.Concurrent.Threads.Effects.{Before, Moves}
use cs.Arena.Concurrent.Threads.Moves
use cs.Arena.Concurrent.Threads.Stores
use cs.Arena.Concurrent.Threads.Cuts

any_move :
    (m : Memory) (d : ConcurrentArena) (cpu_id : ℕ) (e : Event) (p : Pc)
    → 0 < e.size
    → Before m d p
    → Moves m d cpu_id e p
any_move m d cpu_id e idle pos b = Moves.start_move m d cpu_id e pos b
any_move m d cpu_id e (peeking size) pos b = Moves.peeking_move m d cpu_id e size b
any_move m d cpu_id e (trying_arena size) pos b = Moves.trying_move m d cpu_id e size b
any_move m d cpu_id e (wait_arena size) pos b = Moves.wait_move m d cpu_id e size b
any_move m d cpu_id e (in_arena size) pos b = Stores.in_arena_move m d cpu_id e size b
any_move m d cpu_id e (at_shard size k) pos b = Moves.at_shard_move m d cpu_id e size k b
any_move m d cpu_id e (wait_shard size k) pos b = Moves.wait_shard_move m d cpu_id e size k b
any_move m d cpu_id e (in_shard size k) pos b = Moves.in_shard_move m d cpu_id e size k b
any_move m d cpu_id e (wait_refill size k) pos b = Moves.wait_refill_move m d cpu_id e size k b
any_move m d cpu_id e (loading size k) pos b = Moves.loading_move m d cpu_id e size k b
any_move m d cpu_id e (refilling size k n) pos b = Cuts.refilling_move m d cpu_id e size k n b
any_move m d cpu_id e (storing_used next) pos b = Stores.storing_used_move m d cpu_id e next b
any_move m d cpu_id e (storing_unused next) pos b = Stores.storing_unused_move m d cpu_id e next b
any_move m d cpu_id e (storing_size next) pos b = Stores.storing_size_move m d cpu_id e next b
any_move m d cpu_id e (leaving_arena next) pos b = Moves.leaving_arena_move m d cpu_id e next b
any_move m d cpu_id e (cutting size k n) pos b = Cuts.cutting_move m d cpu_id e size k n b
any_move m d cpu_id e (taking size k n) pos b = Cuts.taking_move m d cpu_id e size k n b
any_move m d cpu_id e (leaving_shard k rv) pos b = Moves.leaving_shard_move m d cpu_id e k rv b

abbrev pub IsRunning : System → Type 0
IsRunning s = (d : ConcurrentArena) × Inv s.memory d s.pc

pub step-IsRunning :
    (s : System) (i : ℕ) (e : Event)
    → 0 < e.size
    → IsRunning s
    → (s' : System) × (step s i e ≡ some s') × IsRunning s'
unfolding step
step-IsRunning s i e pos (d, inv) =
    let before : Before s.memory d (s.pc i) = record {
      serving = inv.serving;
      same_arena = inv.same_arena;
      shape = inv.shape;
      view = inv.views i;
      held_arena = inv.arena_mutex.held i;
      held_shard = λ k. (inv.shard_mutex k).held i;
      free_arena = inv.free_arena;
      free_shard = inv.free_shard;
    } in
    let (m, cpu_id, d', p, moved, after) = any_move s.memory d (s.cpu_id i) e (s.pc i) pos before in
    (
      record { memory = m; cpu_id = put i cpu_id s.cpu_id; pc = put i p s.pc },
      rw (moved, step) refl,
      (d', Inv-step inv i after),
    )

pub run_steps-IsRunning :
    (steps : List (ℕ × Event)) (s : System)
    → IsRunning s
    → All (λ turn. 0 < turn.1.size) steps
    → (s' : System) × (run_steps s steps ≡ some s') × IsRunning s'
unfolding run_steps
run_steps-IsRunning [] s running pos = (s, refl, running)
run_steps-IsRunning ((i, e) ∷ steps) s running pos =
    let (s', once, running') = step-IsRunning s i e pos.0 running in
    let (s'', rest, running'') = run_steps-IsRunning steps s' running' pos.1 in
    (s'', rw (once, run_steps) rest, running'')

pub new_system-IsRunning : (c : ConcurrentArena) → IsServing c [] → IsRunning (new_system c)
unfolding new_system
new_system-IsRunning c serving = (
  c,
  record {
    serving = serving;
    same_arena = refl;
    shape = (refl, refl);
    views = λ i. tt;
    arena_mutex = record { unique = λ i j h. cc; held = λ i h. cc; owner = λ h. cc };
    shard_mutex = λ k. record { unique = λ i j h. cc; held = λ i h. cc; owner = λ h. cc };
    free_arena = λ e. (refl, refl, refl);
    free_shard = λ k e. refl;
  },
)

-- With nobody holding the arena's mutex its counters have been copied.
settled :
    {m : Memory} {d : ConcurrentArena} {pc : ℕ → Pc}
    → Inv m d pc
    → ((i : ℕ) → owns_arena (pc i) ≡ false)
    → (m.arena.used ≡ m.arena.arena.used)
      × (m.arena.unused ≡ m.arena.arena.unused)
      × (m.arena.size ≡ m.arena.arena.size)
settled {m} inv nobody = elim (Bool-cases m.arena_locked) [
  | inl taken ↦
      let (i, own) = inv.arena_mutex.owner taken in absurd (true≢false (sym own ∙ nobody i))
  | inr free ↦
      let (used, unused, size) = inv.free_arena free in
      let (used', unused', size') = inv.serving.counted in
      rw inv.same_arena (used ∙ used', unused ∙ unused', size ∙ size')
]

-- With an alignment that divides 2 ^ 31, at most 2 ^ 32 processors and calls for at least one byte each,
-- threads that start in a new arena can make their steps in any order: none is undefined, all blocks
-- whose calls have fixed their result are inside their slabs, and any two are in different slabs or one
-- behind the other. Two threads never hold the arena's mutex, or that of one shard, at once; and while
-- nobody holds the arena's mutex, its atomic counters are the arena's.
pub run_steps-new_system :
    (align_unit num_cpus slab_size : ℕ) (steps : List (ℕ × Event))
    → 0 < align_unit
    → 2 ^ 31 % align_unit ≡ 0
    → num_cpus ≤ 2 ^ 32
    → All (λ turn. 0 < turn.1.size) steps
    → (s : System) × (run_steps (new_system (new_concurrent align_unit num_cpus slab_size)) steps
        ≡ some s)
      × All (IsInside s.memory.arena.arena.slabs) s.memory.given
      × AllApart s.memory.given
      × ((i j : ℕ) → owns_arena (s.pc i) ≡ true → owns_arena (s.pc j) ≡ true → i ≡ j)
      × ((i j k : ℕ) → owns_shard k (s.pc i) ≡ true → owns_shard k (s.pc j) ≡ true → i ≡ j)
      × (((i : ℕ) → owns_arena (s.pc i) ≡ false)
          → (s.memory.arena.used ≡ s.memory.arena.arena.used)
            × (s.memory.arena.unused ≡ s.memory.arena.arena.unused)
            × (s.memory.arena.size ≡ s.memory.arena.arena.size))
run_steps-new_system align_unit num_cpus slab_size steps pos div few positive =
    let c = new_concurrent align_unit num_cpus slab_size in
    let (s, ran, (d, inv)) =
      run_steps-IsRunning steps (new_system c)
        (new_system-IsRunning c
          (new_concurrent-IsServing align_unit num_cpus slab_size pos div few))
        positive in
    let sound = drop_regions d.arena (regions d.shards) s.memory.given inv.serving.sound in
    (
      s,
      ran,
      rw inv.same_arena sound.inside,
      sound.apart,
      inv.arena_mutex.unique,
      λ i j k. (inv.shard_mutex k).unique i j,
      settled inv,
    )
