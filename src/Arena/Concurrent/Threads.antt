-- ===== src/Arena/Concurrent/Threads.antt =====
-- Threads inside `ConcurrentArena::allocate` of arena.cpp at the same time. A step is one access to
-- what threads share: an operation on a mutex, a load or a store of an atomic counter, or a use of
-- data that a mutex guards. Steps of different threads come in any order.
pub mod Locks
pub mod Views
pub mod Invariant
pub mod Effects
pub mod Moves
pub mod Stores
pub mod Cuts
pub mod Safety
pub mod Progress
pub mod Completion
mod Examples
use cs.Base.{
  ℕ, ◌+◌, ◌/◌, Bool, false, Option, none, some, List, [], ◌∷◌, get_or, set, ltb, ◌==◌,
  if◌then◌else◌,
}
use cs.SpinMutex.{lock_round, try_lock, unlock}
use cs.Arena.{Ptr, allocate, sub64}
use cs.Arena.Blocks.{Block, block_at}
use cs.Arena.Concurrent.{Shard, no_shard, ConcurrentArena, get_shard, reset_shard, refill_size}

pub record Memory : Type 0 where
  pub arena : ConcurrentArena
  -- the flags of `arena_mutex_` and of each shard's mutex
  pub arena_locked : Bool
  pub shard_locked : ℕ → Bool
  -- the block of each call whose result is fixed, the last one first
  pub given : List Block

abbrev pub shard : Memory → ℕ → Shard
shard m k = get_or m.arena.shards k no_shard

-- What follows an allocation from the arena: the call returns, or it cuts what the shard got.
pub data Next : Type 0 where
  returns : (rv : Ptr) → Next
  cuts : (size k shard_unused : ℕ) → Next

-- Where a thread stands, with the local variables that are live there; `k` is the index of `shard`.
pub data Pc : Type 0 where
  idle : Pc
  -- before the load of the first shard's `unused`, and before `arena_lock.try_lock`
  peeking trying_arena : (size : ℕ) → Pc
  -- in `arena_lock.lock`, and before `arena_.allocate(size)`
  wait_arena in_arena : (size : ℕ) → Pc
  -- before `shard->mutex.try_lock`, in `shard->mutex.lock`, before the load of `shard->unused`
  at_shard wait_shard in_shard : (size k : ℕ) → Pc
  -- in the lock of `reloaded_arena_lock`, and before the load of `unused_`
  wait_refill loading : (size k : ℕ) → Pc
  -- before `arena_.allocate(shard_unused)`
  refilling : (size k shard_unused : ℕ) → Pc
  -- before each store of `update`, and before the unlock of the arena
  storing_used storing_unused storing_size leaving_arena : Next → Pc
  -- before the store to `shard->unused`, and before the uses of `shard->begin`
  cutting taking : (size k shard_unused : ℕ) → Pc
  -- before the unlock of the shard
  leaving_shard : (k : ℕ) (rv : Ptr) → Pc

-- What a thread meets in a step: a call for `size` bytes, `sched_getcpu()`, the hash of its id.
pub record Event : Type 0 where
  pub size : ℕ
  pub processor : ℕ
  pub thread_hash : ℕ

-- Up to the first access of the call.
pub enter : ConcurrentArena → ℕ → ℕ → Pc
enter c cpu_id size =
    if ltb (c.slab_slice_size / 4) size
    then wait_arena size
    else if cpu_id == 0
    then peeking size
    else at_shard size (get_shard c cpu_id)

abbrev pub put {ℓ} : {A : Type ℓ} → ℕ → A → (ℕ → A) → ℕ → A
put i a f j = if j == i then a else f j

pub set_shard : Memory → ℕ → Shard → Memory
set_shard m k s = record m { arena = record m.arena { shards = set m.arena.shards k s } }

pub after_arena : Next → Pc
after_arena (returns rv) = idle
after_arena (cuts size k n) = cutting size k n

-- The shared memory, the thread's `cpu_id_` and its program counter after a step; `none` is undefined
-- behaviour: an allocation that is, or a pointer past `nullptr`.
pub move : Memory → Event → ℕ → Pc → Option (Memory × ℕ × Pc)
unfolding enter set_shard after_arena
move m e cpu_id idle = some (m, cpu_id, enter m.arena cpu_id e.size)
move m e cpu_id (peeking size) = some (
  m,
  cpu_id,
  if (shard m (get_shard m.arena 0)).unused == 0
      then trying_arena size
      else at_shard size (get_shard m.arena cpu_id),
)
move m e cpu_id (trying_arena size) = some (
  record m { arena_locked = (try_lock m.arena_locked).1 },
  cpu_id,
  if (try_lock m.arena_locked).0 then in_arena size else at_shard size (get_shard m.arena cpu_id),
)
move m e cpu_id (wait_arena size) = some (
  record m { arena_locked = (lock_round m.arena_locked).1 },
  cpu_id,
  if (lock_round m.arena_locked).0 then in_arena size else wait_arena size,
)
move m e cpu_id (in_arena size) = elim (allocate m.arena.arena size) [
  | none ↦ none
  | some (rv, a) ↦ some (
    record m { arena = record m.arena { arena = a }; given = block_at rv size ∷ m.given },
    cpu_id,
    storing_used (returns rv),
  )
]
move m e cpu_id (at_shard size k) =
    let (won, flag) = try_lock (m.shard_locked k) in
    let (j, cpu_id') = reset_shard m.arena e.processor e.thread_hash in
    some (
      record m { shard_locked = put k flag m.shard_locked },
      if won then cpu_id else cpu_id',
      if won then in_shard size k else wait_shard size j,
    )
move m e cpu_id (wait_shard size k) =
    let (won, flag) = lock_round (m.shard_locked k) in
    some (
      record m { shard_locked = put k flag m.shard_locked },
      cpu_id,
      if won then in_shard size k else wait_shard size k,
    )
move m e cpu_id (in_shard size k) =
    let shard_unused = (shard m k).unused in
    some
      (m, cpu_id, if ltb shard_unused size then wait_refill size k else cutting size k shard_unused)
move m e cpu_id (wait_refill size k) = some (
  record m { arena_locked = (lock_round m.arena_locked).1 },
  cpu_id,
  if (lock_round m.arena_locked).0 then loading size k else wait_refill size k,
)
move m e cpu_id (loading size k) = some (m, cpu_id, refilling size k (refill_size m.arena))
move m e cpu_id (refilling size k n) = elim (allocate m.arena.arena n) [
  | none ↦ none
  | some (p, a) ↦ some (
    set_shard (record m { arena = record m.arena { arena = a } }) k
        (record (shard m k) { begin = some p }),
    cpu_id,
    storing_used (cuts size k n),
  )
]
move m e cpu_id (storing_used next) =
    some (
      record m { arena = record m.arena { used = m.arena.arena.used } },
      cpu_id,
      storing_unused next,
    )
move m e cpu_id (storing_unused next) = some (
  record m { arena = record m.arena { unused = m.arena.arena.unused } },
  cpu_id,
  storing_size next,
)
move m e cpu_id (storing_size next) =
    some (
      record m { arena = record m.arena { size = m.arena.arena.size } },
      cpu_id,
      leaving_arena next,
    )
move m e cpu_id (leaving_arena next) =
    some (record m { arena_locked = unlock m.arena_locked }, cpu_id, after_arena next)
move m e cpu_id (cutting size k n) =
    some (set_shard m k (record (shard m k) { unused = sub64 n size }), cpu_id, taking size k n)
move m e cpu_id (taking size k n) = elim (shard m k).begin [
  | none ↦ none
  | some rv ↦ some (
    record (set_shard m k (record (shard m k) {
      begin = some (record { slab = rv.slab; offset = rv.offset + size });
    })) { given = block_at rv size ∷ m.given },
    cpu_id,
    leaving_shard k rv,
  )
]
move m e cpu_id (leaving_shard k rv) =
    some
      (record m { shard_locked = put k (unlock (m.shard_locked k)) m.shard_locked }, cpu_id, idle)

pub record System : Type 0 where
  pub memory : Memory
  pub cpu_id : ℕ → ℕ
  pub pc : ℕ → Pc

-- A step of thread `i`.
pub step : System → ℕ → Event → Option System
unfolding move
step s i e = elim (move s.memory e (s.cpu_id i) (s.pc i)) [
  | none ↦ none
  | some (m, cpu_id, pc) ↦
      some (record { memory = m; cpu_id = put i cpu_id s.cpu_id; pc = put i pc s.pc })
]

-- Steps of the threads named, in this order.
pub run_steps : System → List (ℕ × Event) → Option System
unfolding step
run_steps s [] = some s
run_steps s ((i, e) ∷ steps) = elim (step s i e) [ none ↦ none | some s' ↦ run_steps s' steps ]

-- A new arena, with no thread in a call.
pub new_system : ConcurrentArena → System
new_system c = record {
  memory = record { arena = c; arena_locked = false; shard_locked = λ k. false; given = [] };
  cpu_id = λ i. 0;
  pc = λ i. idle;
}
