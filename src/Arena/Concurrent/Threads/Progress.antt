-- ===== src/Arena/Concurrent/Threads/Progress.antt =====
-- No deadlock: a thread holds a shard's mutex while it waits for the arena's, never the other way round.
use cs.Base.{ℕ, ◌≡◌, ◌<◌, Bool, true, false, some, arith, Bool-cases, inl, inr, ◌⊎◌}
use cs.SpinMutex.{lock_round, try_lock}
use cs.Arena.Concurrent.{ConcurrentArena}
use cs.Arena.Concurrent.Threads.{
  Memory, Event, returns, cuts, Pc, idle, peeking, trying_arena, wait_arena, in_arena, at_shard,
  wait_shard, in_shard, wait_refill, loading, refilling, storing_used, storing_unused, storing_size,
  leaving_arena, cutting, taking, leaving_shard, move, after_arena,
}
use cs.Arena.Concurrent.Threads.Views.{owns_arena, owns_shard}
use cs.Arena.Concurrent.Threads.Invariant.{Inv}

-- Whether the next step of a thread is a round of a `lock` that fails.
abbrev pub spins : Memory → Pc → Bool
spins m (wait_arena _) = m.arena_locked
spins m (wait_refill _ _) = m.arena_locked
spins m (wait_shard _ k) = m.shard_locked k
spins m _ = false

abbrev pub in_call : Pc → Bool
in_call idle = false
in_call _ = true

-- The steps that are left when no more rounds fail.
abbrev pub steps_left : Pc → ℕ
steps_left idle = 0
steps_left (leaving_shard _ _) = 1
steps_left (taking _ _ _) = 2
steps_left (cutting _ _ _) = 3
steps_left (leaving_arena (returns _)) = 1
steps_left (leaving_arena (cuts _ _ _)) = 4
steps_left (storing_size (returns _)) = 2
steps_left (storing_size (cuts _ _ _)) = 5
steps_left (storing_unused (returns _)) = 3
steps_left (storing_unused (cuts _ _ _)) = 6
steps_left (storing_used (returns _)) = 4
steps_left (storing_used (cuts _ _ _)) = 7
steps_left (in_arena _) = 5
steps_left (wait_arena _) = 6
steps_left (refilling _ _ _) = 8
steps_left (loading _ _) = 9
steps_left (wait_refill _ _) = 10
steps_left (in_shard _ _) = 11
steps_left (wait_shard _ _) = 12
steps_left (at_shard _ _) = 13
steps_left (trying_arena _) = 14
steps_left (peeking _) = 15

arena_owner : (m : Memory) (p : Pc) → owns_arena p ≡ true → (in_call p ≡ true) × (spins m p ≡ false)
arena_owner m p own = ground arith

shard_owner :
    (m : Memory) (k : ℕ) (p : Pc)
    → owns_shard k p ≡ true
    → (in_call p ≡ true) × (spins m p ≡ true → m.arena_locked ≡ true)
shard_owner m k p own = ground arith

-- What a thread waits for.
spins-cases :
    (m : Memory) (p : Pc)
    → spins m p ≡ true
    → (m.arena_locked ≡ true) ⊎ ((k : ℕ) × (m.shard_locked k ≡ true))
spins-cases m (wait_arena size) h = inl h
spins-cases m (wait_refill size k) h = inl h
spins-cases m (wait_shard size k) h = inr (k, h)
spins-cases m p h = absurd (ground arith)

module _ {m : Memory} {d : ConcurrentArena} {pc : ℕ → Pc} (inv : Inv m d pc) where
  abbrev SomeoneMoves : Type 0
  SomeoneMoves = (j : ℕ) × (in_call (pc j) ≡ true) × (spins m (pc j) ≡ false)

  arena_owner-moves : m.arena_locked ≡ true → SomeoneMoves
  arena_owner-moves taken =
      let (j, own) = inv.arena_mutex.owner taken in
      let (there, moves) = arena_owner m (pc j) own in (j, there, moves)

  shard_owner-moves : (k : ℕ) → m.shard_locked k ≡ true → SomeoneMoves
  shard_owner-moves k taken =
      let (j, own) = (inv.shard_mutex k).owner taken in
      let (there, waits) = shard_owner m k (pc j) own in
      elim (Bool-cases (spins m (pc j))) [
        | inl spinning ↦ arena_owner-moves (waits spinning)
        | inr moves ↦ (j, there, moves)
      ]

  -- While any thread is in a call, some thread in a call makes a step that is no failed round.
  pub someone_moves : (i : ℕ) → in_call (pc i) ≡ true → SomeoneMoves
  someone_moves i there = elim (Bool-cases (spins m (pc i))) [
    | inl spinning ↦ elim (spins-cases m (pc i) spinning) [
      | inl taken ↦ arena_owner-moves taken
      | inr (k, taken) ↦ shard_owner-moves k taken
    ]
    | inr moves ↦ (i, there, moves)
  ]

-- Every such step is one step less for its thread.
module _ (m : Memory) (e : Event) (cpu_id : ℕ) (m' : Memory) (cpu_id' : ℕ) (p' : Pc) where
  abbrev Descends : Pc → Type 0
  Descends p =
      in_call p ≡ true
      → spins m p ≡ false
      → move m e cpu_id p ≡ some (m', cpu_id', p')
      → steps_left p' < steps_left p

  pub move-steps_left : (p : Pc) → Descends p
  unfolding move lock_round try_lock after_arena
  move-steps_left idle there moves run = cc
  move-steps_left (storing_used (returns rv)) there moves run = ground arith
  move-steps_left (storing_used (cuts size k n)) there moves run = ground arith
  move-steps_left (storing_unused (returns rv)) there moves run = ground arith
  move-steps_left (storing_unused (cuts size k n)) there moves run = ground arith
  move-steps_left (storing_size (returns rv)) there moves run = ground arith
  move-steps_left (storing_size (cuts size k n)) there moves run = ground arith
  move-steps_left (leaving_arena (returns rv)) there moves run = ground arith
  move-steps_left (leaving_arena (cuts size k n)) there moves run = ground arith
  move-steps_left p there moves run = ground arith
