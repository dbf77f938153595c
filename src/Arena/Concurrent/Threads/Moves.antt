-- ===== src/Arena/Concurrent/Threads/Moves.antt =====
-- The steps that change no data, one for each point of a call.
use cs.Base.{ℕ, ◌/◌, ◌^◌, ◌≤◌, ◌<◌, refl, true, false, length, arith, inl, inr, ltb, ◌==◌}
use cs.SpinMutex.{lock_round, try_lock, unlock}
use cs.Arena.{Ptr}
use cs.Arena.Concurrent.{ConcurrentArena, get_shard, reset_shard, refill_size}
use cs.Arena.Concurrent.Regions.{get_shard-lt}
use cs.Arena.Concurrent.Calls.{refill_bounds}
use cs.Arena.Concurrent.Threads.{
  Memory, Event, Next, returns, cuts, Pc, idle, peeking, trying_arena, wait_arena, in_arena,
  at_shard, wait_shard, in_shard, wait_refill, loading, refilling, leaving_arena, cutting,
  leaving_shard, enter, put, move, shard, after_arena,
}
use cs.Arena.Concurrent.Threads.Locks.{put-cases}
use cs.Arena.Concurrent.Threads.Views.{SameCounters}
use cs.Arena.Concurrent.Threads.Invariant.{After}
use cs.Arena.Concurrent.Threads.Effects.{
  either, Before, Moves, same_data, goes_on, sets_arena, sets_shard,
}

module _ (m : Memory) (d : ConcurrentArena) {p : Pc} (b : Before m d p) where
  shard-lt : (cpu_id : ℕ) → get_shard m.arena cpu_id < length m.arena.shards
  unfolding get_shard
  shard-lt cpu_id = rw b.shape.1 (get_shard-lt d cpu_id m.given b.serving)

  reset-lt : (e : Event) → (reset_shard m.arena e.processor e.thread_hash).0 < length m.arena.shards
  unfolding reset_shard
  reset-lt e = shard-lt _

  loaded_bounds :
      (size : ℕ)
      → 0 < size
      → size ≤ m.arena.slab_slice_size / 4
      → SameCounters m.arena d
      → (0 < refill_size m.arena) × (size ≤ refill_size m.arena) × (refill_size m.arena < 2 ^ 64)
  unfolding refill_size
  loaded_bounds size pos le same =
      rw (same.1, b.shape.0) (refill_bounds d m.given b.serving size pos (rw b.shape.0 at le))

module _ (m : Memory) (d : ConcurrentArena) (cpu_id : ℕ) (e : Event) where
  abbrev Step : Pc → Type 0
  Step p = Before m d p → Moves m d cpu_id e p

  pub start_move : 0 < e.size → Step idle
  unfolding move enter
  start_move pos b =
      let to = After m d idle m d in
      (
        m,
        cpu_id,
        d,
        _,
        refl,
        either to (ltb (m.arena.slab_slice_size / 4) e.size) (wait_arena e.size) _
            (λ large. goes_on m d b (wait_arena e.size) pos refl (λ k. refl))
            (λ small.
              let fits : e.size ≤ m.arena.slab_slice_size / 4 = ground (arith, small) in
              either to (cpu_id == 0) (peeking e.size) (at_shard e.size (get_shard m.arena cpu_id))
                (λ first. goes_on m d b (peeking e.size) (pos, fits) refl (λ k. refl))
                (λ other.
                  goes_on m d b (at_shard e.size _) (pos, fits, shard-lt m d b cpu_id) refl
                    (λ k. refl))),
      )

  pub peeking_move : (size : ℕ) → Step (peeking size)
  unfolding move
  peeking_move size b = (
    m,
    cpu_id,
    d,
    _,
    refl,
    either (After m d (peeking size) m d) ((shard m (get_shard m.arena 0)).unused == 0)
        (trying_arena size) (at_shard size (get_shard m.arena cpu_id))
        (λ none_left. goes_on m d b (trying_arena size) b.view refl (λ k. refl))
        (λ some_left.
          goes_on m d b (at_shard size _) (b.view.0, b.view.1, shard-lt m d b cpu_id) refl
            (λ k. refl)),
  )

  pub trying_move : (size : ℕ) → Step (trying_arena size)
  unfolding move try_lock
  trying_move size b = (
    record m { arena_locked = true },
    cpu_id,
    d,
    _,
    refl,
    sets_arena m d b (in_arena size) (at_shard size (get_shard m.arena cpu_id)) refl refl refl
        (λ k. (refl, refl)) (λ same. (b.view.0, same)) (b.view.0, b.view.1, shard-lt m d b cpu_id),
  )

  pub wait_move : (size : ℕ) → Step (wait_arena size)
  unfolding move lock_round
  wait_move size b = (
    record m { arena_locked = true },
    cpu_id,
    d,
    _,
    refl,
    sets_arena m d b (in_arena size) (wait_arena size) refl refl refl (λ k. (refl, refl))
        (λ same. (b.view, same)) b.view,
  )

  pub wait_refill_move : (size k : ℕ) → Step (wait_refill size k)
  unfolding move lock_round
  wait_refill_move size k b = (
    record m { arena_locked = true },
    cpu_id,
    d,
    _,
    refl,
    sets_arena m d b (loading size k) (wait_refill size k) refl refl refl (λ j. (refl, refl))
        (λ same. (b.view.0, b.view.1, same)) b.view,
  )

  pub at_shard_move : (size k : ℕ) → Step (at_shard size k)
  unfolding move try_lock
  at_shard_move size k b = (
    record m { shard_locked = put k true m.shard_locked },
    _,
    d,
    _,
    refl,
    sets_shard m d b k (in_shard size k) (wait_shard size _) (refl, refl) (λ j. refl) (λ j. refl)
        (λ j. refl) (λ same. (b.view, same)) (b.view.0, b.view.1, reset-lt m d b e),
  )

  pub wait_shard_move : (size k : ℕ) → Step (wait_shard size k)
  unfolding move lock_round
  wait_shard_move size k b = (
    record m { shard_locked = put k true m.shard_locked },
    cpu_id,
    d,
    _,
    refl,
    sets_shard m d b k (in_shard size k) (wait_shard size k) (refl, refl) (λ j. refl) (λ j. refl)
        (λ j. refl) (λ same. (b.view, same)) b.view,
  )

  pub in_shard_move : (size k : ℕ) → Step (in_shard size k)
  unfolding move
  in_shard_move size k b = (
    m,
    cpu_id,
    d,
    _,
    refl,
    either (After m d (in_shard size k) m d) (ltb (shard m k).unused size) (wait_refill size k)
        (cutting size k (shard m k).unused)
        (λ short. goes_on m d b (wait_refill size k) b.view refl (λ j. refl))
        (λ enough.
          goes_on m d b (cutting size k _)
            (b.view.0, ground (arith, b.view.1), ground (arith, b.view.1), ground (arith, enough))
            refl (λ j. refl)),
  )

  pub loading_move : (size k : ℕ) → Step (loading size k)
  unfolding move
  loading_move size k b =
      let (fits, clean, same) = b.view in
      let (pos, enough, small) = loaded_bounds m d b size fits.0 fits.1 same in
      (
        m,
        cpu_id,
        d,
        refilling size k (refill_size m.arena),
        refl,
        goes_on m d b (refilling size k (refill_size m.arena))
            (fits, clean, pos, enough, small, same) refl (λ j. refl),
      )

  left_arena :
      (next : Next)
      → Before m d (leaving_arena next)
      → After m d (leaving_arena next) (record m { arena_locked = false }) d (after_arena next)
  unfolding after_arena
  left_arena (returns rv) b =
      same_data m d b idle false m.shard_locked tt (inr (inr (refl, refl, refl)))
        (λ k. inl (refl, refl)) (λ h. b.view.1) b.free_shard
  left_arena (cuts size k n) b =
      same_data m d b (cutting size k n) false m.shard_locked b.view.0
        (inr (inr (refl, refl, refl))) (λ j. inl (refl, refl)) (λ h. b.view.1) b.free_shard

  pub leaving_arena_move : (next : Next) → Step (leaving_arena next)
  unfolding move unlock
  leaving_arena_move next b =
      (record m { arena_locked = false }, cpu_id, d, after_arena next, refl, left_arena next b)

  pub leaving_shard_move : (k : ℕ) (rv : Ptr) → Step (leaving_shard k rv)
  unfolding move unlock
  leaving_shard_move k rv b = (
    record m { shard_locked = put k false m.shard_locked },
    cpu_id,
    d,
    idle,
    refl,
    same_data m d b idle m.arena_locked (put k false m.shard_locked) tt (inl (refl, refl))
        (λ j. ground (arith, put-cases k false m.shard_locked j)) b.free_arena
        (λ j h. ground (arith, put-cases k false m.shard_locked j, b.free_shard j, b.view)),
  )
