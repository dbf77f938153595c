-- ===== src/Arena/Concurrent/Threads/Invariant.antt =====
-- What holds of all threads inside `ConcurrentArena::allocate`, and what one step of one thread has to
-- show for it to stay. `d` is what the arena comes to when the stores under way are done.
use cs.Base.{ℕ, ◌≡◌, false, arith, inl, inr, ◌≢◌}
use cs.Arena.Concurrent.{ConcurrentArena}
use cs.Arena.Concurrent.Regions.{IsServing}
use cs.Arena.Concurrent.Threads.{Memory, Pc, put}
use cs.Arena.Concurrent.Threads.Locks.{Exclusive, Handover, put-cases, Exclusive-step}
use cs.Arena.Concurrent.Threads.Views.{
  owns_arena, owns_shard, at, SameCounters, SameShard, SameShape, View, View-Kept,
}

pub record Inv (m : Memory) (d : ConcurrentArena) (pc : ℕ → Pc) : Type 0 where
  pub serving : IsServing d m.given
  pub same_arena : m.arena.arena ≡ d.arena
  pub shape : SameShape m.arena d
  pub views : (i : ℕ) → View m.arena d (pc i)
  pub arena_mutex : Exclusive (λ i. owns_arena (pc i)) m.arena_locked
  pub shard_mutex : (k : ℕ) → Exclusive (λ i. owns_shard k (pc i)) (m.shard_locked k)
  pub free_arena : m.arena_locked ≡ false → SameCounters m.arena d
  pub free_shard : (k : ℕ) → m.shard_locked k ≡ false → SameShard m.arena d k

-- A step of a thread from `p` to `p'`.
pub record After (m : Memory) (d : ConcurrentArena) (p : Pc) (m' : Memory) (d' : ConcurrentArena)
    (p' : Pc) : Type 0 where
  pub serving : IsServing d' m'.given
  pub same_arena : m'.arena.arena ≡ d'.arena
  pub shape : SameShape m'.arena d'
  pub static : SameShape m'.arena m.arena
  pub view : View m'.arena d' p'
  pub arena_mutex : Handover m.arena_locked (owns_arena p) m'.arena_locked (owns_arena p')
  pub shard_mutex :
      (k : ℕ) → Handover (m.shard_locked k) (owns_shard k p) (m'.shard_locked k) (owns_shard k p')
  pub free_arena : m'.arena_locked ≡ false → SameCounters m'.arena d'
  pub free_shard : (k : ℕ) → m'.shard_locked k ≡ false → SameShard m'.arena d' k
  -- Without the mutex nothing that it guards is changed.
  pub counters : owns_arena p ≡ false → SameCounters m'.arena m.arena × SameCounters d' d
  pub shards :
      (k : ℕ) → owns_shard k p ≡ false → (at m'.arena k ≡ at m.arena k) × (at d' k ≡ at d k)

module _ {m : Memory} {d : ConcurrentArena} {pc : ℕ → Pc} (inv : Inv m d pc) (i : ℕ) {m' : Memory}
    {d' : ConcurrentArena} {p' : Pc} (after : After m d (pc i) m' d' p') where
  -- A thread that owns a mutex keeps what it guards from the others.
  other_view : (j : ℕ) → j ≢ i → View m'.arena d' (pc j)
  other_view j ne =
      View-Kept m.arena d m'.arena d' after.static (pc j)
        (λ own. after.counters (ground (arith, inv.arena_mutex.unique j i)))
        (λ k own. after.shards k (ground (arith, (inv.shard_mutex k).unique j i))) (inv.views j)

  pub Inv-step : Inv m' d' (put i p' pc)
  Inv-step = record {
    serving = after.serving;
    same_arena = after.same_arena;
    shape = after.shape;
    views = λ j. elim (put-cases i p' pc j) [
      | inl (here, now) ↦ rw now after.view
      | inr (other, now) ↦ rw now (other_view j other)
    ];
    arena_mutex =
        Exclusive-step owns_arena pc i p' m.arena_locked m'.arena_locked inv.arena_mutex
          after.arena_mutex;
    shard_mutex = λ k.
        Exclusive-step (owns_shard k) pc i p' (m.shard_locked k) (m'.shard_locked k)
          (inv.shard_mutex k) (after.shard_mutex k);
    free_arena = after.free_arena;
    free_shard = after.free_shard;
  }
