-- ===== src/Arena/Concurrent/Threads/Stores.antt =====
-- The steps under the arena's mutex that change its counters, and the allocation of a call that a
-- shard does not serve.
use mathlib.Core.Bool.{true≢false}
use cs.Base.{ℕ, ◌≡◌, refl, sym, ◌∙◌, true, some, ◌∷◌, inl}
use cs.Arena.{allocate}
use cs.Arena.Blocks.{block_at}
use cs.Arena.Concurrent.{ConcurrentArena, update}
use cs.Arena.Concurrent.Calls.{arena_served}
use cs.Arena.Concurrent.Threads.{
  Memory, Event, Next, returns, Pc, in_arena, storing_used, storing_unused, storing_size,
  leaving_arena, move,
}
use cs.Arena.Concurrent.Threads.Views.{owns_arena, owns_shard, View, NextView, NextView-Kept}
use cs.Arena.Concurrent.Threads.Invariant.{After}
use cs.Arena.Concurrent.Threads.Effects.{Before, Moves}

module _ (m : Memory) (d : ConcurrentArena) {p : Pc} (b : Before m d p) where
  -- A store to the counters.
  stores :
      (p' : Pc) (used unused size : ℕ)
      → owns_arena p ≡ true
      → owns_arena p' ≡ true
      → ((k : ℕ) → owns_shard k p' ≡ owns_shard k p)
      → View (record m.arena { used = used; unused = unused; size = size }) d p'
      → After m d p
          (record m { arena = record m.arena { used = used; unused = unused; size = size } })
          d
          p'
  stores p' used unused size own own' kept view = record {
    serving = b.serving;
    same_arena = b.same_arena;
    shape = b.shape;
    static = (refl, refl);
    view = view;
    arena_mutex = inl (refl, own' ∙ sym own);
    shard_mutex = λ k. inl (refl, kept k);
    free_arena = λ e. absurd (true≢false (sym (b.held_arena own) ∙ e));
    free_shard = b.free_shard;
    counters = λ e. absurd (true≢false (sym own ∙ e));
    shards = λ k e. (refl, refl);
  }

  -- What the counters are about to become.
  counted_arena :
      (d.used ≡ m.arena.arena.used)
      × (d.unused ≡ m.arena.arena.unused)
      × (d.size ≡ m.arena.arena.size)
  counted_arena = rw b.same_arena b.serving.counted

  next_view :
      (next : Next) (used unused size : ℕ)
      → NextView m.arena d next
      → NextView (record m.arena { used = used; unused = unused; size = size }) d next
  next_view next used unused size v =
      NextView-Kept m.arena d (record m.arena { used = used; unused = unused; size = size }) d
        (refl, refl) next (λ k e. (refl, refl)) v

module _ (m : Memory) (d : ConcurrentArena) (cpu_id : ℕ) (e : Event) where
  abbrev Step : Pc → Type 0
  Step p = Before m d p → Moves m d cpu_id e p

  pub storing_used_move : (next : Next) → Step (storing_used next)
  unfolding move
  storing_used_move next b =
      let a = m.arena.arena in
      (
        _,
        cpu_id,
        d,
        storing_unused next,
        refl,
        stores m d b (storing_unused next) a.used m.arena.unused m.arena.size refl refl (λ k. refl)
            (
              next_view m d b next a.used m.arena.unused m.arena.size b.view,
              sym (counted_arena m d b).0,
            ),
      )

  pub storing_unused_move : (next : Next) → Step (storing_unused next)
  unfolding move
  storing_unused_move next b =
      let a = m.arena.arena in
      (
        _,
        cpu_id,
        d,
        storing_size next,
        refl,
        stores m d b (storing_size next) m.arena.used a.unused m.arena.size refl refl (λ k. refl)
            (
              next_view m d b next m.arena.used a.unused m.arena.size b.view.0,
              b.view.1,
              sym (counted_arena m d b).1,
            ),
      )

  pub storing_size_move : (next : Next) → Step (storing_size next)
  unfolding move
  storing_size_move next b =
      let a = m.arena.arena in
      (
        _,
        cpu_id,
        d,
        leaving_arena next,
        refl,
        stores m d b (leaving_arena next) m.arena.used m.arena.unused a.size refl refl (λ k. refl)
            (
              next_view m d b next m.arena.used m.arena.unused a.size b.view.0,
              (b.view.1, b.view.2, sym (counted_arena m d b).2),
            ),
      )

  pub in_arena_move : (size : ℕ) → Step (in_arena size)
  unfolding move update
  in_arena_move size b =
      let (rv, a, run, serving) = arena_served d m.given b.serving size b.view.0 in
      let run' : allocate m.arena.arena size ≡ some (rv, a) = rw b.same_arena run in
      (
        record m { arena = record m.arena { arena = a }; given = block_at rv size ∷ m.given },
        cpu_id,
        update d a,
        storing_used (returns rv),
        rw (run', move) refl,
        record {
          serving = serving;
          same_arena = refl;
          shape = b.shape;
          static = (refl, refl);
          view = tt;
          arena_mutex = inl (refl, refl);
          shard_mutex = λ k. inl (refl, refl);
          free_arena = λ h. absurd (true≢false (sym (b.held_arena refl) ∙ h));
          free_shard = b.free_shard;
          counters = λ h. cc;
          shards = λ k h. (refl, refl);
        },
      )
