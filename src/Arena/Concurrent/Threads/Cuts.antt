-- ===== src/Arena/Concurrent/Threads/Cuts.antt =====
-- The steps that change a shard, under its mutex: the refill from the arena, and the cut.
use native.Mathlib.Decide.{ℕ_discrete}
use mathlib.Core.Bool.{true≢false}
use cs.Base.{
  ℕ, ◌+◌, ◌≡◌, ◌≢◌, ◌≤◌, ◌<◌, refl, sym, ◌∙◌, ap, true, false, some, ◌∷◌, length, length-set,
  get_or-set_self, get_or-set_ne, set, arith, inl, inr, Option-cases, eq→==,
}
use cs.Arena.{Ptr, allocate, sub64}
use cs.Arena.Blocks.{block_at}
use cs.Arena.Concurrent.{Shard, no_shard, ConcurrentArena, update}
use cs.Arena.Concurrent.Parts.{
  with_shard, refilled, cut_by, shard-IsBacked, refill_served, cut_served,
}
use cs.Arena.Concurrent.Threads.{
  Memory, Event, cuts, Pc, refilling, storing_used, cutting, taking, leaving_shard, move, shard,
  set_shard,
}
use cs.Arena.Concurrent.Threads.Views.{owns_shard, at, SameShard, SameShape, Fits, Filled}
use cs.Arena.Concurrent.Threads.Effects.{Before, Moves}

module _ (m : Memory) (d : ConcurrentArena) {p : Pc} (b : Before m d p) where
  -- Other shards than the one at `k` are left alone.
  module _ (k : ℕ) (s s' : Shard) where
    set_kept :
        (j : ℕ)
        → j ≢ k
        → (at (with_shard m.arena k s) j ≡ at m.arena j) × (at (with_shard d k s') j ≡ at d j)
    set_kept j ne = (
      get_or-set_ne m.arena.shards k j s no_shard (λ e. ne (sym e)),
      get_or-set_ne d.shards k j s' no_shard (λ e. ne (sym e)),
    )

    set_free :
        (d' : ConcurrentArena)
        → owns_shard k p ≡ true
        → ((j : ℕ) → j ≢ k → at d' j ≡ at d j)
        → (j : ℕ) → m.shard_locked j ≡ false
        → SameShard (with_shard m.arena k s) d' j
    set_free d' own kept j e = elim (ℕ_discrete j k) [
      | yes here ↦ absurd (ground (arith, b.held_shard k, here))
      | no other ↦ (set_kept j other).0 ∙ b.free_shard j e ∙ sym (kept j other)
    ]

    set_view :
        (c d' : ConcurrentArena) (size n : ℕ)
        → c.slab_slice_size ≡ m.arena.slab_slice_size
        → c.shards ≡ set m.arena.shards k s
        → d'.shards ≡ set d.shards k s'
        → Fits m.arena size k
        → k < length d.shards
        → s.begin ≡ s'.begin
        → s'.unused ≡ n
        → size ≤ n
        → Filled c d' size k n
    set_view c d' size n slice c_set d_set fits there begin unused enough =
        let c_at : at c k ≡ s = rw c_set (get_or-set_self m.arena.shards k s no_shard fits.2) in
        let d_at : at d' k ≡ s' = rw d_set (get_or-set_self d.shards k s' no_shard there) in
        (
          (fits.0, rw slice fits.1, rw (c_set, length-set m.arena.shards k s) fits.2),
          ap (λ (t : Shard). t.begin) c_at ∙ begin ∙ sym (ap (λ (t : Shard). t.begin) d_at),
          ap (λ (t : Shard). t.unused) d_at ∙ unused,
          enough,
        )

    set_shape : SameShape (with_shard m.arena k s) (with_shard d k s')
    set_shape =
        (b.shape.0, length-set m.arena.shards k s ∙ b.shape.1 ∙ sym (length-set d.shards k s'))

module _ (m : Memory) (d : ConcurrentArena) (cpu_id : ℕ) (e : Event) where
  abbrev Step : Pc → Type 0
  Step p = Before m d p → Moves m d cpu_id e p

  pub refilling_move : (size k n : ℕ) → Step (refilling size k n)
  unfolding move update set_shard
  refilling_move size k n b =
      let (fits, clean, pos, enough, small, same) = b.view in
      let there : k < length d.shards = rw (← b.shape.1) fits.2 in
      let (rv, a, run, serving) = refill_served d m.given b.serving k there n pos small in
      let run' : allocate m.arena.arena n ≡ some (rv, a) = rw b.same_arena run in
      let s : Shard = record (shard m k) { begin = some rv } in
      let own = eq→== k k refl in
      (
        set_shard (record m { arena = record m.arena { arena = a } }) k s,
        cpu_id,
        with_shard (update d a) k (refilled rv n),
        storing_used (cuts size k n),
        rw (run', move) refl,
        record {
          serving = serving;
          same_arena = refl;
          shape = set_shape m d b k s (refilled rv n);
          static = (refl, length-set m.arena.shards k s);
          view =
              set_view m d b k s (refilled rv n) (with_shard (record m.arena { arena = a }) k s)
                (with_shard (update d a) k (refilled rv n)) size n refl refl refl fits there refl
                refl enough;
          arena_mutex = inl (refl, refl);
          shard_mutex = λ j. inl (refl, refl);
          free_arena = λ h. absurd (true≢false (sym (b.held_arena refl) ∙ h));
          free_shard =
              set_free m d b k s (refilled rv n) (with_shard (update d a) k (refilled rv n)) own
                (λ j ne. (set_kept m d b k s (refilled rv n) j ne).1);
          counters = λ h. cc;
          shards = λ j h.
              set_kept m d b k s (refilled rv n) j (λ here. true≢false (sym (eq→== j k here) ∙ h));
        },
      )

  pub cutting_move : (size k n : ℕ) → Step (cutting size k n)
  unfolding move set_shard
  cutting_move size k n b =
      let (fits, begin, unused, enough) = b.view in
      let s : Shard = record (shard m k) { unused = sub64 n size } in
      let own = eq→== k k refl in
      let now : at (with_shard m.arena k s) k ≡ s =
        get_or-set_self m.arena.shards k s no_shard fits.2 in
      (
        set_shard m k s,
        cpu_id,
        d,
        taking size k n,
        refl,
        record {
          serving = b.serving;
          same_arena = b.same_arena;
          shape = (b.shape.0, length-set m.arena.shards k s ∙ b.shape.1);
          static = (refl, length-set m.arena.shards k s);
          view = (
            (
              (fits.0, fits.1, rw (length-set m.arena.shards k s) fits.2),
              ap (λ (t : Shard). t.begin) now ∙ begin,
              unused,
              enough,
            ),
            ap (λ (t : Shard). t.unused) now,
          );
          arena_mutex = inl (refl, refl);
          shard_mutex = λ j. inl (refl, refl);
          free_arena = b.free_arena;
          free_shard = set_free m d b k s s d own (λ j ne. refl);
          counters = λ h. ((refl, refl, refl), (refl, refl, refl));
          shards = λ j h.
              ((set_kept m d b k s s j (λ here. true≢false (sym (eq→== j k here) ∙ h))).0, refl);
        },
      )

  taken_move : (size k n : ℕ) (rv : Ptr) → (at d k).begin ≡ some rv → Step (taking size k n)
  unfolding move set_shard
  taken_move size k n rv at_rv b =
      let (filled, cut) = b.view in
      let (fits, begin, unused, enough) = filled in
      let there : k < length d.shards = rw (← b.shape.1) fits.2 in
      let s : Shard = record (shard m k) {
        begin = some (record { slab = rv.slab; offset = rv.offset + size });
      } in
      let s' = cut_by rv n size in
      let own = eq→== k k refl in
      let left : s ≡ s' =
        ap (λ v. let x : Shard = record { begin = s'.begin; unused = v } in x) cut in
      let serving = cut_served d m.given b.serving k there rv size at_rv (rw unused enough) in
      (
        record (set_shard m k s) { given = block_at rv size ∷ m.given },
        cpu_id,
        with_shard d k s',
        leaving_shard k rv,
        rw (begin ∙ at_rv, move) refl,
        record {
          serving = rw unused at serving;
          same_arena = b.same_arena;
          shape = set_shape m d b k s s';
          static = (refl, length-set m.arena.shards k s);
          view = (
            rw (length-set m.arena.shards k s) fits.2,
            get_or-set_self m.arena.shards k s no_shard fits.2
                ∙ left
                ∙ sym (get_or-set_self d.shards k s' no_shard there),
          );
          arena_mutex = inl (refl, refl);
          shard_mutex = λ j. inl (refl, refl);
          free_arena = b.free_arena;
          free_shard =
              set_free m d b k s s' (with_shard d k s') own
                (λ j ne. (set_kept m d b k s s' j ne).1);
          counters = λ h. ((refl, refl, refl), (refl, refl, refl));
          shards = λ j h. set_kept m d b k s s' j (λ here. true≢false (sym (eq→== j k here) ∙ h));
        },
      )

  pub taking_move : (size k n : ℕ) → Step (taking size k n)
  taking_move size k n b =
      let ((fits, begin, unused, enough), cut) = b.view in
      let there : k < length d.shards = rw (← b.shape.1) fits.2 in
      elim (Option-cases (at d k).begin) [
        | inl missing ↦
            let empty = (shard-IsBacked d m.given b.serving k there).0 missing in
            absurd (omega arith)
        | inr (rv, found) ↦ taken_move size k n rv found b
      ]
