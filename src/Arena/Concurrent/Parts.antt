-- ===== src/Arena/Concurrent/Parts.antt =====
-- The parts of a call that shards serve, one by one: a refill from the arena, and a cut.
use cs.Base.{
  ℕ, ◌+◌, ◌^◌, ◌≡◌, ◌≤◌, ◌<◌, refl, some, List, ◌∷◌, ◌++◌, length, length-set, get_or, set,
}
use cs.Arena.{Ptr, Arena, allocate, sub64}
use cs.Arena.Blocks.{Block, block_at}
use cs.Arena.Splitting.{in-IsSound, All-out, All-in}
use cs.Arena.Concurrent.{Shard, no_shard, ConcurrentArena, update, take_front}
use cs.Arena.Concurrent.Regions.{regions, IsBacked, IsServing, split_at, give_up, regions_around}
use cs.Arena.Concurrent.Calls.{allocate-IsSound, take_step}

abbrev pub with_shard : ConcurrentArena → ℕ → Shard → ConcurrentArena
with_shard c k s = record c { shards = set c.shards k s }

abbrev pub refilled : Ptr → ℕ → Shard
refilled p n = record { begin = some p; unused = n }

abbrev pub cut_by : Ptr → ℕ → ℕ → Shard
cut_by p n size = record {
  begin = some (record { slab = p.slab; offset = p.offset + size });
  unused = sub64 n size;
}

module _ (c : ConcurrentArena) (bs : List Block) (serving : IsServing c bs) (k : ℕ)
    (there : k < length c.shards) where
  pub shard-IsBacked : IsBacked (get_or c.shards k no_shard)
  shard-IsBacked =
      let (us, vs, same, put) = split_at c.shards k no_shard there in
      (All-out IsBacked us _ vs (rw same at serving.backed)).0

  -- What the shard had left is given up for `n` new bytes.
  pub refill_served :
      (n : ℕ)
      → 0 < n
      → n < 2 ^ 64
      → (p : Ptr) × (a : Arena) × (allocate c.arena n ≡ some (p, a))
        × IsServing (with_shard (update c a) k (refilled p n)) bs
  unfolding update
  refill_served n pos small =
      let s = get_or c.shards k no_shard in
      let (us, vs, same, put) = split_at c.shards k no_shard there in
      let sound = rw (same, regions_around us s vs bs) at serving.sound in
      let left = give_up c.arena (regions us) s.begin s.unused (regions vs ++ bs) sound in
      let (p, a, run, fresh) =
        allocate-IsSound c.arena (regions us ++ (regions vs ++ bs)) n left pos in
      (
        p,
        a,
        run,
        record {
          sound =
              rw (put (refilled p n), regions_around us (refilled p n) vs bs)
                (in-IsSound a (regions us) (block_at p n) (regions vs ++ bs) fresh);
          has_shards = rw (length-set c.shards k (refilled p n)) serving.has_shards;
          few_shards = rw (length-set c.shards k (refilled p n)) serving.few_shards;
          backed = rw (put (refilled p n)) (
              All-in IsBacked us (refilled p n) vs
                (((λ e. cc), small), (All-out IsBacked us s vs (rw same at serving.backed)).1));
          counted = (refl, refl, refl);
          slice_small = serving.slice_small;
        },
      )

  -- The front of the shard is handed out.
  pub cut_served :
      (p : Ptr) (size : ℕ)
      → (get_or c.shards k no_shard).begin ≡ some p
      → size ≤ (get_or c.shards k no_shard).unused
      → IsServing
          (with_shard c k (cut_by p (get_or c.shards k no_shard).unused size))
          (block_at p size ∷ bs)
  unfolding take_front
  cut_served p size at_p enough =
      let s = get_or c.shards k no_shard in
      let (us, vs, same, put) = split_at c.shards k no_shard there in
      let sound = rw (same, regions_around us s vs bs) at serving.sound in
      let (c', cut, serving') =
        take_step c bs k us vs s same put serving.has_shards serving.few_shards serving.backed
          serving.counted serving.slice_small p s.unused size enough shard-IsBacked.1
          (rw at_p at sound) in
      let e : with_shard c k (cut_by p s.unused size) ≡ c' = cc (cut) in rw e serving'
