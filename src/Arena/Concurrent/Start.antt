-- ===== src/Arena/Concurrent/Start.antt =====
-- A concurrent arena from its constructor on.
use cs.Base.{
  ℕ, zero, suc, ◌%◌, ◌^◌, ◌≤◌, ◌<◌, ◌≡◌, refl, some, List, [], length, length-replicate, replicate,
  All, arith,
}
use cs.Arena.Blocks.{Block, IsInside, AllApart, new_arena-IsSound}
use cs.Arena.Splitting.{drop_regions}
use cs.Arena.Concurrent.{no_shard, ConcurrentArena, Turn, new_concurrent, round_up_to_power_of_two}
use cs.Arena.Concurrent.Regions.{regions, IsBacked, IsServing}
use cs.Arena.Concurrent.Rounding.{round_up_bounds}
use cs.Arena.Concurrent.Calls.{run_calls, run_calls-IsServing}

regions-replicate : (n : ℕ) → regions (replicate n no_shard) ≡ []
unfolding regions
regions-replicate zero = refl
regions-replicate (suc n) = regions-replicate n

IsBacked-replicate : (n : ℕ) → All IsBacked (replicate n no_shard)
IsBacked-replicate zero = tt
IsBacked-replicate (suc n) = ((λ e. refl, omega arith), IsBacked-replicate n)

pub new_concurrent-IsServing :
    (align_unit num_cpus slab_size : ℕ)
    → 0 < align_unit
    → 2 ^ 31 % align_unit ≡ 0
    → num_cpus ≤ 2 ^ 32
    → IsServing (new_concurrent align_unit num_cpus slab_size) []
unfolding new_concurrent
new_concurrent-IsServing align_unit num_cpus slab_size pos div few =
    let n = round_up_to_power_of_two num_cpus in
    let bounds = round_up_bounds num_cpus few in
    record {
      sound = rw (regions-replicate n) (new_arena-IsSound align_unit slab_size pos div);
      has_shards = rw length-replicate (omega (arith, bounds));
      few_shards = rw length-replicate (omega (arith, bounds));
      backed = IsBacked-replicate n;
      counted = (refl, refl, refl);
      slice_small = omega arith;
    }

-- With an alignment that divides 2 ^ 31 and at most 2 ^ 32 processors, a new concurrent arena serves
-- every sequence of calls for at least one byte each, whatever shards, locks and processors the calls
-- meet: as many blocks as calls, each inside its slab, and any two of them in different slabs
-- or one behind the other. Its counters are then those of its arena.
pub run_calls-new_concurrent :
    (align_unit num_cpus slab_size : ℕ) (calls : List (Turn × ℕ))
    → 0 < align_unit
    → 2 ^ 31 % align_unit ≡ 0
    → num_cpus ≤ 2 ^ 32
    → All (λ call. 0 < call.1) calls
    → (bs : List Block) × (c : ConcurrentArena) × (run_calls
          (new_concurrent align_unit num_cpus slab_size)
          []
          calls
        ≡ some (bs, c))
      × (length bs ≡ length calls)
      × All (IsInside c.arena.slabs) bs
      × AllApart bs
      × (c.used ≡ c.arena.used)
      × (c.unused ≡ c.arena.unused)
      × (c.size ≡ c.arena.size)
run_calls-new_concurrent align_unit num_cpus slab_size calls pos div few positive =
    let (bs, c, run, count, serving) =
      run_calls-IsServing calls (new_concurrent align_unit num_cpus slab_size) []
        (new_concurrent-IsServing align_unit num_cpus slab_size pos div few) positive in
    let sound = drop_regions c.arena (regions c.shards) bs serving.sound in
    let (used, unused, size) = serving.counted in
    (bs, c, run, omega arith, sound.inside, sound.apart, used, unused, size)
