-- ===== src/Arena/Concurrent.antt =====
-- `ConcurrentArena` of arena.hpp and arena.cpp. What a call meets and cannot choose, the caller's
-- `cpu_id_`, the locks that others hold and the processor that it runs on, is its `Turn`. A call is one
-- step: what it reads and writes of a shard or of the arena it does under their mutexes.
pub mod Regions
pub mod Rounding
pub mod Calls
pub mod Parts
pub mod Start
pub mod Threads
mod Examples
use cs.Base.{
  ℕ, zero, suc, ◌+◌, ◌-◌, ◌*◌, ◌/◌, ◌%◌, ◌^◌, min, bit_and, bit_or, Bool, true, false, ◌&&◌, Option,
  none, some, List, [], ◌∷◌, length, get_or, set, replicate, ltb, leb, ◌==◌, if◌then◌else◌,
}
use cs.Base.Words.{u64_mod}
use cs.Arena.{Ptr, Arena, new_arena, allocate, add64, sub64}

pub record Shard : Type 0 where
  -- `none` is `nullptr`
  pub begin : Option Ptr
  pub unused : ℕ

abbrev pub no_shard : Shard
no_shard = record { begin = none; unused = 0 }

-- `used`, `unused` and `size` are the atomic copies of the arena's counters.
pub record ConcurrentArena : Type 0 where
  pub slab_slice_size : ℕ
  pub arena : Arena
  pub shards : List Shard
  pub used : ℕ
  pub unused : ℕ
  pub size : ℕ

-- The loop of `round_up_to_power_of_two`, for the shifts in the list.
pub smear : List ℕ → ℕ → ℕ
smear [] n = n
smear (i ∷ is) n = smear is (bit_or n (n / 2 ^ i))

pub round_up_to_power_of_two : ℕ → ℕ
unfolding smear
round_up_to_power_of_two zero = 1
round_up_to_power_of_two (suc n) = add64 (smear (1 ∷ 2 ∷ 4 ∷ 8 ∷ 16 ∷ 32 ∷ []) n) 1

-- `num_cpus` is `std::thread::hardware_concurrency()`.
pub new_concurrent : ℕ → ℕ → ℕ → ConcurrentArena
unfolding new_arena round_up_to_power_of_two
new_concurrent align_unit num_cpus slab_size = record {
  slab_slice_size = min (128 * 1024) (slab_size / 8);
  arena = new_arena align_unit slab_size;
  shards = replicate (round_up_to_power_of_two num_cpus) no_shard;
  used = 0;
  unused = 0;
  size = 0;
}

pub update : ConcurrentArena → Arena → ConcurrentArena
update c a = record c { arena = a; used = a.used; unused = a.unused; size = a.size }

-- The index of the shard.
pub get_shard : ConcurrentArena → ℕ → ℕ
get_shard c cpu_id = bit_and cpu_id (sub64 (length c.shards) 1)

pub record Turn : Type 0 where
  -- the thread's `cpu_id_`
  pub cpu_id : ℕ
  -- whether a `try_lock` of the arena's mutex, and of the shard's, succeeds
  pub arena_free : Bool
  pub shard_free : Bool
  -- `sched_getcpu()`, and the hash of the thread's id
  pub processor : ℕ
  pub thread_hash : ℕ

-- The shard's index, and the thread's new `cpu_id_`.
pub reset_shard : ConcurrentArena → ℕ → ℕ → ℕ × ℕ
reset_shard c processor thread_hash =
    let cpu_id = if processor == u64_mod - 1 then thread_hash else processor in
    (get_shard c cpu_id, bit_or cpu_id (length c.shards))

-- An allocation from the arena, and `update`.
pub arena_allocate : ConcurrentArena → ℕ → Option (Ptr × ConcurrentArena)
unfolding update
arena_allocate c size = elim (allocate c.arena size) [
  | none ↦ none
  | some (p, a) ↦ some (p, update c a)
]

-- The part of a shard from `begin` on is cut by `size`; adding to `nullptr` is undefined, `none`.
pub take_front : ConcurrentArena → ℕ → Option Ptr → ℕ → ℕ → Option (Ptr × ConcurrentArena)
take_front c i none unused size = none
take_front c i (some p) unused size = some (
  p,
  record c {
    shards = set c.shards i (record {
      begin = some (record { slab = p.slab; offset = p.offset + size });
      unused = sub64 unused size;
    });
  },
)

-- How much a shard takes from the arena.
pub refill_size : ConcurrentArena → ℕ
refill_size c =
    if leb (c.slab_slice_size / 2) c.unused && ltb c.unused (c.slab_slice_size * 2 % u64_mod)
    then c.unused
    else c.slab_slice_size

pub shard_allocate : ConcurrentArena → ℕ → ℕ → Option (Ptr × ConcurrentArena)
unfolding arena_allocate take_front refill_size
shard_allocate c i size =
    let s = get_or c.shards i no_shard in
    if ltb s.unused size
    then elim (arena_allocate c (refill_size c)) [
      | none ↦ none
      | some (p, c') ↦ take_front c' i (some p) (refill_size c) size
    ]
    else take_front c i s.begin s.unused size

-- Whether the call goes to the arena itself.
pub takes_arena : ConcurrentArena → Turn → ℕ → Bool
unfolding get_shard
takes_arena c t size =
    if ltb (c.slab_slice_size / 4) size
    then true
    else t.cpu_id == 0 && (get_or c.shards (get_shard c 0) no_shard).unused == 0 && t.arena_free

-- The shard whose mutex the call takes, and the thread's new `cpu_id_`.
pub pick_shard : ConcurrentArena → Turn → ℕ × ℕ
unfolding reset_shard get_shard
pick_shard c t =
    if t.shard_free
    then (get_shard c t.cpu_id, t.cpu_id)
    else reset_shard c t.processor t.thread_hash

-- The pointer, the new state, and the thread's new `cpu_id_`.
pub concurrent_allocate : ConcurrentArena → Turn → ℕ → Option (Ptr × ConcurrentArena × ℕ)
concurrent_allocate c t size =
    if takes_arena c t size
    then elim (arena_allocate c size) [ none ↦ none | some (p, c') ↦ some (p, c', t.cpu_id) ]
    else elim (shard_allocate c (pick_shard c t).0 size) [
      | none ↦ none
      | some (p, c') ↦ some (p, c', (pick_shard c t).1)
    ]
