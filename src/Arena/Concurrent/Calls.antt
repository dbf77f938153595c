-- ===== src/Arena/Concurrent/Calls.antt =====
-- Every call of a concurrent arena is served, whatever it meets, and its invariant stays.
use cs.Base.{
  ℕ, ◌+◌, ◌-◌, ◌*◌, ◌/◌, ◌^◌, ◌≤◌, ◌<◌, ◌≡◌, ◌≢◌, refl, inl, inr, false, Option, none, some, List,
  [], ◌∷◌, ◌++◌, length, length-set, get_or, set, All, ltb, arith, Bool-cases, Option-cases,
}
use cs.Arena.{Ptr, Arena, allocate, sub64}
use cs.Arena.Blocks.{Block, block_at, piece, serve, IsSound, serve-IsSound}
use cs.Arena.Splitting.{in-IsSound, All-out, All-in}
use cs.Arena.Concurrent.{
  Shard, no_shard, ConcurrentArena, Turn, update, arena_allocate, take_front, refill_size,
  shard_allocate, takes_arena, pick_shard, concurrent_allocate,
}
use cs.Arena.Concurrent.Regions.{
  regions, IsBacked, IsServing, get_shard-lt, split_at, hand_out, give_up, regions_around,
}

-- An allocation of the arena, without the wrapping of `serve`.
pub allocate-IsSound :
    (a : Arena) (bs : List Block) (n : ℕ)
    → IsSound a bs
    → 0 < n
    → (p : Ptr) × (a' : Arena) × (allocate a n ≡ some (p, a')) × IsSound a' (block_at p n ∷ bs)
unfolding serve
allocate-IsSound a bs n sound pos =
    let (b, a', served, sound') = serve-IsSound a bs (piece n) sound pos in
    elim (Option-cases (allocate a n)) [
      | inl missing ↦ absurd (ground (arith, missing, served))
      | inr ((p, a''), found) ↦
          let same : (block_at p n ≡ b) × (a'' ≡ a') = ground (arith, found, served) in
          (p, a'', found, rw (same.0, same.1) sound')
    ]

module _ (c : ConcurrentArena) (bs : List Block) (serving : IsServing c bs) where
  pub arena_served :
      (n : ℕ)
      → 0 < n
      → (p : Ptr) × (a : Arena) × (allocate c.arena n ≡ some (p, a))
        × IsServing (update c a) (block_at p n ∷ bs)
  unfolding update
  arena_served n pos =
      let (p, a, run, sound') =
        allocate-IsSound c.arena (regions c.shards ++ bs) n serving.sound pos in
      (
        p,
        a,
        run,
        record {
          sound = in-IsSound a (regions c.shards) (block_at p n) bs sound';
          has_shards = serving.has_shards;
          few_shards = serving.few_shards;
          backed = serving.backed;
          counted = (refl, refl, refl);
          slice_small = serving.slice_small;
        },
      )

  -- The branch of the arena.
  arena_branch :
      (n : ℕ)
      → 0 < n
      → (p : Ptr) × (c' : ConcurrentArena) × (arena_allocate c n ≡ some (p, c'))
        × IsServing c' (block_at p n ∷ bs)
  unfolding arena_allocate
  arena_branch n pos =
      let (p, a, run, serving') = arena_served n pos in
      (p, update c a, rw (run, arena_allocate), serving')

replaced-IsBacked :
    (us : List Shard) (s s' : Shard) (vs : List Shard)
    → IsBacked s'
    → All IsBacked (us ++ s ∷ vs)
    → All IsBacked (us ++ s' ∷ vs)
replaced-IsBacked us s s' vs h all = All-in IsBacked us s' vs (h, (All-out IsBacked us s vs all).1)

some-ne-none : {A : Type 0} (x : A) → some x ≢ none
some-ne-none x e = cc

sub64_lem : (n size : ℕ) → size ≤ n → n < 2 ^ 64 → sub64 n size ≡ n - size
sub64_lem n size le lt = omega arith

-- The shard at index `i`, with those before and behind it, is about to give its front away.
module _ (c : ConcurrentArena) (bs : List Block) (i : ℕ) (us vs : List Shard) (s : Shard)
    (same : c.shards ≡ us ++ s ∷ vs) (put : (y : Shard) → set c.shards i y ≡ us ++ y ∷ vs)
    (has_shards : 0 < length c.shards) (few_shards : length c.shards < 2 ^ 64)
    (backed : All IsBacked c.shards)
    (counted : (c.used ≡ c.arena.used) × (c.unused ≡ c.arena.unused) × (c.size ≡ c.arena.size))
    (slice_small : c.slab_slice_size ≤ 128 * 1024) where
  taken_shard : Ptr → ℕ → ℕ → Shard
  taken_shard p n size = record {
    begin = some (record { slab = p.slab; offset = p.offset + size });
    unused = sub64 n size;
  }

  pub take_step :
      (p : Ptr) (n size : ℕ)
      → size ≤ n
      → n < 2 ^ 64
      → IsSound c.arena (regions us ++ block_at p n ∷ (regions vs ++ bs))
      → (c' : ConcurrentArena) × (take_front c i (some p) n size ≡ some (p, c'))
        × IsServing c' (block_at p size ∷ bs)
  unfolding take_front taken_shard
  take_step p n size le lt sound =
      let t = taken_shard p n size in
      let given = hand_out c.arena (regions us) (regions vs) bs (block_at p n) size le sound in
      (
        record c { shards = set c.shards i t },
        refl,
        record {
          sound =
              rw (put t, regions_around us t vs (block_at p size ∷ bs), sub64_lem n size le lt)
                given;
          has_shards = rw (length-set c.shards i t) has_shards;
          few_shards = rw (length-set c.shards i t) few_shards;
          backed = rw (put t) (
              replaced-IsBacked us s t vs (λ e. absurd (some-ne-none _ e), omega arith)
                (rw same at backed));
          counted = counted;
          slice_small = slice_small;
        },
      )

module _ (c : ConcurrentArena) (bs : List Block) (serving : IsServing c bs) where
  pub refill_bounds :
      (size : ℕ)
      → 0 < size
      → size ≤ c.slab_slice_size / 4
      → (0 < refill_size c) × (size ≤ refill_size c) × (refill_size c < 2 ^ 64)
  unfolding refill_size
  refill_bounds size pos le = ground (arith, serving.slice_small)

  -- The branch of a shard, which refills it where too little is left.
  shard_branch :
      (i size : ℕ)
      → i < length c.shards
      → 0 < size
      → size ≤ c.slab_slice_size / 4
      → (p : Ptr) × (c' : ConcurrentArena) × (shard_allocate c i size ≡ some (p, c'))
        × IsServing c' (block_at p size ∷ bs)
  unfolding shard_allocate arena_allocate update
  shard_branch i size hi pos le =
      let s = get_or c.shards i no_shard in
      let (us, vs, same, put) = split_at c.shards i no_shard hi in
      let sound = rw (same, regions_around us s vs bs) at serving.sound in
      let (backed, small) = (All-out IsBacked us s vs (rw same at serving.backed)).0 in
      let bounds = refill_bounds size pos le in
      elim (Bool-cases (ltb s.unused size)) [
        | inl short ↦
            let left = give_up c.arena (regions us) s.begin s.unused (regions vs ++ bs) sound in
            let (p, a', run, fresh) =
              allocate-IsSound c.arena (regions us ++ (regions vs ++ bs)) (refill_size c) left
                bounds.0 in
            let (c', taken, serving') =
              take_step (update c a') bs i us vs s same put serving.has_shards serving.few_shards
                serving.backed (refl, refl, refl) serving.slice_small p (refill_size c) size
                bounds.1 bounds.2
                (in-IsSound a' (regions us) (block_at p (refill_size c)) (regions vs ++ bs)
                  fresh) in
            (p, c', rw (short, run) taken, serving')
        | inr enough ↦ elim (Option-cases s.begin) [
          | inl missing ↦ absurd (ground (arith, enough, backed missing))
          | inr (p, e) ↦
              let (c', taken, serving') =
                take_step c bs i us vs s same put serving.has_shards serving.few_shards
                  serving.backed serving.counted serving.slice_small p s.unused size
                  (ground (arith, enough)) small (rw e at sound) in
              (p, c', rw (enough, e) taken, serving')
        ]
      ]

  small_request :
      (t : Turn) (size : ℕ) → takes_arena c t size ≡ false → size ≤ c.slab_slice_size / 4
  unfolding takes_arena
  small_request t size e = ground arith

  pick_shard-lt : (t : Turn) → (pick_shard c t).0 < length c.shards
  unfolding pick_shard
  pick_shard-lt t = elim (Bool-cases t.shard_free) [
    | inl free ↦ rw free (get_shard-lt c t.cpu_id bs serving)
    | inr busy ↦ rw busy (get_shard-lt c _ bs serving)
  ]

  -- A call with any turn returns, and the block that it hands out is apart from all others.
  pub concurrent_allocate-IsServing :
      (t : Turn) (size : ℕ)
      → 0 < size
      → (p : Ptr) × (c' : ConcurrentArena) × (cpu_id : ℕ) × (concurrent_allocate c t size
          ≡ some (p, c', cpu_id))
        × IsServing c' (block_at p size ∷ bs)
  unfolding concurrent_allocate
  concurrent_allocate-IsServing t size pos = elim (Bool-cases (takes_arena c t size)) [
    | inl direct ↦
        let (p, c', run, serving') = arena_branch c bs serving size pos in
        (p, c', t.cpu_id, rw (direct, run), serving')
    | inr shared ↦
        let (p, c', run, serving') =
          shard_branch (pick_shard c t).0 size (pick_shard-lt t) pos
            (small_request t size shared) in
        (p, c', (pick_shard c t).1, rw (shared, run), serving')
  ]

-- The calls of any threads in the order in which they take their locks, and the blocks with the last one first.
unfoldable pub run_calls :
    ConcurrentArena → List Block → List (Turn × ℕ) → Option (List Block × ConcurrentArena)
run_calls c bs [] = some (bs, c)
run_calls c bs ((t, size) ∷ calls) = elim (concurrent_allocate c t size) [
  | none ↦ none
  | some (p, c', cpu_id) ↦ run_calls c' (block_at p size ∷ bs) calls
]

pub run_calls-IsServing :
    (calls : List (Turn × ℕ)) (c : ConcurrentArena) (bs : List Block)
    → IsServing c bs
    → All (λ call. 0 < call.1) calls
    → (bs' : List Block) × (c' : ConcurrentArena) × (run_calls c bs calls ≡ some (bs', c'))
      × (length bs' ≡ length bs + length calls)
      × IsServing c' bs'
unfolding run_calls
run_calls-IsServing [] c bs serving pos = (bs, c, refl, omega arith, serving)
run_calls-IsServing ((t, size) ∷ calls) c bs serving pos =
    let (p, c', cpu_id, run, serving') = concurrent_allocate-IsServing c bs serving t size pos.0 in
    let (bs', c'', ran, count, serving'') =
      run_calls-IsServing calls c' (block_at p size ∷ bs) serving' pos.1 in
    (bs', c'', rw (run, run_calls) ran, omega arith, serving'')
