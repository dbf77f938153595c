-- ===== src/Arena/Concurrent/Threads/Views.antt =====
-- What a thread inside a call may rely on, at each point of the call. The counters and the shard that
-- a thread is changing lag behind what the arena comes to, `d`, until its stores are done.
use cs.Base.{
  ap, ◌∙◌, ℕ, ◌/◌, ◌^◌, ◌≡◌, ◌≤◌, ◌<◌, refl, Bool, true, false, length, get_or, ◌==◌, arith, eq→==,
}
use cs.Arena.{sub64}
use cs.Arena.Concurrent.{Shard, no_shard, ConcurrentArena}
use cs.Arena.Concurrent.Threads.{
  Next, returns, cuts, Pc, idle, peeking, trying_arena, wait_arena, in_arena, at_shard, wait_shard,
  in_shard, wait_refill, loading, refilling, storing_used, storing_unused, storing_size,
  leaving_arena, cutting, taking, leaving_shard,
}

abbrev pub owns_arena : Pc → Bool
owns_arena (in_arena _) = true
owns_arena (loading _ _) = true
owns_arena (refilling _ _ _) = true
owns_arena (storing_used _) = true
owns_arena (storing_unused _) = true
owns_arena (storing_size _) = true
owns_arena (leaving_arena _) = true
owns_arena _ = false

abbrev pub next_owns : ℕ → Next → Bool
next_owns j (returns _) = false
next_owns j (cuts _ k _) = j == k

-- Whether a thread owns the mutex of the shard at `j`.
abbrev pub owns_shard : ℕ → Pc → Bool
owns_shard j (in_shard _ k) = j == k
owns_shard j (wait_refill _ k) = j == k
owns_shard j (loading _ k) = j == k
owns_shard j (refilling _ k _) = j == k
owns_shard j (storing_used next) = next_owns j next
owns_shard j (storing_unused next) = next_owns j next
owns_shard j (storing_size next) = next_owns j next
owns_shard j (leaving_arena next) = next_owns j next
owns_shard j (cutting _ k _) = j == k
owns_shard j (taking _ k _) = j == k
owns_shard j (leaving_shard k _) = j == k
owns_shard j _ = false

abbrev pub at : ConcurrentArena → ℕ → Shard
at c k = get_or c.shards k no_shard

abbrev pub SameCounters : ConcurrentArena → ConcurrentArena → Type 0
SameCounters c d = (c.used ≡ d.used) × (c.unused ≡ d.unused) × (c.size ≡ d.size)

abbrev pub SameShard : ConcurrentArena → ConcurrentArena → ℕ → Type 0
SameShard c d k = at c k ≡ at d k

-- The parts that no thread changes for another.
abbrev pub SameShape : ConcurrentArena → ConcurrentArena → Type 0
SameShape c d = (c.slab_slice_size ≡ d.slab_slice_size) × (length c.shards ≡ length d.shards)

-- A call that a shard serves.
abbrev pub Fits : ConcurrentArena → ℕ → ℕ → Type 0
Fits c size k = (0 < size) × (size ≤ c.slab_slice_size / 4) × (k < length c.shards)

-- The shard comes to `n` bytes, enough for the call.
abbrev pub Filled : ConcurrentArena → ConcurrentArena → ℕ → ℕ → ℕ → Type 0
Filled c d size k n =
    Fits c size k × ((at c k).begin ≡ (at d k).begin) × ((at d k).unused ≡ n) × (size ≤ n)

abbrev pub NextView : ConcurrentArena → ConcurrentArena → Next → Type 0
NextView c d (returns rv) = Unit
NextView c d (cuts size k n) = Filled c d size k n

abbrev pub View : ConcurrentArena → ConcurrentArena → Pc → Type 0
View c d idle = Unit
View c d (peeking size) = (0 < size) × (size ≤ c.slab_slice_size / 4)
View c d (trying_arena size) = (0 < size) × (size ≤ c.slab_slice_size / 4)
View c d (wait_arena size) = 0 < size
View c d (in_arena size) = (0 < size) × SameCounters c d
View c d (at_shard size k) = Fits c size k
View c d (wait_shard size k) = Fits c size k
View c d (in_shard size k) = Fits c size k × SameShard c d k
View c d (wait_refill size k) = Fits c size k × SameShard c d k
View c d (loading size k) = Fits c size k × SameShard c d k × SameCounters c d
View c d (refilling size k n) =
    Fits c size k × SameShard c d k × (0 < n) × (size ≤ n) × (n < 2 ^ 64) × SameCounters c d
View c d (storing_used next) = NextView c d next
View c d (storing_unused next) = NextView c d next × (c.used ≡ d.used)
View c d (storing_size next) = NextView c d next × (c.used ≡ d.used) × (c.unused ≡ d.unused)
View c d (leaving_arena next) = NextView c d next × SameCounters c d
View c d (cutting size k n) = Filled c d size k n
View c d (taking size k n) = Filled c d size k n × ((at c k).unused ≡ sub64 n size)
View c d (leaving_shard k rv) = (k < length c.shards) × SameShard c d k

-- What another thread does leaves a view as it is.
module _ (c d c' d' : ConcurrentArena) (shape : SameShape c' c) where
  abbrev Kept : ℕ → Type 0
  Kept k = (at c' k ≡ at c k) × (at d' k ≡ at d k)

  pub Filled-Kept : (size k n : ℕ) → Kept k → Filled c d size k n → Filled c' d' size k n
  Filled-Kept size k n kept v = ground arith

  pub NextView-Kept :
      (next : Next)
      → ((k : ℕ) → next_owns k next ≡ true → Kept k)
      → NextView c d next
      → NextView c' d' next
  NextView-Kept (returns rv) kept v = tt
  NextView-Kept (cuts size k n) kept v = Filled-Kept size k n (kept k (eq→== k k refl)) v

  pub View-Kept :
      (q : Pc)
      → (owns_arena q ≡ true → SameCounters c' c × SameCounters d' d)
      → ((k : ℕ) → owns_shard k q ≡ true → Kept k)
      → View c d q
      → View c' d' q
  View-Kept idle counters kept v = tt
  View-Kept (peeking size) counters kept v = ground arith
  View-Kept (trying_arena size) counters kept v = ground arith
  View-Kept (wait_arena size) counters kept v = v
  View-Kept (in_arena size) counters kept v = ground (arith, counters refl)
  View-Kept (at_shard size k) counters kept v = ground arith
  View-Kept (wait_shard size k) counters kept v = ground arith
  View-Kept (in_shard size k) counters kept v = ground (arith, kept k (eq→== k k refl))
  View-Kept (wait_refill size k) counters kept v = ground (arith, kept k (eq→== k k refl))
  View-Kept (loading size k) counters kept v =
      ground (arith, kept k (eq→== k k refl), counters refl)
  View-Kept (refilling size k n) counters kept v =
      ground (arith, kept k (eq→== k k refl), counters refl)
  View-Kept (storing_used next) counters kept v = NextView-Kept next kept v
  View-Kept (storing_unused next) counters kept v =
      (NextView-Kept next kept v.0, ground (arith, counters refl))
  View-Kept (storing_size next) counters kept v =
      let rest = counters refl in
      (NextView-Kept next kept v.0, ground (arith, v), ground (arith, v))
  View-Kept (leaving_arena next) counters kept v =
      let rest = counters refl in (NextView-Kept next kept v.0, ground (arith, v))
  View-Kept (cutting size k n) counters kept v = Filled-Kept size k n (kept k (eq→== k k refl)) v
  View-Kept (taking size k n) counters kept v =
      let same = kept k (eq→== k k refl) in
      (Filled-Kept size k n same v.0, ap (λ (s : Shard). s.unused) same.0 ∙ v.1)
  View-Kept (leaving_shard k rv) counters kept v = ground (arith, kept k (eq→== k k refl))
