-- ===== src/Arena/Concurrent/Threads/Effects.antt =====
-- What a step has to show when it changes no data: one of the control flow, or of a mutex.
use cs.Base.{
  not, ℕ, ◌≡◌, refl, sym, ◌∙◌, Bool, true, false, arith, inl, inr, ◌==◌, if◌then◌else◌, some,
}
use cs.Arena.Concurrent.{ConcurrentArena}
use cs.Arena.Concurrent.Regions.{IsServing}
use cs.Arena.Concurrent.Threads.{Memory, Event, Pc, put, move}
use cs.Arena.Concurrent.Threads.Locks.{Handover, put-cases}
use cs.Arena.Concurrent.Threads.Views.{
  owns_arena, owns_shard, SameCounters, SameShard, SameShape, View,
}
use cs.Arena.Concurrent.Threads.Invariant.{After}

pub either {ℓ κ} :
    {A : Type ℓ} (P : A → Type κ) (b : Bool) (x y : A)
    → (b ≡ true → P x)
    → (b ≡ false → P y)
    → P (if b then x else y)
either P true x y h k = h refl
either P false x y h k = k refl

-- What a thread at `p` finds.
pub record Before (m : Memory) (d : ConcurrentArena) (p : Pc) : Type 0 where
  pub serving : IsServing d m.given
  pub same_arena : m.arena.arena ≡ d.arena
  pub shape : SameShape m.arena d
  pub view : View m.arena d p
  pub held_arena : owns_arena p ≡ true → m.arena_locked ≡ true
  pub held_shard : (k : ℕ) → owns_shard k p ≡ true → m.shard_locked k ≡ true
  pub free_arena : m.arena_locked ≡ false → SameCounters m.arena d
  pub free_shard : (k : ℕ) → m.shard_locked k ≡ false → SameShard m.arena d k

-- The step is defined, and does what the invariant wants.
abbrev pub Moves : Memory → ConcurrentArena → ℕ → Event → Pc → Type 0
Moves m d cpu_id e p =
    (m' : Memory) × (cpu_id' : ℕ) × (d' : ConcurrentArena) × (p' : Pc) × (move m e cpu_id p
      ≡ some (m', cpu_id', p'))
    × After m d p m' d' p'

module _ (m : Memory) (d : ConcurrentArena) {p : Pc} (b : Before m d p) where
  pub same_data :
      (p' : Pc) (flag : Bool) (flags : ℕ → Bool)
      → View m.arena d p'
      → Handover m.arena_locked (owns_arena p) flag (owns_arena p')
      → ((k : ℕ) → Handover (m.shard_locked k) (owns_shard k p) (flags k) (owns_shard k p'))
      → (flag ≡ false → SameCounters m.arena d)
      → ((k : ℕ) → flags k ≡ false → SameShard m.arena d k)
      → After m d p (record m { arena_locked = flag; shard_locked = flags }) d p'
  same_data p' flag flags view arena_mutex shard_mutex free_arena free_shard = record {
    serving = b.serving;
    same_arena = b.same_arena;
    shape = b.shape;
    static = (refl, refl);
    view = view;
    arena_mutex = arena_mutex;
    shard_mutex = shard_mutex;
    free_arena = free_arena;
    free_shard = free_shard;
    counters = λ e. ((refl, refl, refl), (refl, refl, refl));
    shards = λ k e. (refl, refl);
  }

  -- No mutex changes hands.
  pub goes_on :
      (p' : Pc)
      → View m.arena d p'
      → owns_arena p' ≡ owns_arena p
      → ((k : ℕ) → owns_shard k p' ≡ owns_shard k p)
      → After m d p m d p'
  goes_on p' view arena_kept shard_kept =
      same_data p' m.arena_locked m.shard_locked view (inl (refl, arena_kept))
        (λ k. inl (refl, shard_kept k)) b.free_arena b.free_shard

  -- A test-and-set of the arena's flag, which ends at `won` or at `lost`.
  pub sets_arena :
      (won lost : Pc)
      → owns_arena p ≡ false
      → owns_arena won ≡ true
      → owns_arena lost ≡ false
      → ((k : ℕ) → (owns_shard k won ≡ owns_shard k p) × (owns_shard k lost ≡ owns_shard k p))
      → (SameCounters m.arena d → View m.arena d won)
      → View m.arena d lost
      → After m d p (record m { arena_locked = true }) d (if not m.arena_locked then won else lost)
  sets_arena won lost out own free kept view_won view_lost =
      either (After m d p (record m { arena_locked = true }) d) (not m.arena_locked) won lost
        (λ e.
          let open_ : m.arena_locked ≡ false = ground (arith, e) in
          same_data won true m.shard_locked (view_won (b.free_arena open_))
            (inr (inl (open_, refl, own))) (λ k. inl (refl, (kept k).0)) (λ h. cc) b.free_shard)
        (λ e.
          same_data lost true m.shard_locked view_lost (inl (ground (arith, e), free ∙ sym out))
            (λ k. inl (refl, (kept k).1)) (λ h. cc) b.free_shard)

  -- A test-and-set of a shard's flag.
  pub sets_shard :
      (k : ℕ) (won lost : Pc)
      → (owns_arena won ≡ owns_arena p) × (owns_arena lost ≡ owns_arena p)
      → ((j : ℕ) → owns_shard j p ≡ false)
      → ((j : ℕ) → owns_shard j won ≡ (j == k))
      → ((j : ℕ) → owns_shard j lost ≡ false)
      → (SameShard m.arena d k → View m.arena d won)
      → View m.arena d lost
      → After m d p
          (record m { shard_locked = put k true m.shard_locked })
          d
          (if not (m.shard_locked k) then won else lost)
  sets_shard k won lost kept out own free view_won view_lost =
      let flags = put k true m.shard_locked in
      let cases = put-cases k true m.shard_locked in
      either (After m d p (record m { shard_locked = flags }) d) (not (m.shard_locked k)) won lost
        (λ e.
          let open_ : m.shard_locked k ≡ false = ground (arith, e) in
          same_data won m.arena_locked flags (view_won (b.free_shard k open_)) (inl (refl, kept.0))
            (λ j. ground (arith, put-cases k true m.shard_locked j, out j, own j, open_))
            b.free_arena (λ j h. ground (arith, put-cases k true m.shard_locked j, b.free_shard j)))
        (λ e.
          same_data lost m.arena_locked flags view_lost (inl (refl, kept.1))
            (λ j. ground (arith, put-cases k true m.shard_locked j, out j, free j, e)) b.free_arena
            (λ j h. ground (arith, put-cases k true m.shard_locked j, b.free_shard j)))
