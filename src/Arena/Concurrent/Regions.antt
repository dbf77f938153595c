-- ===== src/Arena/Concurrent/Regions.antt =====
-- What a concurrent arena has to keep: the parts of the slabs that its shards hold are apart from one
-- another and from the blocks that were handed out.
use mathlib.Core.List.{append_assoc}
use cs.Base.{
  ℕ, zero, suc, ◌+◌, ◌-◌, ◌*◌, ◌%◌, ◌^◌, ◌≤◌, ◌<◌, ◌≡◌, refl, sym, ap, Option, none, some, List, [],
  ◌∷◌, ◌++◌, length, get_or, set, All, arith,
}
use cs.Base.Bits.{bit_and-le}
use cs.Arena.{Ptr, Arena}
use cs.Arena.Blocks.{Block, block_at, IsSound}
use cs.Arena.Splitting.{front, back, out-IsSound, in-IsSound, cut-IsSound, drop-IsSound}
use cs.Arena.Concurrent.{Shard, ConcurrentArena, get_shard}

abbrev pub region_at : Option Ptr → ℕ → List Block
region_at none unused = []
region_at (some p) unused = block_at p unused ∷ []

abbrev pub region : Shard → List Block
region s = region_at s.begin s.unused

unfoldable pub regions : List Shard → List Block
regions [] = []
regions (s ∷ ss) = region s ++ regions ss

-- A shard without memory has none to give.
abbrev pub IsBacked : Shard → Type 0
IsBacked s = (s.begin ≡ none → s.unused ≡ 0) × (s.unused < 2 ^ 64)

pub record IsServing (c : ConcurrentArena) (bs : List Block) : Type 0 where
  pub sound : IsSound c.arena (regions c.shards ++ bs)
  pub has_shards : 0 < length c.shards
  pub few_shards : length c.shards < 2 ^ 64
  pub backed : All IsBacked c.shards
  pub counted : (c.used ≡ c.arena.used) × (c.unused ≡ c.arena.unused) × (c.size ≡ c.arena.size)
  pub slice_small : c.slab_slice_size ≤ 128 * 1024

pub get_shard-lt :
    (c : ConcurrentArena) (cpu_id : ℕ) (bs : List Block)
    → IsServing c bs
    → get_shard c cpu_id < length c.shards
unfolding get_shard
get_shard-lt c cpu_id bs s =
    let n = length c.shards in
    let few = s.few_shards in
    let some_there = s.has_shards in omega (arith, bit_and-le cpu_id ((n + 2 ^ 64 - 1) % 2 ^ 64))

pub regions-append : (ss ts : List Shard) → regions (ss ++ ts) ≡ regions ss ++ regions ts
unfolding regions
regions-append [] ts = refl
regions-append (s ∷ ss) ts =
    rw (regions-append ss ts) (sym (append_assoc (region s) (regions ss) (regions ts)))

-- The shards around the one at index `i`.
pub split_at {ℓ} :
    {A : Type ℓ} (xs : List A) (i : ℕ) (d : A)
    → i < length xs
    → (us : List A) × (vs : List A) × (xs ≡ us ++ get_or xs i d ∷ vs)
      × ((y : A) → set xs i y ≡ us ++ y ∷ vs)
split_at [] i d h = absurd (omega arith)
split_at (x ∷ xs) zero d h = ([], xs, refl, λ y. refl)
split_at (x ∷ xs) (suc i) d h =
    let (us, vs, same, put) = split_at xs i d (omega arith) in
    (x ∷ us, vs, ap (λ t. x ∷ t) same, λ y. ap (λ t. x ∷ t) (put y))

module _ (a : Arena) where
  abbrev Sound : List Block → Type 0
  Sound = IsSound a

  -- The front of the region in the middle is handed out.
  pub hand_out :
      (rs ws bs : List Block) (b : Block) (k : ℕ)
      → k ≤ b.bytes
      → Sound (rs ++ b ∷ (ws ++ bs))
      → Sound (rs ++ back k b ∷ (ws ++ front k b ∷ bs))
  hand_out rs ws bs b k le sound =
      let cut = cut-IsSound a b (rs ++ (ws ++ bs)) k le (out-IsSound a rs b (ws ++ bs) sound) in
      let swapped = out-IsSound a (back k b ∷ []) (front k b) (rs ++ (ws ++ bs)) cut in
      let ordered = rw (← append_assoc rs ws bs) at swapped in
      let placed = in-IsSound a (back k b ∷ rs ++ ws) (front k b) bs ordered in
      in-IsSound a rs (back k b) (ws ++ front k b ∷ bs)
        (rw (append_assoc rs ws (front k b ∷ bs)) at placed)

  -- What a shard holds is given up.
  pub give_up :
      (rs : List Block) (o : Option Ptr) (unused : ℕ) (vs : List Block)
      → Sound (rs ++ (region_at o unused ++ vs))
      → Sound (rs ++ vs)
  give_up rs none unused vs sound = sound
  give_up rs (some p) unused vs sound =
      drop-IsSound a _ _ (out-IsSound a rs (block_at p unused) vs sound)

pub regions_around :
    (us : List Shard) (s : Shard) (vs : List Shard) (bs : List Block)
    → regions (us ++ s ∷ vs) ++ bs ≡ regions us ++ (region s ++ (regions vs ++ bs))
unfolding regions
regions_around us s vs bs = rw (
  regions-append us (s ∷ vs),
  append_assoc (regions us) (region s ++ regions vs) bs,
  append_assoc (region s) (regions vs) bs,
)
