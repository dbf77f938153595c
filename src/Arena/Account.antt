-- ===== src/Arena/Account.antt =====
-- The counters of the arena: what `used`, `unused` and `size` return after a sequence of requests.
use cs.Base.{
  ℕ, ◌+◌, ◌*◌, ◌%◌, ◌^◌, ◌≤◌, ◌<◌, ◌≡◌, refl, none, some, List, [], ◌∷◌, All, ltb, leb,
  if◌then◌else◌, arith,
}
use cs.Arena.{new_arena, Arena, allocate, allocate_slab}
use cs.Arena.SlabSize.{optimize_slab_size_bounds}
use cs.Arena.Blocks.{
  Request, piece, whole, Block, serve, run, IsSound, IsPositive, serve-IsSound, new_arena-IsSound,
}

abbrev bytes : Request → ℕ
bytes (piece n) = n
bytes (whole n) = n

abbrev pub total : List Request → ℕ
total [] = 0
total (r ∷ rs) = bytes r + total rs

-- The bytes that a request makes the arena count a second time: those left in the active slab that it gives up.
abbrev recount : Arena → Request → ℕ
recount a (piece n) =
    if leb a.slab_size n then 0 else if ltb a.active_slab_unused n then a.active_slab_unused else 0
recount a (whole n) = 0

unfoldable pub recounts : Arena → List Request → ℕ
recounts a [] = 0
recounts a (r ∷ rs) = recount a r + elim (serve a r) [ none ↦ 0 | some (b, a') ↦ recounts a' rs ]

abbrev sum : Arena → ℕ
sum a = a.used + a.unused + a.size

-- The counters after a request, for one before it.
abbrev Counts : Arena → Request → Arena → Type 0
Counts a r a' =
    (a'.slab_size ≡ a.slab_size)
    × (a'.active_slab_unused ≤ a'.unused)
    × (a'.used ≡ a.used + bytes r)
    × (a'.used + a'.unused + a.size ≡ a.used + a.unused + a'.size + recount a r)
    × (sum a' ≤ sum a + (2 * bytes r + 2 ^ 33))

serve-Counts :
    (a : Arena) (r : Request) (b : Block) (a' : Arena)
    → a.slab_size ≤ 2 ^ 32
    → a.active_slab_unused ≤ a.slab_size
    → a.active_slab_unused ≤ a.unused
    → sum a + (2 * bytes r + 2 ^ 33) < 2 ^ 64
    → serve a r ≡ some (b, a')
    → Counts a r a'
unfolding serve allocate allocate_slab
serve-Counts a (piece n) b a' small room counted budget e = ground (arith, e)
serve-Counts a (whole n) b a' small room counted budget e = ground (arith, e)

-- More than the counters of the arena come to together after the requests.
abbrev pub cost : List Request → ℕ
cost [] = 0
cost (r ∷ rs) = 2 * bytes r + 2 ^ 33 + cost rs

run-counts :
    (rs : List Request) (a : Arena) (bs : List Block)
    → IsSound a bs
    → a.slab_size ≤ 2 ^ 32
    → a.active_slab_unused ≤ a.unused
    → All IsPositive rs
    → sum a + cost rs < 2 ^ 64
    → (bs' : List Block) × (a' : Arena) × (run a bs rs ≡ some (bs', a'))
      × (a'.used ≡ a.used + total rs)
      × (a'.used + a'.unused + a.size ≡ a.used + a.unused + a'.size + recounts a rs)
unfolding run recounts
run-counts [] a bs sound small counted pos budget = (bs, a, refl, omega arith, omega arith)
run-counts (r ∷ rs) a bs sound small counted pos budget =
    let (b, a', served, sound') = serve-IsSound a bs r sound pos.0 in
    let (same, counted', used, account, bound) =
      serve-Counts a r b a' small sound.room counted (omega arith) served in
    let (bs', a'', ran, used', account') =
      run-counts rs a' (b ∷ bs) sound' (omega arith) counted' pos.1 (omega arith) in
    (bs', a'', rw (served, run) ran, omega arith, rw served (omega arith))

-- After a sequence of requests for at least one byte each, for which twice the bytes and 2 ^ 33 for
-- each request come to less than 2 ^ 64, and with an alignment that divides 2 ^ 31, a new arena has counted as used the bytes that were asked for, and its used and unused bytes come to
-- its size and, once more, all that was left in each active slab when `allocate` gave it up.
pub run-new_arena_counts :
    (align_unit slab_size : ℕ) (rs : List Request)
    → 0 < align_unit
    → 2 ^ 31 % align_unit ≡ 0
    → All IsPositive rs
    → cost rs < 2 ^ 64
    → (bs : List Block) × (a : Arena) × (run (new_arena align_unit slab_size) [] rs ≡ some (bs, a))
      × (a.used ≡ total rs)
      × (a.used + a.unused ≡ a.size + recounts (new_arena align_unit slab_size) rs)
unfolding new_arena
run-new_arena_counts align_unit slab_size rs pos div positive budget =
    let bounds = optimize_slab_size_bounds align_unit slab_size pos div in
    let (bs, a, ran, used, account) =
      run-counts rs (new_arena align_unit slab_size) []
        (new_arena-IsSound align_unit slab_size pos div) (omega (arith, bounds)) (omega arith)
        positive (omega arith) in
    (bs, a, ran, omega arith, omega arith)
