-- ===== src/Arena/Blocks/Requests.antt =====
-- Requests to an arena, the blocks that they get, and what the arena has to keep for those.
use cs.Base.{
  ℕ, ◌+◌, ◌-◌, ◌^◌, ◌≤◌, ◌<◌, ◌≡◌, ◌≢◌, ◌⊎◌, Option, none, some, List, [], ◌∷◌, length, get_or, All,
}
use cs.Arena.{Ptr, Arena, allocate, allocate_slab}

-- A call of `allocate` or of `allocate_slab`, with the number of bytes.
pub data Request : Type 0 where
  piece whole : ℕ → Request

-- A block that was handed out.
pub record Block : Type 0 where
  pub slab : ℕ
  pub offset : ℕ
  pub bytes : ℕ

abbrev pub block_at : Ptr → ℕ → Block
block_at p n = record { slab = p.slab; offset = p.offset; bytes = n }

unfoldable pub serve : Arena → Request → Option (Block × Arena)
serve a (piece n) = elim (allocate a n) [ none ↦ none | some (p, b) ↦ some (block_at p n, b) ]
serve a (whole n) = let (p, b) = allocate_slab a n in some (block_at p n, b)

-- The requests in turn, and the blocks with the last one first.
unfoldable pub run : Arena → List Block → List Request → Option (List Block × Arena)
run a blocks [] = some (blocks, a)
run a blocks (r ∷ rs) = elim (serve a r) [ none ↦ none | some (b, a') ↦ run a' (b ∷ blocks) rs ]

abbrev pub IsInside : List ℕ → Block → Type 0
IsInside slabs b = (b.slab < length slabs) × (b.offset + b.bytes ≤ get_or slabs b.slab 0)

abbrev pub IsApart : Block → Block → Type 0
IsApart b c =
    (b.slab ≢ c.slab) ⊎ ((b.offset + b.bytes ≤ c.offset) ⊎ (c.offset + c.bytes ≤ b.offset))

abbrev pub AllApart : List Block → Type 0
AllApart [] = Unit
AllApart (b ∷ bs) = All (IsApart b) bs × AllApart bs

-- A request for at least one byte.
abbrev pub IsPositive : Request → Type 0
IsPositive (piece n) = 0 < n
IsPositive (whole n) = 0 < n

-- What the active slab means: the blocks in it end where its unused part begins.
abbrev pub IsActive : Arena → List Block → Option Ptr → Type 0
IsActive a bs none = a.active_slab_unused ≡ 0
IsActive a bs (some p) =
    (p.slab < length a.slabs)
    × (p.offset ≡ 0)
    × (get_or a.slabs p.slab 0 ≡ a.slab_size)
    × All (λ b. b.slab ≡ p.slab → b.offset + b.bytes ≤ a.slab_size - a.active_slab_unused) bs

pub record IsSound (a : Arena) (bs : List Block) : Type 0 where
  pub positive : 0 < a.slab_size
  pub small : a.slab_size < 2 ^ 64
  pub room : a.active_slab_unused ≤ a.slab_size
  pub active : IsActive a bs a.active_slab
  pub inside : All (IsInside a.slabs) bs
  pub apart : AllApart bs
