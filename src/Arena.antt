-- ===== src/Arena.antt =====
-- mousedb/src/arena.hpp and arena.cpp: `Arena`, which cuts allocations out of slabs, and the rounding
-- of slab sizes. `new std::byte[n]` gives a block of its own, so that an address is a slab's position
-- in `slabs_` with an offset, and `slabs_` is kept as the list of the slabs' sizes.
pub mod SlabSize
pub mod Account
pub mod Blocks
pub mod Splitting
pub mod Packing
pub mod Concurrent
mod Examples
use cs.Base.{
  ℕ, ◌+◌, ◌-◌, ◌*◌, ◌/◌, ◌%◌, ◌^◌, min, max, not, Bool, Option, none, some, List, [], ◌∷◌, ◌++◌,
  length, ltb, leb, ◌==◌, if◌then◌else◌,
}
use cs.Base.Words.{u64_mod}

-- `alignof(std::max_align_t)` is `align_unit`.
pub optimize_slab_size : ℕ → ℕ → ℕ
optimize_slab_size align_unit slab_size =
    let size = min (max slab_size 4096) (2 ^ 31) in
    if not (size % align_unit == 0) then (1 + size / align_unit) * align_unit else size

-- `+=` and `-=` on a `size_t`.
abbrev pub add64 : ℕ → ℕ → ℕ
add64 a b = (a + b) % u64_mod

abbrev pub sub64 : ℕ → ℕ → ℕ
sub64 a b = (a + u64_mod - b) % u64_mod

pub record Ptr : Type 0 where
  pub slab : ℕ
  pub offset : ℕ

pub record Arena : Type 0 where
  pub slab_size : ℕ
  pub slabs : List ℕ
  -- `none` is `nullptr`
  pub active_slab : Option Ptr
  pub active_slab_unused : ℕ
  pub used : ℕ
  pub unused : ℕ
  pub size : ℕ

pub new_arena : ℕ → ℕ → Arena
unfolding optimize_slab_size
new_arena align_unit slab_size = record {
  slab_size = optimize_slab_size align_unit slab_size;
  slabs = [];
  active_slab = none;
  active_slab_unused = 0;
  used = 0;
  unused = 0;
  size = 0;
}

pub slabify : Arena → ℕ → Ptr × Arena
slabify a size = (
  record { slab = length a.slabs; offset = 0 },
  record a { size = add64 a.size size; slabs = a.slabs ++ size ∷ [] },
)

-- The branch that starts a new active slab.
pub refill : Arena → ℕ → Ptr × Arena
unfolding slabify
refill a size =
    let unused = add64 a.unused (sub64 (add64 a.active_slab_unused a.slab_size) size) in
    let (p, b) = slabify (record a { unused = unused }) a.slab_size in
    (p, record b { active_slab = some p; active_slab_unused = sub64 a.slab_size size })

-- The branch that cuts the allocation out of the active slab; adding to `nullptr` is undefined, `none`.
pub bump : Arena → ℕ → Option (Ptr × Arena)
bump a size = elim a.active_slab [
  | none ↦ none
  | some p ↦ some (
    record { slab = p.slab; offset = p.offset + (a.slab_size - a.active_slab_unused) },
    record a { active_slab_unused = sub64 a.active_slab_unused size; unused = sub64 a.unused size },
  )
]

pub allocate : Arena → ℕ → Option (Ptr × Arena)
unfolding slabify refill bump
allocate a size =
    let a' = record a { used = add64 a.used size } in
    if leb a.slab_size size
    then some (slabify a' size)
    else if ltb a.active_slab_unused size
    then some (refill a' size)
    else bump a' size

pub allocate_slab : Arena → ℕ → Ptr × Arena
unfolding slabify
allocate_slab a size = slabify (record a { used = add64 a.used size }) size
