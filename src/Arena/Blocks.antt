-- ===== src/Arena/Blocks.antt =====
-- The blocks that a sequence of requests gets: inside their slabs, and apart from one another.
mod Requests
mod Soundness
unfoldable pub use Requests.*
unfoldable pub use Soundness.*
use mathlib.Core.Path.{subst}
use native.Mathlib.Decide.{dec_lt, ℕ_discrete}
use cs.Base.{
  ℕ, ◌+◌, ◌-◌, ◌%◌, ◌^◌, ◌≤◌, ◌<◌, ◌≡◌, ◌≢◌, refl, sym, ◌∙◌, ◌⊎◌, inl, inr, Option, none, some,
  List, [], ◌∷◌, ◌++◌, length, length-append, get_or, get_or-append_left, get_or-append_length, All,
  All-imp, arith, Option-cases,
}
use cs.Arena.SlabSize.{optimize_slab_size_bounds}
use cs.Arena.{new_arena, Ptr, Arena, allocate, allocate_slab, add64, sub64}

run-IsSound :
    (rs : List Request) (a : Arena) (bs : List Block)
    → IsSound a bs
    → All IsPositive rs
    → (bs' : List Block) × (a' : Arena) × (run a bs rs ≡ some (bs', a'))
      × (length bs' ≡ length bs + length rs)
      × All (IsInside a'.slabs) bs'
      × AllApart bs'
unfolding run
run-IsSound [] a bs sound pos = (bs, a, refl, omega arith, sound.inside, sound.apart)
run-IsSound (r ∷ rs) a bs sound pos =
    let (b, a', served, sound') = serve-IsSound a bs r sound pos.0 in
    let (bs', a'', ran, count, inside, apart) = run-IsSound rs a' (b ∷ bs) sound' pos.1 in
    (bs', a'', rw (served, run) ran, omega arith, inside, apart)

pub new_arena-IsSound :
    (align_unit slab_size : ℕ)
    → 0 < align_unit
    → 2 ^ 31 % align_unit ≡ 0
    → IsSound (new_arena align_unit slab_size) []
unfolding new_arena
new_arena-IsSound align_unit slab_size pos div =
    let bounds = optimize_slab_size_bounds align_unit slab_size pos div in
    record {
      positive = omega (arith, bounds);
      small = omega (arith, bounds);
      room = omega arith;
      active = refl;
      inside = tt;
      apart = tt;
    }

-- With an alignment that divides 2 ^ 31, a new arena serves every sequence of requests for at least
-- one byte each: as many blocks as requests, each inside its slab, and any two of them in different
-- slabs or one behind the other.
pub run-new_arena :
    (align_unit slab_size : ℕ) (rs : List Request)
    → 0 < align_unit
    → 2 ^ 31 % align_unit ≡ 0
    → All IsPositive rs
    → (bs : List Block) × (a : Arena) × (run (new_arena align_unit slab_size) [] rs ≡ some (bs, a))
      × (length bs ≡ length rs)
      × All (IsInside a.slabs) bs
      × AllApart bs
run-new_arena align_unit slab_size rs pos div positive =
    let (bs, a, ran, count, inside, apart) =
      run-IsSound rs (new_arena align_unit slab_size) []
        (new_arena-IsSound align_unit slab_size pos div) positive in
    (bs, a, ran, omega arith, inside, apart)
