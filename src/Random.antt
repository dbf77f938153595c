-- ===== src/Random.antt =====
-- mousedb/src/random.hpp and random.cpp: the generator of 31-bit numbers, one for each thread.
pub mod Cycle
mod Examples
use cs.Base.{
  ℕ, ◌+◌, ◌-◌, ◌*◌, ◌/◌, ◌%◌, ◌^◌, bit_and, bit_or, Bool, Option, none, some, ltb, if◌then◌else◌,
}
use cs.Base.Words.{u64_mod}

-- The enumerators `M` and `A`.
abbrev pub modulus : ℕ
modulus = 2147483647

abbrev pub multiplier : ℕ
multiplier = 16807

pub record Random : Type 0 where
  pub seed : ℕ

abbrev pub new_random : ℕ → Random
new_random seed = record { seed = seed }

-- `Random::instance`: what the thread's pointer refers to after the call, and what is returned.
-- `thread_hash` is the hash of the thread's id.
pub instance_of : ℕ → Option Random → Random
instance_of thread_hash none = new_random thread_hash
instance_of thread_hash (some r) = r

-- `static_cast<uint32_t>((product >> 31) + (product & M))`
pub fold_product : ℕ → ℕ
fold_product product = (product / 2 ^ 31 + bit_and product modulus) % 2 ^ 32

-- The new state and the number that is returned, cast to 32 bits.
pub next32 : Random → Random × ℕ
unfolding fold_product
next32 r =
    let product = r.seed * multiplier % u64_mod in
    let folded = fold_product product in
    let seed = if ltb modulus folded then folded - modulus else folded in
    (record { seed = seed }, seed % 2 ^ 32)

-- C++ does not fix which operand of `|` is evaluated first: `high_first` says which.
pub next64 : Bool → Random → Random × ℕ
next64 high_first r =
    let (r₁, a) = next32 r in
    let (r₂, b) = next32 r₁ in
    let high = if high_first then a else b in
    let low = if high_first then b else a in (r₂, bit_or (high * 2 ^ 32 % u64_mod) low)
