-- ===== src/Memtable/Memory.antt =====
-- The bytes of the slabs, and reads and writes through pointers. Bytes that nothing was written to have any value.
pub mod Laws
use cs.Base.{
  ℕ, zero, suc, ◌+◌, ◌-◌, ◌&&◌, Option, none, some, List, [], ◌∷◌, length, get_or, take, ltb, leb,
  ◌==◌, if◌then◌else◌,
}
use cs.Arena.{Ptr}

infixl 5 ◌>>=◌
abbrev pub ◌>>=◌ {ℓ κ} : {A : Type ℓ} {B : Type κ} → Option A → (A → Option B) → Option B
none >>= f = none
some a >>= f = f a

-- By slab and offset.
abbrev pub Memory : Type 0
Memory = ℕ → ℕ → ℕ

-- `std::span<std::byte>`
pub record Span : Type 0 where
  pub start : Ptr
  pub bytes : ℕ

-- `ptr + n`
abbrev pub shift : Ptr → ℕ → Ptr
shift p n = record { slab = p.slab; offset = p.offset + n }

unfoldable pub bytes_at : Memory → ℕ → ℕ → ℕ → List ℕ
bytes_at m slab offset zero = []
bytes_at m slab offset (suc n) = m slab offset ∷ bytes_at m slab (offset + 1) n

module _ (slabs : List ℕ) where
  -- The bytes of a span that begins at a pointer, as far as its slab goes: to read beyond them is to
  -- read outside the slab.
  unfoldable pub view : Memory → Ptr → ℕ → List ℕ
  view m p n = take n (bytes_at m p.slab p.offset (get_or slabs p.slab 0 - p.offset))

  unfoldable pub contents : Memory → Span → Option (List ℕ)
  contents m s =
      if leb (s.start.offset + s.bytes) (get_or slabs s.start.slab 0)
      then some (bytes_at m s.start.slab s.start.offset s.bytes)
      else none

unfoldable pub poke : Memory → Ptr → List ℕ → Memory
poke m p bytes slab offset =
    if slab == p.slab && (leb p.offset offset && ltb offset (p.offset + length bytes))
    then get_or bytes (offset - p.offset) 0
    else m slab offset

-- `memcpy`
unfoldable pub write : List ℕ → Memory → Ptr → List ℕ → Option Memory
write slabs m p bytes =
    if leb (p.offset + length bytes) (get_or slabs p.slab 0) then some (poke m p bytes) else none
