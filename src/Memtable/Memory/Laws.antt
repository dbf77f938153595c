-- ===== src/Memtable/Memory/Laws.antt =====
-- What is read after a write.
use native.Mathlib.Nat.{add-zero}
use cs.Base.{
  ℕ, zero, suc, ◌+◌, ◌-◌, ◌≤◌, ◌<◌, ◌≡◌, refl, sym, ap, ◌∙◌, inr, some, List, [], ◌∷◌, ◌++◌, length,
  length-append, get_or, take, drop, take-append_exact, drop-append_exact, take-append_length,
  drop-append_length, arith,
}
use cs.Arena.{Ptr}
use cs.Arena.Blocks.{Block, block_at, IsApart}
use cs.Memtable.Memory.{Memory, shift, bytes_at, view, contents, poke, write}

pub length-bytes_at : (m : Memory) (s o n : ℕ) → length (bytes_at m s o n) ≡ n
unfolding bytes_at
length-bytes_at m s o zero = refl
length-bytes_at m s o (suc n) = ap suc (length-bytes_at m s (o + 1) n)

pub bytes_at-append :
    (m : Memory) (s o a b : ℕ) → bytes_at m s o (a + b) ≡ bytes_at m s o a ++ bytes_at m s (o + a) b
unfolding bytes_at
bytes_at-append m s o zero b = ground (arith)
bytes_at-append m s o (suc a) b =
    let assoc : o + suc a ≡ (o + 1) + a = omega arith in
    let next : suc a + b ≡ suc (a + b) = omega arith in
    rw (next, assoc, bytes_at) (ap (λ t. m s o ∷ t) (bytes_at-append m s (o + 1) a b))

-- The bytes are the same if each of them is.
bytes_at-congr :
    (m m' : Memory) (s o n : ℕ)
    → ((k : ℕ) → k < n → m s (o + k) ≡ m' s (o + k))
    → bytes_at m s o n ≡ bytes_at m' s o n
unfolding bytes_at
bytes_at-congr m m' s o zero h = refl
bytes_at-congr m m' s o (suc n) h =
    let first : m s o ≡ m' s o = rw add-zero at (h 0 (omega arith)) in
    let rest = bytes_at-congr m m' s (o + 1) n (λ k lt.
      let assoc : (o + 1) + k ≡ o + suc k = omega arith in rw assoc (h (suc k) (omega arith))) in
    cc

bytes_at-get_or :
    (m : Memory) (s o : ℕ) (bs : List ℕ)
    → ((k : ℕ) → k < length bs → m s (o + k) ≡ get_or bs k 0)
    → bytes_at m s o (length bs) ≡ bs
unfolding bytes_at
bytes_at-get_or m s o [] h = refl
bytes_at-get_or m s o (b ∷ bs) h =
    let first : m s o ≡ b = rw add-zero at (h 0 (omega arith)) in
    let rest = bytes_at-get_or m s (o + 1) bs (λ k lt.
      let assoc : (o + 1) + k ≡ o + suc k = omega arith in rw assoc (h (suc k) (omega arith))) in
    cc

module _ (m : Memory) (p : Ptr) (bs : List ℕ) where
  pub poke_self : bytes_at (poke m p bs) p.slab p.offset (length bs) ≡ bs
  unfolding poke
  poke_self = bytes_at-get_or (poke m p bs) p.slab p.offset bs (λ k lt. ground arith)

  pub poke_apart :
      (c : Block)
      → IsApart (block_at p (length bs)) c
      → bytes_at (poke m p bs) c.slab c.offset c.bytes ≡ bytes_at m c.slab c.offset c.bytes
  unfolding poke
  poke_apart c apart = bytes_at-congr (poke m p bs) m c.slab c.offset c.bytes (λ k lt. ground arith)

-- A write right behind `n` bytes adds to them.
pub poke_behind :
    (m : Memory) (p : Ptr) (n : ℕ) (bs : List ℕ)
    → bytes_at (poke m (shift p n) bs) p.slab p.offset (n + length bs)
      ≡ bytes_at m p.slab p.offset n ++ bs
poke_behind m p n bs =
    rw
      (
        bytes_at-append (poke m (shift p n) bs) p.slab p.offset n (length bs),
        poke_self m (shift p n) bs,
        poke_apart m (shift p n) bs (block_at p n) (inr (inr (omega arith))),
      )
      refl

-- What lies apart from a block is the same in both memories.
abbrev pub Keeps : Block → Memory → Memory → Type 0
Keeps b m m' =
    (c : Block)
    → IsApart b c
    → bytes_at m' c.slab c.offset c.bytes ≡ bytes_at m c.slab c.offset c.bytes

pub poke-Keeps :
    (m : Memory) (p : Ptr) (size n : ℕ) (bs : List ℕ)
    → n + length bs ≤ size
    → Keeps (block_at p size) m (poke m (shift p n) bs)
poke-Keeps m p size n bs le c apart = poke_apart m (shift p n) bs c (ground arith)

pub Keeps-trans : (b : Block) (l m n : Memory) → Keeps b l m → Keeps b m n → Keeps b l n
Keeps-trans b l m n h k c apart = k c apart ∙ h c apart

-- Two strings that stand behind one another.
pub bytes_at-split :
    (m : Memory) (s o : ℕ) (xs ys : List ℕ)
    → bytes_at m s o (length (xs ++ ys)) ≡ xs ++ ys
    → (bytes_at m s o (length xs) ≡ xs) × (bytes_at m s (o + length xs) (length ys) ≡ ys)
bytes_at-split m s o xs ys h =
    let both : bytes_at m s o (length xs) ++ bytes_at m s (o + length xs) (length ys) ≡ xs ++ ys =
      sym (bytes_at-append m s o (length xs) (length ys)) ∙ rw length-append at h in
    let size = length-bytes_at m s o (length xs) in
    let first = ap (take (length xs)) both in
    let second = ap (drop (length xs)) both in
    (
      sym (take-append_exact (length xs) (bytes_at m s o (length xs)) _ size)
          ∙ (first ∙ take-append_length xs ys),
      sym (drop-append_exact (length xs) (bytes_at m s o (length xs)) _ size)
          ∙ (second ∙ drop-append_length xs ys),
    )

-- A string that stands inside its slab is what a view of it begins with.
pub view-stored :
    (slabs : List ℕ) (m : Memory) (p : Ptr) (bs : List ℕ)
    → bytes_at m p.slab p.offset (length bs) ≡ bs
    → p.offset + length bs ≤ get_or slabs p.slab 0
    → (rest : List ℕ) × ((n : ℕ) → view slabs m p n ≡ take n (bs ++ rest))
unfolding view
view-stored slabs m p bs stored fits =
    let room = get_or slabs p.slab 0 - p.offset in
    let split : room ≡ length bs + (room - length bs) = omega arith in
    (
      bytes_at m p.slab (p.offset + length bs) (room - length bs),
      λ n. ap (take n) (
          ap (bytes_at m p.slab p.offset) split
          ∙ (bytes_at-append m p.slab p.offset (length bs) (room - length bs)
              ∙ ap (λ t. t ++ bytes_at m p.slab (p.offset + length bs) (room - length bs)) stored)),
    )

pub contents-stored :
    (slabs : List ℕ) (m : Memory) (p : Ptr) (bs : List ℕ)
    → bytes_at m p.slab p.offset (length bs) ≡ bs
    → p.offset + length bs ≤ get_or slabs p.slab 0
    → contents slabs m (record { start = p; bytes = length bs }) ≡ some bs
unfolding contents
contents-stored slabs m p bs stored fits = ground (arith, stored)

pub write-some :
    (slabs : List ℕ) (m : Memory) (p : Ptr) (bs : List ℕ)
    → p.offset + length bs ≤ get_or slabs p.slab 0
    → write slabs m p bs ≡ some (poke m p bs)
unfolding write
write-some slabs m p bs fits = ground arith
