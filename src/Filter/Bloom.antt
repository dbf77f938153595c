-- ===== src/Filter/Bloom.antt =====
-- `BloomFilter` of filter.cpp: the constructor, `insert`, `contains` and the hashes.
pub mod Positions
pub mod Contents
pub mod Undefined
pub mod File
mod Examples
use cs.Base.{
  ℕ, zero, suc, ◌+◌, ◌*◌, ◌/◌, ◌%◌, ◌^◌, bit_xor, Bool, true, false, List, [], ◌∷◌, ltb,
  if◌then◌else◌,
}
use cs.Base.Words.{u64_mod}
use cs.Filter.Run.{Run, ok, fault, ◌>>=◌, modulo}
use cs.Filter.Hasher.{Hasher}
use cs.Filter.Bitset.{Bitset}

pub record BloomFilter {ℓ} (B : Type ℓ) : Type ℓ where
  pub size : ℕ
  pub hash_count : ℕ
  pub bits : B

pub splitmix64 : ℕ → ℕ
splitmix64 x0 =
    let x1 = (x0 + 0x9e3779b97f4a7c15) % u64_mod in
    let x2 = bit_xor x1 (x1 / 2 ^ 30) * 0xbf58476d1ce4e5b9 % u64_mod in
    let x3 = bit_xor x2 (x2 / 2 ^ 27) * 0x94d049bb133111eb % u64_mod in bit_xor x3 (x3 / 2 ^ 31)

-- `h1 + i * h2`
pub mixed : ℕ → ℕ → ℕ
unfolding splitmix64
mixed h1 i = (h1 + i * splitmix64 h1 % u64_mod) % u64_mod

module _ {ℓ} {Item : Type ℓ} ⦃h : Hasher Item⦄ where
  pub hash : ℕ → Item → ℕ → Run ℕ
  unfolding mixed modulo
  hash size item i = modulo (mixed (h.hash_item item) i) size

module _ {κ} {B : Type κ} ⦃s : Bitset B⦄ where
  -- `bits_.set(p)` and `bits_.test(p)`, undefined from the size of the bit set on
  pub set_at : B → ℕ → Run B
  set_at b p = if ltb p (s.bit_count b) then ok (s.set_bit b p) else fault

  pub test_at : B → ℕ → Run Bool
  test_at b p = if ltb p (s.bit_count b) then ok (s.test b p) else fault

module _ {ℓ κ} {Item : Type ℓ} {B : Type κ} ⦃h : Hasher Item⦄ ⦃s : Bitset B⦄ where
  -- The loops with `k` rounds left, at index `i`.
  pub insert_loop : ℕ → Item → ℕ → ℕ → B → Run B
  unfolding hash modulo set_at
  insert_loop size item zero i b = ok b
  insert_loop size item (suc k) i b = do
    a ← hash size item i
    p ← modulo a size
    b' ← set_at b p
    insert_loop size item k (i + 1) b'

  pub contains_loop : ℕ → Item → ℕ → ℕ → B → Run Bool
  unfolding hash modulo test_at
  contains_loop size item zero i b = ok true
  contains_loop size item (suc k) i b = do
    a ← hash size item i
    p ← modulo a size
    found ← test_at b p
    elim found [ true ↦ contains_loop size item k (i + 1) b | false ↦ ok false ]

  unfoldable pub insert : BloomFilter B → Item → Run (BloomFilter B)
  unfolding insert_loop
  insert f item = do b ← insert_loop f.size item f.hash_count 0 f.bits; ok (record f { bits = b })

  unfoldable pub contains : BloomFilter B → Item → Run Bool
  unfolding contains_loop
  contains f item = contains_loop f.size item f.hash_count 0 f.bits

unfoldable pub new_bloom {κ} : {B : Type κ} ⦃s : Bitset B⦄ → ℕ → ℕ → BloomFilter B
new_bloom {B} ⦃s⦄ size hash_count = record {
  size = size;
  hash_count = hash_count;
  bits = s.new_bits size;
}

module _ {ℓ κ} {Item : Type ℓ} {B : Type κ} ⦃h : Hasher Item⦄ ⦃s : Bitset B⦄ where
  -- The insertion loop of main.cpp.
  unfoldable pub bloom_insert_all : BloomFilter B → List Item → Run (BloomFilter B)
  unfolding insert
  bloom_insert_all f [] = ok f
  bloom_insert_all f (item ∷ items) = do f' ← insert f item; bloom_insert_all f' items
