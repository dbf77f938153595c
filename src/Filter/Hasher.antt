-- ===== src/Filter/Hasher.antt =====
-- What the filters take from the C++ library, `std::hash` and the random engine, and the fingerprint
-- and the two bucket indices of an item. The results of both depend on the implementation, so they
-- are arguments of the model.
use cs.Base.{ℕ, ◌-◌, ◌%◌, ◌^◌, ◌≤◌, ◌<◌, bit_and, bit_xor, ltb, ◌==◌, if◌then◌else◌}
use cs.Filter.Run.{Run, ok, fault, ◌>>=◌, modulo}

-- `std::hash<std::string_view>` and `std::hash<uint8_t>`; the results are `size_t`s.
pub record Hasher {ℓ} (Item : Type ℓ) : Type ℓ where
  pub hash_item : Item → ℕ
  pub hash_byte : ℕ → ℕ
  pub hash_item-lt : (item : Item) → hash_item item < 2 ^ 64
  pub hash_byte-lt : (byte : ℕ) → hash_byte byte < 2 ^ 64

-- `std::mt19937_64` with a state of type `G`: `rng_()`, and a draw of
-- `std::uniform_int_distribution<size_t>(0, b)`, which lies in that range.
pub record Engine {ℓ} (G : Type ℓ) : Type ℓ where
  pub draw : G → ℕ × G
  pub uniform : ℕ → G → ℕ × G
  pub uniform-le : (b : ℕ) (g : G) → (uniform b g).0 ≤ b

module _ {ℓ} {Item : Type ℓ} ⦃h : Hasher Item⦄ where
  -- The low `fingerprint_size` bits of the hash, cast to a byte, or 1 where that is 0. The shift of
  -- the 1 is undefined from the width of its type on: 64 bits in `CuckooFilter`, 32 in `CuckooMap`.
  unfoldable pub fingerprint_of : ℕ → ℕ → Item → Run ℕ
  fingerprint_of width fingerprint_size item =
      let fp = bit_and (h.hash_item item) (2 ^ fingerprint_size - 1) % 256 in
      if ltb fingerprint_size width then ok (if fp == 0 then 1 else fp) else fault

  unfoldable pub index1_of : ℕ → Item → Run ℕ
  unfolding modulo
  index1_of bucket_count item = modulo (h.hash_item item) bucket_count

-- `(i1 ^ (std::hash<uint8_t>{}(fp) % bucket_count_)) % bucket_count_`
unfoldable pub index2_of : (ℕ → ℕ) → ℕ → ℕ → ℕ → Run ℕ
unfolding modulo
index2_of hash_byte bucket_count i1 fp = do
  offset ← modulo (hash_byte fp) bucket_count
  modulo (bit_xor i1 offset) bucket_count
