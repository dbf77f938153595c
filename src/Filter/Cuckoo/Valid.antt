-- ===== src/Filter/Cuckoo/Valid.antt =====
-- The filters on which nothing is undefined, and where their items belong.
use native.Mathlib.Nat.{mod-lt, pow-le-pow_right, one-le-pow}
use cs.Base.{ℕ, ◌*◌, ◌%◌, ◌^◌, ◌≤◌, ◌<◌, ◌≡◌, bit_xor, length, ◌==◌, if◌then◌else◌, arith}
use cs.Base.Bits.{bit_and_mask}
use cs.Filter.Run.{ok, ◌>>=◌, modulo_ok}
use cs.Filter.Hasher.{Hasher, fingerprint_of, index1_of, index2_of}
use cs.Filter.Cuckoo.{CuckooFilter, locate}

pub record IsValid {ℓ} {G : Type ℓ} (f : CuckooFilter G) : Type 0 where
  pub has_buckets : 0 < f.bucket_count
  pub has_slots : 0 < f.bucket_size
  pub has_bits : 0 < f.fingerprint_size
  pub few_bits : f.fingerprint_size ≤ 8
  pub fits : f.bucket_count * f.bucket_size < 2 ^ 64
  pub filled : length f.buckets ≡ f.bucket_count * f.bucket_size

-- The alternate bucket of fingerprint `fp` in bucket `i`.
unfoldable pub alternate : (ℕ → ℕ) → ℕ → ℕ → ℕ → ℕ
alternate hash_byte n i fp = bit_xor i (hash_byte fp % n) % n

pub alternate-lt : (hash_byte : ℕ → ℕ) (n i fp : ℕ) → 0 < n → alternate hash_byte n i fp < n
unfolding alternate
alternate-lt hash_byte n i fp h = mod-lt _ h

pub index2_of-alternate :
    (hash_byte : ℕ → ℕ) (n i fp : ℕ)
    → 0 < n
    → index2_of hash_byte n i fp ≡ ok (alternate hash_byte n i fp)
unfolding index2_of alternate
index2_of-alternate hash_byte n i fp h = rw (modulo_ok (hash_byte fp) n h, ◌>>=◌) (modulo_ok _ n h)

byte_wide : (bits : ℕ) → bits ≤ 8 → 2 ^ bits ≤ 256
byte_wide bits small = pow-le-pow_right {n = 2} (omega arith) {i = bits} {j = 8} small

module _ {ℓ} {Item : Type ℓ} ⦃h : Hasher Item⦄ where
  -- The fingerprint and the first bucket of an item.
  pub print_of : ℕ → Item → ℕ
  print_of bits item = let fp = h.hash_item item % 2 ^ bits in if fp == 0 then 1 else fp

  unfoldable pub home : ℕ → Item → ℕ
  home n item = h.hash_item item % n

  pub home-lt : (n : ℕ) (item : Item) → 0 < n → home n item < n
  unfolding home
  home-lt n item pos = mod-lt _ pos

  pub print_of_bounds :
      (bits : ℕ) (item : Item) → bits ≤ 8 → (0 < print_of bits item) × (print_of bits item < 256)
  unfolding print_of
  print_of_bounds bits item small = ground (arith, byte_wide bits, one-le-pow bits 2)

  pub fingerprint_of-print_of :
      (width bits : ℕ) (item : Item)
      → bits ≤ 8
      → 8 < width
      → fingerprint_of width bits item ≡ ok (print_of bits item)
  unfolding fingerprint_of print_of
  fingerprint_of-print_of width bits item small wide =
      ground (arith, byte_wide bits, one-le-pow bits 2, bit_and_mask bits (h.hash_item item))

module _ {ℓ κ} {Item : Type ℓ} {G : Type κ} ⦃h : Hasher Item⦄ where
  pub locate_ok :
      (f : CuckooFilter G) (item : Item)
      → IsValid f
      → locate f item
        ≡ ok (
          print_of f.fingerprint_size item,
          home f.bucket_count item,
          alternate h.hash_byte f.bucket_count
              (home f.bucket_count item)
              (print_of f.fingerprint_size item),
        )
  unfolding locate home index1_of
  locate_ok f item valid = rw (
    fingerprint_of-print_of 64 f.fingerprint_size item valid.few_bits (omega arith),
    ◌>>=◌,
    modulo_ok (h.hash_item item) f.bucket_count valid.has_buckets,
    index2_of-alternate h.hash_byte f.bucket_count _ _ valid.has_buckets,
  )
