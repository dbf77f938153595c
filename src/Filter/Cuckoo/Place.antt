-- ===== src/Filter/Cuckoo/Place.antt =====
-- The fingerprint of an item and its two buckets in a valid filter; both lie inside the array.
use cs.Base.{ℕ, ◌+◌, ◌*◌, ◌^◌, ◌≤◌, ◌<◌, length, arith}
use cs.Filter.Hasher.{Hasher}
use cs.Filter.Cuckoo.{CuckooFilter}
use cs.Filter.Cuckoo.Valid.{IsValid, print_of, home, home-lt, alternate, alternate-lt}
use cs.Filter.Cuckoo.Balance.{bucket_in_array}

module _ {κ} {G : Type κ} (f : CuckooFilter G) (valid : IsValid f) where
  pub bucket_fits :
      (i : ℕ) → i < f.bucket_count → i * f.bucket_size + f.bucket_size ≤ length f.buckets
  bucket_fits i hi = omega (arith, bucket_in_array f.bucket_count f.bucket_size i hi, valid.filled)

  pub narrow : f.bucket_size < 2 ^ 64
  narrow = grind (arith, valid.fits, valid.has_buckets)

module _ {ℓ κ} {Item : Type ℓ} {G : Type κ} ⦃h : Hasher Item⦄ (f : CuckooFilter G)
    (item : Item) where
  abbrev pub tag : ℕ
  tag = print_of f.fingerprint_size item

  abbrev pub first_bucket : ℕ
  first_bucket = home f.bucket_count item

  abbrev pub second_bucket : ℕ
  second_bucket =
      alternate h.hash_byte f.bucket_count (home f.bucket_count item)
        (print_of f.fingerprint_size item)

  pub first_bucket-lt : IsValid f → first_bucket < f.bucket_count
  first_bucket-lt valid = home-lt f.bucket_count item valid.has_buckets

  pub second_bucket-lt : IsValid f → second_bucket < f.bucket_count
  second_bucket-lt valid = alternate-lt h.hash_byte f.bucket_count _ _ valid.has_buckets
