-- ===== src/Filter/Cuckoo/Bag.antt =====
-- With a power of two for the number of buckets, the alternate of the alternate bucket is the bucket
-- itself, and the filter is a bag of items up to fingerprint and pair of buckets.
use native.Mathlib.Nat.{mod-eq_of_lt, mod-lt}
use mathlib.Core.Path.{ap₂}
use cs.Base.{
  ℕ, ◌+◌, ◌%◌, ◌^◌, ◌<◌, ◌≡◌, ◌≢◌, refl, ◌∙◌, Bool, true, List, length, if◌then◌else◌, arith,
}
use cs.Base.Bits.{bit_xor-lt, bit_xor_undo}
use cs.Filter.Run.{ok, Returns, Returns-at}
use cs.Filter.Hasher.{Hasher, Engine}
use cs.Filter.Cuckoo.{CuckooFilter, insert, contains, erase}
use cs.Filter.Cuckoo.Valid.{IsValid, alternate, print_of_bounds, print_of, home}
use cs.Filter.Cuckoo.Evict.{IsFair, Ends-balance}
use cs.Filter.Cuckoo.Place.{tag, first_bucket, first_bucket-lt}
use cs.Filter.Cuckoo.Insert.{insert-Inserts}
use cs.Filter.Cuckoo.Lookup.{of_pair, view, contains-view, erase-Erases}

-- For a power of two, and a bucket below it, taking the alternate twice gives the bucket back.
alternate_undo :
    (hash_byte : ℕ → ℕ) (k i fp : ℕ)
    → i < 2 ^ k
    → alternate hash_byte (2 ^ k) (alternate hash_byte (2 ^ k) i fp) fp ≡ i
unfolding alternate
alternate_undo hash_byte k i fp hi =
    let x = hash_byte fp % 2 ^ k in
    let small : x < 2 ^ k = mod-lt _ (omega arith) in
    let there = bit_xor-lt k i x hi small in
    rw (mod-eq_of_lt there, bit_xor_undo k i x hi small) (mod-eq_of_lt hi)

of_pair-IsFair :
    (hash_byte : ℕ → ℕ) (k i fp : ℕ)
    → i < 2 ^ k
    → fp ≢ 0
    → IsFair hash_byte (2 ^ k) (of_pair hash_byte (2 ^ k) i fp)
unfolding of_pair
of_pair-IsFair hash_byte k i fp hi hf = record {
  free = λ j. ground arith;
  moves = λ j x hj.
      ground (arith, alternate_undo hash_byte k j fp hj, alternate_undo hash_byte k i fp hi);
}

pub IsFair-of_pair :
    (hash_byte : ℕ → ℕ) (n k i fp : ℕ)
    → n ≡ 2 ^ k
    → i < n
    → fp ≢ 0
    → IsFair hash_byte n (of_pair hash_byte n i fp)
IsFair-of_pair hash_byte n k i fp e hi hf = rw e (of_pair-IsFair hash_byte k i fp (rw e at hi) hf)

pub resized {κ} :
    {G : Type κ} (f : CuckooFilter G) (bytes : List ℕ) (g : G)
    → IsValid f
    → length bytes ≡ length f.buckets
    → IsValid (record f { buckets = bytes; rng = g })
resized f bytes g valid same = record {
  has_buckets = valid.has_buckets;
  has_slots = valid.has_slots;
  has_bits = valid.has_bits;
  few_bits = valid.few_bits;
  fits = valid.fits;
  filled = same ∙ valid.filled;
}

-- Two items are of one kind where the filter cannot tell them apart: it counts the slots of the one
-- for the other. The number is 1 then, and 0 otherwise.
unfoldable pub same_kind {ℓ κ} :
    {Item : Type ℓ} {G : Type κ} ⦃h : Hasher Item⦄ → CuckooFilter G → Item → Item → ℕ
same_kind ⦃h⦄ f other item =
    of_pair h.hash_byte f.bucket_count (first_bucket f other) (tag f other) (first_bucket f item)
      (tag f item)

pub same_kind_ext {ℓ κ} :
    {Item : Type ℓ} {G : Type κ} ⦃h : Hasher Item⦄ (f f' : CuckooFilter G) (other item : Item)
    → f'.bucket_count ≡ f.bucket_count
    → f'.fingerprint_size ≡ f.fingerprint_size
    → same_kind f' other item ≡ same_kind f other item
unfolding same_kind
same_kind_ext ⦃h⦄ f f' other item = ap₂ λ n bits.
    of_pair h.hash_byte n (home n other) (print_of bits other) (home n item) (print_of bits item)

module _ {ℓ κ} {Item : Type ℓ} {G : Type κ} ⦃h : Hasher Item⦄ (f : CuckooFilter G) (k : ℕ)
    (power : f.bucket_count ≡ 2 ^ k) (valid : IsValid f) where
  pub IsFair-item :
      (item : Item)
      → IsFair h.hash_byte f.bucket_count
          (of_pair h.hash_byte f.bucket_count (first_bucket f item) (tag f item))
  IsFair-item item =
      IsFair-of_pair h.hash_byte f.bucket_count k (first_bucket f item) (tag f item) power
        (first_bucket-lt f item valid)
        (omega (arith, (print_of_bounds f.fingerprint_size item valid.few_bits).0))

  pub same_kind_self : (item : Item) → same_kind f item item ≡ 1
  unfolding same_kind of_pair
  same_kind_self item = ground arith

  -- What `erase` leaves, with its result.
  pub record AfterErase (item : Item) (r : Bool × CuckooFilter G) : Type (ℓ ⊔ κ) where
    pub still_valid : IsValid r.1
    pub same_count : r.1.bucket_count ≡ f.bucket_count
    pub result : contains f item ≡ ok r.0
    pub counts :
        (other : Item) → view r.1 other + (if r.0 then same_kind f other item else 0) ≡ view f other

  -- With a power of two for the number of buckets, `erase` returns on a valid filter, which stays
  -- valid; the result is that of `contains` before, and with `true` exactly the items of its kind are
  -- counted once less, while with `false` all counts are as before.
  pub erase-view : (item : Item) → Returns (erase f item) (AfterErase item)
  unfolding view same_kind
  erase-view item =
      let gone = erase-Erases f item valid in
      (
        (gone.done, record f { buckets = gone.buckets }),
        gone.returns,
        record {
          still_valid = resized f gone.buckets f.rng valid gone.same_length;
          same_count = refl;
          result = rw gone.found (contains-view f item valid);
          counts = λ other. gone.balance _ (IsFair-item other);
        },
      )

module _ {ℓ κ} {Item : Type ℓ} {G : Type κ} ⦃h : Hasher Item⦄ ⦃e : Engine G⦄ (f : CuckooFilter G)
    (k : ℕ) (power : f.bucket_count ≡ 2 ^ k) (valid : IsValid f) where
  -- What `insert` leaves, with its result.
  pub record AfterInsert (item : Item) (r : Bool × CuckooFilter G) : Type (ℓ ⊔ κ) where
    pub still_valid : IsValid r.1
    pub same_count : r.1.bucket_count ≡ f.bucket_count
    pub same_bits : r.1.fingerprint_size ≡ f.fingerprint_size
    pub lost_bucket : ℕ
    pub lost : ℕ
    pub present : lost ≢ 0
    pub counts :
        (other : Item)
        → view r.1 other
            + (if r.0
                then 0
                else of_pair h.hash_byte f.bucket_count
                    (first_bucket f other)
                    (tag f other)
                    lost_bucket
                    lost)
          ≡ view f other + same_kind f other item

  -- With a power of two for the number of buckets, `insert` returns on a valid filter, which stays
  -- valid. With the result `true` exactly the items of its kind are counted once more. With `false`
  -- they are too, but the items that one lost fingerprint stood for are counted once less.
  pub insert-view : (item : Item) → Returns (insert f item) (AfterInsert item)
  unfolding view same_kind
  insert-view item =
      let put = insert-Inserts f item valid in
      let (j, w, same, present, balance) =
        Ends-balance h.hash_byte f.bucket_count f.bucket_size (first_bucket f item) (tag f item)
          f.buckets put.done put.buckets put.rng put.ends in
      (
        (put.done, record f { buckets = put.buckets; rng = put.rng }),
        put.returns,
        record {
          still_valid = resized f put.buckets put.rng valid same;
          same_count = refl;
          same_bits = refl;
          lost_bucket = j;
          lost = w;
          present = present;
          counts = λ other. balance _ (IsFair-item f k power valid other);
        },
      )

  -- With a power of two for the number of buckets, after an `insert` that returned `true` the filter
  -- contains the item, and every item that it contained before.
  pub contains-insert :
      (item : Item) (f' : CuckooFilter G)
      → insert f item ≡ ok (true, f')
      → (contains f' item ≡ ok true)
        × ((other : Item) → contains f other ≡ ok true → contains f' other ≡ ok true)
  contains-insert item f' run =
      let after = Returns-at (AfterInsert item) (true, f') (insert-view item) run in
      (
        rw (contains-view f' item after.still_valid)
            (ground (arith, after.counts item, same_kind_self f k power valid item)),
        λ other before.
            rw (contains-view f' other after.still_valid)
              (ground (arith, after.counts other, contains-view f other valid)),
      )
