-- ===== src/Filter/Cuckoo/File/Reloaded.antt =====
-- The filter that the constructor makes of the bytes of a saved one, and that it answers as before.
use native.Mathlib.Nat.{zero-mul}
use cs.Base.{
  ℕ, zero, suc, ◌+◌, ◌*◌, ◌/◌, ◌≡◌, refl, sym, ap, ◌∙◌, ◌++◌, length, length-append, drop,
  take-append-drop, drop-drop, drop-length, ltb, arith,
}
use cs.Filter.Run.{ok}
use cs.Filter.Hasher.{Hasher}
use cs.Filter.Slots.Tally.{tally}
use cs.Filter.Cuckoo.{CuckooFilter, contains}
use cs.Filter.Cuckoo.Valid.{IsValid, print_of_bounds}
use cs.Filter.Cuckoo.Balance.{total}
use cs.Filter.Cuckoo.Place.{tag, first_bucket}
use cs.Filter.Cuckoo.Lookup.{of_pair, view, contains-view}
use cs.Filter.Cuckoo.File.Compact.{compact, length-compact, tally-append, tally-compact}
use cs.Filter.Cuckoo.File.Image.{slots_at, compact_from, length-slots_at}

module _ {κ} {G : Type κ} (f : CuckooFilter G) (valid : IsValid f) where
  length-compact_from :
      (i k : ℕ) → i + k ≡ f.bucket_count → length (compact_from f i k) ≡ k * f.bucket_size
  unfolding compact_from
  length-compact_from i zero e = sym (zero-mul f.bucket_size)
  length-compact_from i (suc k) e = omega (
    arith,
    length-append (compact (slots_at f i)) (compact_from f (i + 1) k),
    length-compact (slots_at f i),
    length-slots_at f valid i k e,
    length-compact_from (i + 1) k (omega arith),
  )

  tally-compact_from :
      (weight : ℕ → ℕ → ℕ) (i k : ℕ)
      → ((b : ℕ) → weight b 0 ≡ 0)
      → i + k ≡ f.bucket_count
      → tally (λ p x. weight (p / f.bucket_size) x) (i * f.bucket_size) (compact_from f i k)
        ≡ tally
            (λ p x. weight (p / f.bucket_size) x)
            (i * f.bucket_size)
            (drop (i * f.bucket_size) f.buckets)
  unfolding compact_from
  tally-compact_from weight i zero free e =
      let all : i * f.bucket_size ≡ length f.buckets =
        let last : i ≡ f.bucket_count = omega arith in rw (last, valid.filled) refl in
      rw (all, drop-length f.buckets) refl
  tally-compact_from weight i (suc k) free e =
      let s = f.bucket_size in
      let by_bucket : ℕ → ℕ → ℕ = λ p x. weight (p / s) x in
      let slots = slots_at f i in
      let long = length-slots_at f valid i k e in
      let next : i * s + s ≡ (i + 1) * s = omega arith in
      let split : drop (i * s) f.buckets ≡ slots ++ drop ((i + 1) * s) f.buckets =
        rw (← next, ← drop-drop (i * s) s f.buckets)
          (sym (take-append-drop s (drop (i * s) f.buckets))) in
      let left = tally-append by_bucket (i * s) (compact slots) (compact_from f (i + 1) k) in
      let right =
        ap (tally by_bucket (i * s)) split
        ∙ tally-append by_bucket (i * s) slots (drop ((i + 1) * s) f.buckets) in
      let same : tally by_bucket (i * s) (compact slots)
            + tally by_bucket (i * s + length (compact slots)) (compact_from f (i + 1) k)
          ≡ tally by_bucket (i * s) slots
            + tally by_bucket (i * s + length slots) (drop ((i + 1) * s) f.buckets) =
        rw
          (
            length-compact slots,
            long,
            next,
            tally-compact weight s i slots long free,
            tally-compact_from weight (i + 1) k free (omega arith),
          )
          refl in
      left ∙ (same ∙ sym right)

  -- The filter after a round trip.
  unfoldable pub reloaded : G → CuckooFilter G
  reloaded g = record f { buckets = compact_from f 0 f.bucket_count; rng = g }

  reloaded-IsValid : (g : G) → IsValid (reloaded g)
  unfolding reloaded
  reloaded-IsValid g = record {
    has_buckets = valid.has_buckets;
    has_slots = valid.has_slots;
    has_bits = valid.has_bits;
    few_bits = valid.few_bits;
    fits = valid.fits;
    filled = length-compact_from 0 f.bucket_count (omega arith);
  }

  total-reloaded :
      (weight : ℕ → ℕ → ℕ)
      → ((b : ℕ) → weight b 0 ≡ 0)
      → total weight f.bucket_size (compact_from f 0 f.bucket_count)
        ≡ total weight f.bucket_size f.buckets
  unfolding total
  total-reloaded weight free =
      rw zero-mul at (tally-compact_from weight 0 f.bucket_count free (omega arith))

  module _ {ℓ} {Item : Type ℓ} ⦃h : Hasher Item⦄ where
    free_slots :
        (item : Item) (b : ℕ)
        → of_pair h.hash_byte f.bucket_count (first_bucket f item) (tag f item) b 0 ≡ 0
    unfolding of_pair
    free_slots item b = ground (arith, print_of_bounds f.fingerprint_size item valid.few_bits)

    -- A free slot counts for no item, so that the same slots count in both filters.
    view-reloaded : (g : G) (item : Item) → view (reloaded g) item ≡ view f item
    unfolding reloaded view
    view-reloaded g item =
        total-reloaded (of_pair h.hash_byte f.bucket_count (first_bucket f item) (tag f item))
          (free_slots item)

    pub contains-reloaded : (g : G) (item : Item) → contains (reloaded g) item ≡ contains f item
    contains-reloaded g item =
        contains-view (reloaded g) item (reloaded-IsValid g)
        ∙ (ap (λ n. ok (ltb 0 n)) (view-reloaded g item) ∙ sym (contains-view f item valid))
