-- ===== src/Filter/Cuckoo/Lookup.antt =====
-- `contains` and `erase` against the number of slots that can stand for an item.
use native.Mathlib.Nat.{div-add-mod, mod-lt, zero-add, add-zero}
use cs.Base.{
  ℕ, ◌+◌, ◌*◌, ◌/◌, ◌≤◌, ◌<◌, ◌≡◌, refl, ◌⊎◌, inl, inr, Bool, true, false, ◌&&◌, ◌||◌, none, some,
  List, length, set, length-set, ltb, lt→ltb, ◌==◌, if◌then◌else◌, arith,
}
use cs.Filter.Run.{ok, ◌>>=◌, write_ok}
use cs.Filter.Hasher.{Hasher}
use cs.Filter.Slots.{find_slot, find_slot-cases, Absent, IsAt}
use cs.Filter.Slots.Tally.{weight-le-tally, tally-eq-zero}
use cs.Filter.Cuckoo.{CuckooFilter, contains, erase}
use cs.Filter.Cuckoo.Valid.{IsValid, alternate, locate_ok}
use cs.Filter.Cuckoo.Balance.{total, total-set, bucket_of_slot}
use cs.Filter.Cuckoo.Evict.{IsFair}
use cs.Filter.Cuckoo.Place.{
  tag, first_bucket, second_bucket, first_bucket-lt, second_bucket-lt, bucket_fits,
}

-- The slots that hold `fp` in bucket `i` or in the alternate of that.
unfoldable pub of_pair : (ℕ → ℕ) → ℕ → ℕ → ℕ → ℕ → ℕ → ℕ
of_pair hash_byte n i fp j x =
    if x == fp && (j == i || j == alternate hash_byte n i fp) then 1 else 0

module _ {ℓ κ} {Item : Type ℓ} {G : Type κ} ⦃h : Hasher Item⦄ where
  -- The number of slots that can stand for the item.
  unfoldable pub view : CuckooFilter G → Item → ℕ
  view f item =
      total (of_pair h.hash_byte f.bucket_count (first_bucket f item) (tag f item)) f.bucket_size
        f.buckets

slot_of_bucket : (s i p : ℕ) → 0 < s → p / s ≡ i → (i * s ≤ p) × (p < i * s + s)
slot_of_bucket s i p pos e = grind (arith, div-add-mod p s, mod-lt p pos)

module _ (s i fp p : ℕ) (bytes : List ℕ) (weight : ℕ → ℕ → ℕ) (inside : p < length bytes)
    (at' : IsAt fp s (i * s) p bytes) where
  present-le-total : weight i fp ≤ total weight s bytes
  unfolding total
  present-le-total =
      let place : (0 + p) / s ≡ i = rw zero-add (bucket_of_slot s i p at'.from at'.below) in
      rw (place, at'.holds) at (weight-le-tally (λ q x. weight (q / s) x) 0 bytes p inside)

  pub clear-Loses :
      weight i 0 ≡ 0 → total weight s (set bytes p 0) + weight i fp ≡ total weight s bytes
  clear-Loses free =
      rw (at'.holds, free, add-zero) at (total-set weight s i p 0 bytes at'.from at'.below inside)

Absent-total :
    (hash_byte : ℕ → ℕ) (n s i fp : ℕ) (bytes : List ℕ)
    → 0 < s
    → Absent fp s (i * s) bytes
    → Absent fp s (alternate hash_byte n i fp * s) bytes
    → total (of_pair hash_byte n i fp) s bytes ≡ 0
unfolding total of_pair
Absent-total hash_byte n s i fp bytes pos one two =
    let i' = alternate hash_byte n i fp in
    tally-eq-zero _ 0 bytes λ p inside.
      rw zero-add
        (ground (arith, one p, two p, slot_of_bucket s i p pos, slot_of_bucket s i' p pos))

module _ (hash_byte : ℕ → ℕ) (n i fp : ℕ) where
  of_pair-first : of_pair hash_byte n i fp i fp ≡ 1
  unfolding of_pair
  of_pair-first = ground arith

  of_pair-second : of_pair hash_byte n i fp (alternate hash_byte n i fp) fp ≡ 1
  unfolding of_pair
  of_pair-second = ground arith

module _ {ℓ κ} {Item : Type ℓ} {G : Type κ} ⦃h : Hasher Item⦄ (f : CuckooFilter G) (item : Item)
    (valid : IsValid f) where
  -- Where the loop over a bucket finds the item's fingerprint, if it does.
  pub looks :
      (i : ℕ)
      → i < f.bucket_count
      → ((find_slot (tag f item) f.bucket_size (i * f.bucket_size) f.buckets ≡ ok none)
          × Absent (tag f item) f.bucket_size (i * f.bucket_size) f.buckets)
        ⊎ ((p : ℕ) × (find_slot (tag f item) f.bucket_size (i * f.bucket_size) f.buckets
              ≡ ok (some p))
            × IsAt (tag f item) f.bucket_size (i * f.bucket_size) p f.buckets)
  looks i hi =
      find_slot-cases (tag f item) f.bucket_size (i * f.bucket_size) f.buckets
        (bucket_fits f valid i hi)

  pub inside_of :
      (i p : ℕ)
      → i < f.bucket_count
      → IsAt (tag f item) f.bucket_size (i * f.bucket_size) p f.buckets
      → p < length f.buckets
  inside_of i p hi at' = omega (arith, bucket_fits f valid i hi, at'.below)

  pub first_counts :
      (p : ℕ)
      → IsAt (tag f item) f.bucket_size (first_bucket f item * f.bucket_size) p f.buckets
      → 0 < view f item
  unfolding view
  first_counts p at' =
      let i = first_bucket f item in
      omega (
        arith,
        of_pair-first h.hash_byte f.bucket_count i (tag f item),
        present-le-total f.bucket_size i (tag f item) p f.buckets
            (of_pair h.hash_byte f.bucket_count i (tag f item))
            (inside_of i p (first_bucket-lt f item valid) at') at',
      )

  pub second_counts :
      (p : ℕ)
      → IsAt (tag f item) f.bucket_size (second_bucket f item * f.bucket_size) p f.buckets
      → 0 < view f item
  unfolding view
  second_counts p at' =
      let i = first_bucket f item in
      omega (
        arith,
        of_pair-second h.hash_byte f.bucket_count i (tag f item),
        present-le-total f.bucket_size (second_bucket f item) (tag f item) p f.buckets
            (of_pair h.hash_byte f.bucket_count i (tag f item))
            (inside_of (second_bucket f item) p (second_bucket-lt f item valid) at') at',
      )

  pub none_counts :
      Absent (tag f item) f.bucket_size (first_bucket f item * f.bucket_size) f.buckets
      → Absent (tag f item) f.bucket_size (second_bucket f item * f.bucket_size) f.buckets
      → view f item ≡ 0
  unfolding view
  none_counts =
      Absent-total h.hash_byte f.bucket_count f.bucket_size (first_bucket f item) (tag f item)
        f.buckets valid.has_slots

  -- On a valid filter `contains` returns, and says whether some slot of the item's two buckets holds
  -- its fingerprint.
  pub contains-view : contains f item ≡ ok (ltb 0 (view f item))
  unfolding contains
  contains-view = elim (looks (first_bucket f item) (first_bucket-lt f item valid)) [
    | inr (p, run, at') ↦ rw (locate_ok f item valid, ◌>>=◌, run, lt→ltb 0 _ (first_counts p at'))
    | inl (run₁, absent₁) ↦ elim (looks (second_bucket f item) (second_bucket-lt f item valid)) [
      | inr (p, run, at') ↦
          rw (locate_ok f item valid, ◌>>=◌, run₁, run, lt→ltb 0 _ (second_counts p at'))
      | inl (run₂, absent₂) ↦
          rw (locate_ok f item valid, ◌>>=◌, run₁, run₂, none_counts absent₁ absent₂)
    ]
  ]

  -- What `erase` returns: with `true` one slot that can stand for the item is freed; with `false`
  -- there was none, and nothing changed.
  pub record Erases : Type (ℓ ⊔ κ) where
    pub done : Bool
    pub buckets : List ℕ
    pub returns : erase f item ≡ ok (done, record f { buckets = buckets })
    pub same_length : length buckets ≡ length f.buckets
    pub found : done ≡ ltb 0 (view f item)
    pub balance :
        (weight : ℕ → ℕ → ℕ)
        → IsFair h.hash_byte f.bucket_count weight
        → total weight f.bucket_size buckets
            + (if done then weight (first_bucket f item) (tag f item) else 0)
          ≡ total weight f.bucket_size f.buckets

  pub erase-Erases : Erases
  unfolding erase
  erase-Erases = elim (looks (first_bucket f item) (first_bucket-lt f item valid)) [
    | inr (p, run, at') ↦
        let inside = inside_of (first_bucket f item) p (first_bucket-lt f item valid) at' in
        record {
          done = true;
          buckets = set f.buckets p 0;
          returns = rw (locate_ok f item valid, ◌>>=◌, run, write_ok f.buckets p 0 inside);
          same_length = length-set f.buckets p 0;
          found = rw (lt→ltb 0 _ (first_counts p at'));
          balance = λ weight fair.
              clear-Loses f.bucket_size (first_bucket f item) (tag f item) p f.buckets weight inside
                at' (fair.free (first_bucket f item));
        }
    | inl (run₁, absent₁) ↦ elim (looks (second_bucket f item) (second_bucket-lt f item valid)) [
      | inr (p, run, at') ↦
          let inside = inside_of (second_bucket f item) p (second_bucket-lt f item valid) at' in
          record {
            done = true;
            buckets = set f.buckets p 0;
            returns = rw (locate_ok f item valid, ◌>>=◌, run₁, run, write_ok f.buckets p 0 inside);
            same_length = length-set f.buckets p 0;
            found = rw (lt→ltb 0 _ (second_counts p at'));
            balance = λ weight fair.
                rw (← fair.moves (first_bucket f item) (tag f item) (first_bucket-lt f item valid))
                  (clear-Loses f.bucket_size (second_bucket f item) (tag f item) p f.buckets weight
                    inside at' (fair.free (second_bucket f item)));
          }
      | inl (run₂, absent₂) ↦ record {
        done = false;
        buckets = f.buckets;
        returns = rw (locate_ok f item valid, ◌>>=◌, run₁, run₂);
        same_length = refl;
        found = rw (none_counts absent₁ absent₂);
        balance = λ weight fair. add-zero _;
      }
    ]
  ]
