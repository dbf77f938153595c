-- ===== src/Filter/Cuckoo/Session.antt =====
-- Filters from the constructor on: new ones, the number of stored fingerprints, and the insertion
-- loop of main.cpp.
use native.Mathlib.Nat.{mod-eq_of_lt}
use cs.Base.{
  ℕ, ◌+◌, ◌*◌, ◌^◌, ◌≤◌, ◌<◌, ◌≡◌, refl, sym, ap, ◌∙◌, Bool, true, false, List, [], ◌∷◌, replicate,
  length, length-replicate, get_or-replicate, lt→ltb, ◌==◌, if◌then◌else◌, arith, All,
}
use cs.Filter.Run.{Run, ok, ◌>>=◌, Returns, Returns-at, ok-injective}
use cs.Filter.Hasher.{Hasher, Engine}
use cs.Filter.Slots.Tally.{tally-eq-zero, tally-le}
use cs.Filter.Cuckoo.{CuckooFilter, new_filter, insert, contains, erase}
use cs.Filter.Cuckoo.Valid.{IsValid, print_of_bounds}
use cs.Filter.Cuckoo.Balance.{total}
use cs.Filter.Cuckoo.Evict.{IsFair, Ends-balance}
use cs.Filter.Cuckoo.Place.{tag, first_bucket}
use cs.Filter.Cuckoo.Insert.{insert-Inserts}
use cs.Filter.Cuckoo.Lookup.{of_pair, view, contains-view}
use cs.Filter.Cuckoo.Bag.{
  resized, same_kind_self, same_kind_ext, AfterInsert, insert-view, erase-view,
}

-- The number of slots that are not free.
unfoldable pub stored {κ} : {G : Type κ} → CuckooFilter G → ℕ
stored f = total (λ i x. if x == 0 then 0 else 1) f.bucket_size f.buckets

occupied-IsFair : (hash_byte : ℕ → ℕ) (n : ℕ) → IsFair hash_byte n (λ i x. if x == 0 then 0 else 1)
occupied-IsFair hash_byte n = record { free = λ i. refl; moves = λ i x hi. refl }

module _ {ℓ κ} {Item : Type ℓ} {G : Type κ} ⦃h : Hasher Item⦄ ⦃e : Engine G⦄ (f : CuckooFilter G)
    (valid : IsValid f) (item : Item) where
  -- The stored fingerprints after an `insert`, and what it leaves alone.
  pub insert-stored_sized : Returns (insert f item) λ r.
      IsValid r.1
      × (stored r.1 ≡ stored f + (if r.0 then 1 else 0))
      × (r.1.bucket_count ≡ f.bucket_count)
      × (r.1.bucket_size ≡ f.bucket_size)
  unfolding stored
  insert-stored_sized =
      let put = insert-Inserts f item valid in
      let (j, w, same, present, balance) =
        Ends-balance h.hash_byte f.bucket_count f.bucket_size (first_bucket f item) (tag f item)
          f.buckets put.done put.buckets put.rng put.ends in
      (
        (put.done, record f { buckets = put.buckets; rng = put.rng }),
        put.returns,
        (
          resized f put.buckets put.rng valid same,
          ground (
            arith,
            balance _ (occupied-IsFair h.hash_byte f.bucket_count),
            print_of_bounds f.fingerprint_size item valid.few_bits,
          ),
          refl,
          refl,
        ),
      )

  -- Whatever the number of buckets, `insert` returns on a valid filter and keeps it valid. With the
  -- result `true` one more slot is taken; with `false` as many as before.
  pub stored-insert :
      Returns (insert f item) λ r. IsValid r.1 × (stored r.1 ≡ stored f + (if r.0 then 1 else 0))
  stored-insert =
      let (r, run, (valid', one_more, same_count, same_size)) = insert-stored_sized in
      (r, run, (valid', one_more))

abbrev pub fresh {κ} : {G : Type κ} → ℕ → ℕ → ℕ → ℕ → G → CuckooFilter G
fresh n s bits kicks g = record {
  bucket_count = n;
  bucket_size = s;
  fingerprint_size = bits;
  max_kicks = kicks;
  buckets = replicate (n * s) 0;
  rng = g;
}

fresh-view {ℓ κ} :
    {Item : Type ℓ} {G : Type κ} ⦃h : Hasher Item⦄ (n s bits kicks : ℕ) (g : G) (item : Item)
    → bits ≤ 8
    → view (fresh n s bits kicks g) item ≡ 0
unfolding view total of_pair
fresh-view n s bits kicks g item small = tally-eq-zero _ 0 (replicate (n * s) 0) λ p inside.
    ground (arith, get_or-replicate {A = ℕ} (n * s) 0 p, print_of_bounds bits item small)

pub stored-le {κ} : {G : Type κ} (f : CuckooFilter G) → stored f ≤ length f.buckets
unfolding stored total
stored-le f = tally-le _ (λ p x. ground arith) 0 f.buckets

fresh-stored {κ} : {G : Type κ} (n s bits kicks : ℕ) (g : G) → stored (fresh n s bits kicks g) ≡ 0
unfolding stored total
fresh-stored n s bits kicks g =
    tally-eq-zero _ 0 (replicate (n * s) 0)
      λ p inside. ground (arith, get_or-replicate {A = ℕ} (n * s) 0 p)

pub new_filter-starts {κ} :
    {G : Type κ} (n s bits kicks : ℕ) (g : G)
    → 0 < bits
    → bits ≤ 8
    → 0 < n
    → 0 < s
    → n * s < 2 ^ 64
    → (new_filter n s bits kicks g ≡ ok (fresh n s bits kicks g))
      × IsValid (fresh n s bits kicks g)
      × (stored (fresh n s bits kicks g) ≡ 0)
unfolding new_filter
new_filter-starts n s bits kicks g some_bits few_bits some_buckets some_slots fits = (
  ground (arith, mod-eq_of_lt fits),
  record {
    has_buckets = some_buckets;
    has_slots = some_slots;
    has_bits = some_bits;
    few_bits = few_bits;
    fits = fits;
    filled = length-replicate (n * s) 0;
  },
  fresh-stored n s bits kicks g,
)

module _ {ℓ κ} {Item : Type ℓ} {G : Type κ} ⦃h : Hasher Item⦄ (n s bits kicks : ℕ) (g : G) where
  -- For a fingerprint size of 1 to 8, some buckets with some slots, and a number of slots that fits a
  -- `size_t`, the constructor returns a valid filter that contains no item.
  contains-new_filter :
      0 < bits
      → bits ≤ 8
      → 0 < n
      → 0 < s
      → n * s < 2 ^ 64
      → Returns
          (new_filter n s bits kicks g)
          λ f. IsValid f × ((item : Item) → contains f item ≡ ok false)
  contains-new_filter some_bits few_bits some_buckets some_slots fits =
      let (made, valid, none_stored) =
        new_filter-starts n s bits kicks g some_bits few_bits some_buckets some_slots fits in
      (
        fresh n s bits kicks g,
        made,
        (
          valid,
          λ item. rw (
            contains-view (fresh n s bits kicks g) item valid,
            fresh-view n s bits kicks g item few_bits,
          ),
        ),
      )

module _ {ℓ κ} {Item : Type ℓ} {G : Type κ} ⦃h : Hasher Item⦄ ⦃e : Engine G⦄ where
  -- The loop of main.cpp that inserts the items and counts the failures.
  unfoldable pub insert_all : CuckooFilter G → List Item → ℕ → Run (ℕ × CuckooFilter G)
  insert_all f [] failures = ok (failures, f)
  insert_all f (item ∷ items) failures = do
    (done, f') ← insert f item
    insert_all f' items (if done then failures else failures + 1)

  -- What the loop leaves: the failures do not decrease, and if they did not increase, then the filter
  -- contains all that it contained, and all the items.
  pub record AfterAll (f : CuckooFilter G) (items : List Item) (failures : ℕ)
      (r : ℕ × CuckooFilter G) : Type (ℓ ⊔ κ) where
    pub still_valid : IsValid r.1
    pub more : failures ≤ r.0
    pub keeps : r.0 ≡ failures → (other : Item) → 0 < view f other → 0 < view r.1 other
    pub adds : r.0 ≡ failures → All (λ item. contains r.1 item ≡ ok true) items

  -- One round of the loop before the others.
  AfterAll-cons :
      (f : CuckooFilter G) (k : ℕ) (power : f.bucket_count ≡ 2 ^ k) (valid : IsValid f)
      (item : Item) (items : List Item) (failures : ℕ) (done : Bool) (f' : CuckooFilter G)
      (r : ℕ × CuckooFilter G)
      → AfterInsert f k power valid item (done, f')
      → AfterAll f' items (if done then failures else failures + 1) r
      → AfterAll f (item ∷ items) failures r
  AfterAll-cons f k power valid item items failures true f' r after rest = record {
    still_valid = rest.still_valid;
    more = rest.more;
    keeps = λ e other here. rest.keeps e other (omega (arith, after.counts other));
    adds = λ e.
        let here =
          rest.keeps e item
            (omega (arith, after.counts item, same_kind_self f k power valid item)) in
        (rw (contains-view r.1 item rest.still_valid, lt→ltb 0 _ here), rest.adds e);
  }
  AfterAll-cons f k power valid item items failures false f' r after rest = record {
    still_valid = rest.still_valid;
    more = omega (arith, rest.more);
    keeps = λ e. absurd (omega (arith, rest.more));
    adds = λ e. absurd (omega (arith, rest.more));
  }

  pub insert_all-AfterAll :
      (items : List Item) (f : CuckooFilter G) (k failures : ℕ)
      → f.bucket_count ≡ 2 ^ k
      → IsValid f
      → Returns (insert_all f items failures) (AfterAll f items failures)
  unfolding insert_all
  insert_all-AfterAll [] f k failures power valid = (
    (failures, f),
    refl,
    record { still_valid = valid; more = omega arith; keeps = λ e other h. h; adds = λ e. tt },
  )
  insert_all-AfterAll (item ∷ items) f k failures power valid =
      let ((done, f'), run, after) = insert-view f k power valid item in
      let (r, runs, rest) =
        insert_all-AfterAll items f' k (if done then failures else failures + 1)
          (after.same_count ∙ power) after.still_valid in
      (
        r,
        rw (run, ◌>>=◌) runs,
        AfterAll-cons f k power valid item items failures done f' r after rest,
      )

  -- With a power of two for the number of buckets, the loop returns on a valid filter, and if it
  -- counted no failure, then the filter contains each of the items.
  pub insert_all-contains :
      (items : List Item) (f : CuckooFilter G) (k : ℕ) {f' : CuckooFilter G}
      → f.bucket_count ≡ 2 ^ k
      → IsValid f
      → insert_all f items 0 ≡ ok (0, f')
      → All (λ item. contains f' item ≡ ok true) items
  insert_all-contains items f k {f'} power valid run =
      (Returns-at (AfterAll f items 0) (0, f') (insert_all-AfterAll items f k 0 power valid)
          run).adds
        refl

  -- With a power of two for the number of buckets, an `erase` of an item right after an `insert` of
  -- it that returned `true` returns `true`, and every item is counted as often as before both.
  pub erase-insert :
      (f : CuckooFilter G) (k : ℕ) (item : Item) {f' : CuckooFilter G}
      → f.bucket_count ≡ 2 ^ k
      → IsValid f
      → insert f item ≡ ok (true, f')
      → Returns (erase f' item) λ r. (r.0 ≡ true) × ((other : Item) → view r.1 other ≡ view f other)
  erase-insert f k item {f'} power valid run =
      let after =
        Returns-at (AfterInsert f k power valid item) (true, f') (insert-view f k power valid item)
          run in
      let valid' = after.still_valid in
      let power' = after.same_count ∙ power in
      let ((done, f''), runs, gone) = erase-view f' k power' valid' item in
      let here : 0 < view f' item =
        omega (arith, after.counts item, same_kind_self f k power valid item) in
      let worked : done ≡ true =
        ok-injective (sym gone.result ∙ contains-view f' item valid' ∙ ap ok (lt→ltb 0 _ here)) in
      (
        (done, f''),
        runs,
        (
          worked,
          λ other. ground (
            arith,
            worked,
            gone.counts other,
            after.counts other,
            same_kind_ext f f' other item after.same_count after.same_bits,
          ),
        ),
      )
