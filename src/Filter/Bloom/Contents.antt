-- ===== src/Filter/Bloom/Contents.antt =====
-- What a Bloom filter answers, by the positions of the items that were inserted.
use cs.Base.{
  ℕ, ◌<◌, ◌≡◌, refl, sym, ap, ◌∙◌, Bool, true, false, ◌||◌, List, [], ◌∷◌, All, All-imp, arith,
}
use cs.Filter.Run.{ok, ◌>>=◌, Returns, ok-injective}
use cs.Filter.Hasher.{Hasher}
use cs.Filter.Bitset.{Bitset}
use cs.Filter.Bloom.{BloomFilter, new_bloom, insert, contains, bloom_insert_all}
use cs.Filter.Bloom.Positions.{
  elem, all_of, all_of-All, all_of-congr, elem_self, or_true, true_or, or_false, or_swap, positions,
  positions-lt, insert_loop-sets, contains_loop-tests,
}

pub record IsValid {κ} {B : Type κ} ⦃s : Bitset B⦄ (f : BloomFilter B) : Type 0 where
  pub sized : 0 < f.size
  pub filled : s.bit_count f.bits ≡ f.size

module _ {ℓ} {Item : Type ℓ} ⦃h : Hasher Item⦄ where
  -- Whether a position is one of those of the items.
  unfoldable pub is_marked : ℕ → ℕ → List Item → ℕ → Bool
  is_marked size k [] p = false
  is_marked size k (item ∷ items) p = elem p (positions size item k 0) || is_marked size k items p

  marked_by :
      (size k : ℕ) (items : List Item)
      → All (λ item. All (λ p. is_marked size k items p ≡ true) (positions size item k 0)) items
  unfolding is_marked
  marked_by size k [] = tt
  marked_by size k (item ∷ items) = (
    All-imp _ (λ p e. rw e refl) (elem_self (positions size item k 0)),
    All-imp items
        (λ x. All-imp _ λ p. or_true (elem p (positions size item k 0)) (is_marked size k items p))
        (marked_by size k items),
  )

All-imp_both {ℓ κ ι μ} :
    {A : Type ℓ} {P : A → Type κ} {Q : A → Type ι} {R : A → Type μ} (xs : List A)
    → ((x : A) → P x → Q x → R x)
    → All P xs
    → All Q xs
    → All R xs
All-imp_both [] f h k = tt
All-imp_both (x ∷ xs) f h k = (f x h.0 k.0, All-imp_both xs f h.1 k.1)

module _ {κ} {B : Type κ} ⦃s : Bitset B⦄ where
  -- A filter after `f`, whose bits are those of `f` and those that `more` names.
  abbrev pub Marks : BloomFilter B → (ℕ → Bool) → BloomFilter B → Type 0
  Marks f more f' =
      IsValid f'
      × (f'.size ≡ f.size)
      × (f'.hash_count ≡ f.hash_count)
      × ((p : ℕ) → p < f.size → s.test f'.bits p ≡ (more p || s.test f.bits p))

  pub new_bloom-IsValid :
      (size hash_count : ℕ) → 0 < size → IsValid (new_bloom {B = B} size hash_count)
  unfolding new_bloom
  new_bloom-IsValid size hash_count pos = record { sized = pos; filled = s.bit_count-new_bits size }

module _ {ℓ κ} {Item : Type ℓ} {B : Type κ} ⦃h : Hasher Item⦄ ⦃s : Bitset B⦄ where
  pub contains-all_of :
      (f : BloomFilter B) (item : Item)
      → IsValid f
      → contains f item ≡ ok (all_of (s.test f.bits) (positions f.size item f.hash_count 0))
  unfolding contains
  contains-all_of f item valid =
      contains_loop-tests f.size item valid.sized f.hash_count 0 f.bits valid.filled

  pub insert-Marks :
      (f : BloomFilter B) (item : Item)
      → IsValid f
      → Returns (insert f item) (Marks f (λ p. elem p (positions f.size item f.hash_count 0)))
  unfolding insert
  insert-Marks f item valid =
      let (b, run, (count, tests)) =
        insert_loop-sets f.size item valid.sized f.hash_count 0 f.bits valid.filled in
      (
        record f { bits = b },
        rw (run, ◌>>=◌) refl,
        (record { sized = valid.sized; filled = count }, refl, refl, tests),
      )

  bloom_insert_all-Marks :
      (f : BloomFilter B) (items : List Item)
      → IsValid f
      → Returns (bloom_insert_all f items) (Marks f (is_marked f.size f.hash_count items))
  unfolding bloom_insert_all is_marked
  bloom_insert_all-Marks f [] valid = (f, refl, (valid, refl, refl, λ p lt. refl))
  bloom_insert_all-Marks f (item ∷ items) valid =
      let (f', run, (valid', size, count, tests)) = insert-Marks f item valid in
      let (f'', run', (valid'', size', count', tests')) = bloom_insert_all-Marks f' items valid' in
      (
        f'',
        rw (run, ◌>>=◌) run',
        (
          valid'',
          size' ∙ size,
          count' ∙ count,
          λ p lt.
              rw (tests' p (omega (arith, size)), size, count, tests p lt)
                (or_swap _ _ (s.test f.bits p)),
        ),
      )

  grows :
      (f f' : BloomFilter B) (more : ℕ → Bool) (x : Item)
      → IsValid f
      → Marks f more f'
      → contains f x ≡ ok true
      → contains f' x ≡ ok true
  grows f f' more x valid (valid', size, count, tests) found =
      let ps = positions f.size x f.hash_count 0 in
      let set =
        (all_of-All (s.test f.bits) ps).0
          (ok-injective (sym (contains-all_of f x valid) ∙ found)) in
      let set' : All (λ p. s.test f'.bits p ≡ true) ps =
        All-imp_both ps (λ p lt e. rw (tests p lt) (or_true (more p) (s.test f.bits p) e))
          (positions-lt f.size x f.hash_count 0 valid.sized) set in
      rw (contains-all_of f' x valid', size, count, (all_of-All (s.test f'.bits) ps).1 set') refl

  has :
      (f f' : BloomFilter B) (more : ℕ → Bool) (x : Item)
      → IsValid f
      → Marks f more f'
      → All (λ p. more p ≡ true) (positions f.size x f.hash_count 0)
      → contains f' x ≡ ok true
  has f f' more x valid (valid', size, count, tests) marked =
      let ps = positions f.size x f.hash_count 0 in
      let set' : All (λ p. s.test f'.bits p ≡ true) ps =
        All-imp_both ps (λ p lt e. tests p lt ∙ true_or (more p) (s.test f.bits p) e)
          (positions-lt f.size x f.hash_count 0 valid.sized) marked in
      rw (contains-all_of f' x valid', size, count, (all_of-All (s.test f'.bits) ps).1 set') refl

  -- `insert` returns on a valid filter, which stays valid; afterwards `contains` finds the item, and
  -- all that it found before.
  bloom_contains-insert :
      (f : BloomFilter B) (item : Item)
      → IsValid f
      → Returns (insert f item) λ f'.
        IsValid f'
        × (contains f' item ≡ ok true)
        × ((x : Item) → contains f x ≡ ok true → contains f' x ≡ ok true)
  bloom_contains-insert f item valid =
      let (f', run, marks) = insert-Marks f item valid in
      (
        f',
        run,
        (marks.0, has f f' _ item valid marks (elem_self _), λ x. grows f f' _ x valid marks),
      )

  -- After the insertion loop `contains` finds each of the items: there are no false negatives.
  pub bloom_insert_all-contains :
      (f : BloomFilter B) (items : List Item)
      → IsValid f
      → Returns
          (bloom_insert_all f items)
          λ f'. IsValid f' × All (λ item. contains f' item ≡ ok true) items
  bloom_insert_all-contains f items valid =
      let (f', run, marks) = bloom_insert_all-Marks f items valid in
      (
        f',
        run,
        (
          marks.0,
          All-imp items (λ item. has f f' _ item valid marks) (marked_by f.size f.hash_count items),
        ),
      )

  -- From a new filter with at least one bit the insertion loop returns one whose answer on every
  -- item, inserted or not, is whether each of its positions is a position of some inserted item.
  pub contains-bloom_insert_all :
      (size hash_count : ℕ) (items : List Item)
      → 0 < size
      → Returns (bloom_insert_all (new_bloom {B = B} size hash_count) items) λ f.
        (x : Item)
        → contains f x
          ≡ ok (all_of (is_marked size hash_count items) (positions size x hash_count 0))
  unfolding new_bloom
  contains-bloom_insert_all size hash_count items pos =
      let f = new_bloom {B = B} size hash_count in
      let (f', run, (valid', size', count', tests)) =
        bloom_insert_all-Marks f items (new_bloom-IsValid size hash_count pos) in
      let same : (x : Item)
          → All (λ p. s.test f'.bits p ≡ is_marked size hash_count items p)
              (positions size x hash_count 0) =
        λ x.
          All-imp (positions size x hash_count 0)
            (λ p lt. tests p lt ∙ rw (s.test-new_bits size p lt) (or_false _))
            (positions-lt size x hash_count 0 pos) in
      (
        f',
        run,
        λ x. rw (contains-all_of f' x valid', size', count') (ap ok (all_of-congr _ _ _ (same x))),
      )
