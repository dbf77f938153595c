-- ===== src/Main/Refound.antt =====
-- The loops that insert, and then the loops that count over the same items: none is missed.
use cs.Base.{
  ℕ, zero, suc, ◌+◌, ◌^◌, ◌≡◌, refl, ap, sym, ◌∙◌, Bool, true, All, All-imp, if◌then◌else◌, arith,
}
use cs.Filter.Run.{Run, ok, ◌>>=◌, >>=-eq-ok, Returns, Returns-at, ok-injective}
use cs.Filter.Hasher.{Hasher, Engine}
use cs.Filter.Bitset.{Bitset}
use cs.Filter.Bloom as Bloom
use cs.Filter.Bloom.{BloomFilter, new_bloom, bloom_insert_all}
use cs.Filter.Bloom.Contents as Bits
use cs.Filter.Cuckoo as Cuckoo
use cs.Filter.Cuckoo.{CuckooFilter}
use cs.Filter.Cuckoo.Lookup.{contains-view}
use cs.Filter.Cuckoo.Session.{fresh, insert_all, insert_all-AfterAll, new_filter-starts}
use cs.Main.{Sizes, make_bf, make_cf, fill, fill_counting, count_found}
use cs.Main.Loops.{drawn, later, hits-all, count_found-hits}
use cs.Main.Parts.{AreUsable, bloom_part}

module _ {Item S : Type 0} ⦃h : Hasher Item⦄ (next : S → Item × S) where
  -- A test that finds all items drawn counts all of them.
  all_counted :
      (test : Item → Run Bool) (answer : Item → Bool)
      → ((item : Item) → test item ≡ ok (answer item))
      → (n : ℕ) (s : S) → All (λ item. test item ≡ ok true) (drawn next n s)
      → count_found next test n s 0 ≡ ok (n, later next n s)
  all_counted test answer same n s found =
      let yes_all : All (λ item. answer item ≡ true) (drawn next n s) =
        All-imp (drawn next n s) (λ item e. ok-injective (sym (same item) ∙ e)) found in
      let e = hits-all next answer n s yes_all in
      count_found-hits next test answer same n s 0
      ∙ ap (λ (x : ℕ). ok (x, later next n s)) (omega arith)

  pub fill-bloom_insert_all :
      {B : Type 0} ⦃b : Bitset B⦄ (n : ℕ) (f : BloomFilter B) (s : S) {f' : BloomFilter B} {s' : S}
      → fill next Bloom.insert n f s ≡ ok (f', s')
      → bloom_insert_all f (drawn next n s) ≡ ok f'
  unfolding fill bloom_insert_all drawn
  fill-bloom_insert_all zero f s e = cc (ok-injective e)
  fill-bloom_insert_all (suc n) f s e =
      let (f₁, first, rest) = >>=-eq-ok (Bloom.insert f (next s).0) _ e in
      rw (first, ◌>>=◌) (fill-bloom_insert_all n f₁ (next s).1 rest)

  fill_counting-insert_all :
      {G : Type 0} ⦃e : Engine G⦄ (n : ℕ) (f : CuckooFilter G) (s : S) (fail : ℕ) {fail' : ℕ}
      {f' : CuckooFilter G} {s' : S}
      → fill_counting next Cuckoo.insert n f s fail ≡ ok (fail', f', s')
      → insert_all f (drawn next n s) fail ≡ ok (fail', f')
  unfolding fill_counting insert_all drawn
  fill_counting-insert_all zero f s fail e = cc (ok-injective e)
  fill_counting-insert_all (suc n) f s fail e =
      let ((done, f₁), first, rest) = >>=-eq-ok (Cuckoo.insert f (next s).0) _ e in
      rw (first, ◌>>=◌)
        (fill_counting-insert_all n f₁ (next s).1 (if done then fail else fail + 1) rest)

  -- The Bloom filter of main.cpp, with at least one bit: when the items that the first loop inserted are
  -- drawn again, the second loop counts all of them.
  pub bloom-refound :
      {B : Type 0} ⦃b : Bitset B⦄ (sizes : Sizes) (n : ℕ) (s : S)
      → AreUsable sizes n
      → Returns
          (fill next Bloom.insert n (make_bf {B = B} sizes n) s)
          λ r. count_found next (Bloom.contains r.0) n s 0 ≡ ok (n, later next n s)
  unfolding make_bf
  bloom-refound {B} sizes n s usable =
      let (f, ran, (valid, sized)) = bloom_part {B = B} next sizes n usable s in
      let start = Bits.new_bloom-IsValid {B = B} (sizes.bits n) (sizes.hashes n) usable.some_bits in
      let (valid', found) =
        Returns-at _ f
          (Bits.bloom_insert_all-contains (make_bf {B = B} sizes n) (drawn next n s) start)
          (fill-bloom_insert_all n (make_bf {B = B} sizes n) s ran) in
      (
        (f, later next n s),
        ran,
        all_counted (Bloom.contains f) _ (λ item. Bits.contains-all_of f item valid) n s found,
      )

  -- The cuckoo filter of main.cpp, where the number of buckets is a power of two and no insertion failed:
  -- when the items that the first loop inserted are drawn again, the second loop counts all of them.
  pub cuckoo-refound :
      {G : Type 0} ⦃e : Engine G⦄ (sizes : Sizes) (n k : ℕ) (s : S) (g : G) {f₀ f : CuckooFilter G}
      {s' : S}
      → AreUsable sizes n
      → sizes.buckets n ≡ 2 ^ k
      → make_cf sizes n g ≡ ok f₀
      → fill_counting next Cuckoo.insert n f₀ s 0 ≡ ok (0, f, s')
      → count_found next (Cuckoo.contains f) n s 0 ≡ ok (n, later next n s)
  unfolding make_cf
  cuckoo-refound sizes n k s g {f₀} {f} usable power made filled =
      let few = usable.few_buckets in
      let (made', valid, empty) =
        new_filter-starts (sizes.buckets n) 2 8 50 g (omega arith) (omega arith) usable.some_buckets
          (omega arith) (omega arith) in
      let same : f₀ ≡ fresh (sizes.buckets n) 2 8 50 g = ok-injective (sym made ∙ made') in
      let filled' = rw same at filled in
      let after =
        Returns-at _ (0, f)
          (insert_all-AfterAll (drawn next n s) (fresh (sizes.buckets n) 2 8 50 g) k 0 power valid)
          (fill_counting-insert_all n (fresh (sizes.buckets n) 2 8 50 g) s 0 filled') in
      all_counted (Cuckoo.contains f) _ (λ item. contains-view f item after.still_valid) n s
        (after.adds refl)
