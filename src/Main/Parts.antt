-- ===== src/Main/Parts.antt =====
-- The parts of the Bloom and the cuckoo filter in a measurement.
use native.Mathlib.Nat.{zero-add}
use cs.Base.{
  ℕ, suc, ◌+◌, ◌*◌, ◌%◌, ◌^◌, ◌≡◌, ◌<◌, refl, ap, ◌∙◌, Bool, true, false, if◌then◌else◌, arith,
}
use cs.Filter.Run.{Run, ok, Returns}
use cs.Filter.Hasher.{Hasher, Engine}
use cs.Filter.Bitset.{Bitset}
use cs.Filter.Bloom as Bloom
use cs.Filter.Bloom.{BloomFilter, new_bloom, bloom_insert_all}
use cs.Filter.Bloom.Contents as Bits
use cs.Filter.Cuckoo as Cuckoo
use cs.Filter.Cuckoo.{CuckooFilter, new_filter}
use cs.Filter.Cuckoo.Valid as Slots
use cs.Filter.Cuckoo.Session.{stored, fresh, insert-stored_sized, new_filter-starts}
use cs.Main.{Sizes, make_bf, make_cf, fill, fill_counting, count_found}
use cs.Main.Loops.{later, fill_counting-keeps, fill-keeps, hits, drawn, count_found-hits}

-- The sizes for `n` items are numbers that the filters can be built with.
pub record AreUsable (sizes : Sizes) (n : ℕ) : Type 0 where
  pub some_bits : 0 < sizes.bits n
  pub some_buckets : 0 < sizes.buckets n
  pub few_buckets : sizes.buckets n * 16 < 2 ^ 64

module _ {Item S : Type 0} (next : S → Item × S) where
  -- A test that answers on every item.
  pub counted :
      (test : Item → Run Bool) (answer : Item → Bool)
      → ((item : Item) → test item ≡ ok (answer item))
      → (n : ℕ) (s : S)
      → count_found next test n s 0 ≡ ok (hits next answer (drawn next n s), later next n s)
  counted test answer same n s = rw zero-add at (count_found-hits next test answer same n s 0)

module _ {Item S B : Type 0} ⦃h : Hasher Item⦄ ⦃b : Bitset B⦄ (next : S → Item × S) (sizes : Sizes)
    (n : ℕ) (usable : AreUsable sizes n) where
  abbrev pub IsFilledBloom : BloomFilter B → Type 0
  IsFilledBloom f = Bits.IsValid f × (f.size ≡ sizes.bits n)

  pub bloom_part :
      (s : S)
      → (f : BloomFilter B) × (fill next Bloom.insert n (make_bf {B = B} sizes n) s
          ≡ ok (f, later next n s))
        × IsFilledBloom f
  unfolding make_bf new_bloom
  bloom_part s =
      let f = new_bloom {B = B} (sizes.bits n) (sizes.hashes n) in
      let ((f', s'), ran, (valid, last)) =
        fill-keeps next Bloom.insert IsFilledBloom
          (λ f item v.
            let (f', run, marks) = Bits.insert-Marks f item v.0 in
            (f', run, (marks.0, marks.1 ∙ v.1)))
          n f s
          (Bits.new_bloom-IsValid {B = B} (sizes.bits n) (sizes.hashes n) usable.some_bits, refl) in
      (f', ran ∙ ap (λ (x : S). ok (f', x)) last, valid)

one_outcome :
    (done : Bool) (a fail i b : ℕ)
    → b ≡ a + (if done then 1 else 0)
    → a + fail ≡ i
    → b + (if done then fail else fail + 1) ≡ suc i
one_outcome true a fail i b more kept = omega arith
one_outcome false a fail i b more kept = omega arith

module _ {Item S G : Type 0} ⦃h : Hasher Item⦄ ⦃e : Engine G⦄ (next : S → Item × S) (sizes : Sizes)
    (n : ℕ) (usable : AreUsable sizes n) where
  -- After `i` rounds with `fail` failures.
  record Filling (i fail : ℕ) (f : CuckooFilter G) : Type 0 where
    valid : Slots.IsValid f
    count : f.bucket_count ≡ sizes.buckets n
    slots : f.bucket_size ≡ 2
    kept : stored f + fail ≡ i

  Filling-round :
      (i fail : ℕ) (f : CuckooFilter G) (item : Item)
      → Filling i fail f
      → Returns (Cuckoo.insert f item) λ r. Filling (suc i) (if r.0 then fail else fail + 1) r.1
  Filling-round i fail f item v =
      let (r, run, (valid, one_more, same_count, same_size)) = insert-stored_sized f v.valid item in
      (
        r,
        run,
        record {
          valid = valid;
          count = same_count ∙ v.count;
          slots = same_size ∙ v.slots;
          kept = one_outcome r.0 (stored f) fail i (stored r.1) one_more v.kept;
        },
      )

  abbrev pub IsFilledCuckoo : ℕ → CuckooFilter G → Type 0
  IsFilledCuckoo fail f =
      Slots.IsValid f × (Cuckoo.size f ≡ sizes.buckets n * 2 * 8) × (stored f + fail ≡ n)

  cuckoo_size :
      (f : CuckooFilter G)
      → f.bucket_count ≡ sizes.buckets n
      → f.bucket_size ≡ 2
      → Cuckoo.size f ≡ sizes.buckets n * 2 * 8
  unfolding Cuckoo.size
  cuckoo_size f count slots =
      let k = sizes.buckets n in
      let few = usable.few_buckets in
      let e : k * 2 % 2 ^ 64 * 8 % 2 ^ 64 ≡ k * 2 * 8 = omega arith in rw (count, slots) e

  pub cuckoo_part :
      (s : S) (g : G)
      → (f₀ : CuckooFilter G) × (f : CuckooFilter G) × (fail : ℕ) × (make_cf sizes n g ≡ ok f₀)
        × (fill_counting next Cuckoo.insert n f₀ s 0 ≡ ok (fail, f, later next n s))
        × IsFilledCuckoo fail f
  unfolding make_cf
  cuckoo_part s g =
      let k = sizes.buckets n in
      let few = usable.few_buckets in
      let (made, valid, empty) =
        new_filter-starts k 2 8 50 g (omega arith) (omega arith) usable.some_buckets (omega arith)
          (omega arith) in
      let start : Filling 0 0 (fresh k 2 8 50 g) = record {
        valid = valid;
        count = refl;
        slots = refl;
        kept = omega (arith, empty);
      } in
      let ((fail, f, s'), ran, (v, last)) =
        fill_counting-keeps next Cuckoo.insert Filling Filling-round n 0 0 (fresh k 2 8 50 g) s
          start in
      let kept = v.kept in
      (
        fresh k 2 8 50 g,
        f,
        fail,
        made,
        ran ∙ ap (λ (x : S). ok (fail, f, x)) last,
        (v.valid, cuckoo_size f v.count v.slots, omega arith),
      )
