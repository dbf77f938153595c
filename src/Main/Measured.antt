-- ===== src/Main/Measured.antt =====
-- What main.cpp prints of the Bloom and the cuckoo filter, for any generators, hashes and texts.
use cs.Base.{ℕ, ◌+◌, ◌*◌, ◌≡◌, Bool, ltb, List}
use cs.Filter.Run.{ok}
use cs.Filter.Hasher.{Hasher, Engine}
use cs.Filter.Bitset.{Bitset}
use cs.Filter.Bloom as Bloom
use cs.Filter.Bloom.{BloomFilter}
use cs.Filter.Bloom.Contents as Bits
use cs.Filter.Bloom.Positions.{positions, all_of}
use cs.Filter.Cuckoo as Cuckoo
use cs.Filter.Cuckoo.{CuckooFilter}
use cs.Filter.Cuckoo.Lookup.{view}
use cs.Filter.Cuckoo.Session.{stored}
use cs.Main.{Sizes, make_cf, fill_counting, measure_cf}
use cs.Main.Loops.{drawn, later, hits}
use cs.Main.Parts.{AreUsable}

-- Whether each position of an item is one of some item in the list.
abbrev pub is_taken : {Item : Type 0} ⦃h : Hasher Item⦄ → Sizes → ℕ → List Item → Item → Bool
is_taken sizes n items x =
    all_of (Bits.is_marked (sizes.bits n) (sizes.hashes n) items)
      (positions (sizes.bits n) x (sizes.hashes n) 0)

module _ {Item S : Type 0} ⦃h : Hasher Item⦄ (sizes : Sizes) (uniform : S → Item × S) (n : ℕ)
    (usable : AreUsable sizes n) (next : S → Item × S) (s t : S) where
  module _ {G : Type 0} ⦃e : Engine G⦄ (g : G) where
    -- What the measurement of the cuckoo filter comes to, with the filter that it fills.
    record CuckooCounted : Type 0 where
      start : CuckooFilter G
      f : CuckooFilter G
      fail : ℕ
      made : make_cf sizes n g ≡ ok start
      filled : fill_counting next Cuckoo.insert n start s 0 ≡ ok (fail, f, later next n s)
      -- What does not fail takes a slot more.
      kept : stored f + fail ≡ n
      run :
          measure_cf sizes uniform next n s t g
          ≡ ok (
            fail,
            hits uniform (λ x. ltb 0 (view f x)) (drawn uniform n t),
            sizes.buckets n * 2 * 8,
            later next n s,
            later uniform n t,
          )
