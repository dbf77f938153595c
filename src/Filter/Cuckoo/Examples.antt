-- ===== src/Filter/Cuckoo/Examples.antt =====
-- Runs of the cuckoo filter over items that are their own hashes, and a filter with three buckets.
use cs.Base.{
  ℕ, ◌+◌, ◌≡◌, refl, Bool, true, false, List, [], ◌∷◌, if◌then◌else◌, ltb, arith, replicate,
}
use cs.Filter.Run.{Run, ok, ◌>>=◌, read, write, modulo, Returns}
use cs.Filter.Hasher.{fingerprint_of, index1_of, index2_of}
use cs.Filter.Samples.{number_hasher, counter}
use cs.Filter.Slots.{find_slot}
use cs.Filter.Cuckoo.{CuckooFilter, new_filter, evict, insert, contains, erase}
use cs.Filter.Cuckoo.Valid.{IsValid}
use cs.Filter.Cuckoo.Lookup.{view, contains-view}
use cs.Filter.Cuckoo.Bag.{AfterInsert, AfterErase, insert-view, erase-view, contains-insert}
use cs.Filter.Cuckoo.Session.{stored, stored-insert, insert_all, erase-insert}

program : Unit {0}
unfolding read write modulo fingerprint_of index1_of index2_of find_slot evict insert contains erase
    new_filter insert_all
program = tt

abbrev four : CuckooFilter ℕ
four = record {
  bucket_count = 4;
  bucket_size = 1;
  fingerprint_size = 8;
  max_kicks = 5;
  buckets = replicate 4 0;
  rng = 0;
}

four-IsValid : IsValid four
four-IsValid = omega arith

-- 7, 263 and 519 share the fingerprint 7; the buckets are 3 and 0, for the first two of them.
abbrev full : List ℕ
full = 7 ∷ 263 ∷ []

insert_twice : insert_all four full 0 ≡ ok (0, record four { buckets = 7 ∷ 0 ∷ 0 ∷ 7 ∷ [] })
unfolding program
insert_twice = refl

insert_fails :
    insert {Item = ℕ} (record four { buckets = 7 ∷ 0 ∷ 0 ∷ 7 ∷ [] }) 519
    ≡ ok (false, record four { buckets = 7 ∷ 0 ∷ 0 ∷ 7 ∷ []; rng = 6 })
unfolding program
insert_fails = refl

abbrev three : CuckooFilter ℕ
three = record {
  bucket_count = 3;
  bucket_size = 1;
  fingerprint_size = 8;
  max_kicks = 5;
  buckets = replicate 3 0;
  rng = 0;
}

-- With three buckets all three insertions succeed, and the second item is not found afterwards:
-- it was moved to the alternate of its second bucket, which is not its first.
abbrev three_later : Run (ℕ × Bool)
three_later = do
  (failures, f) ← insert_all {Item = ℕ} three (259 ∷ 514 ∷ 6 ∷ []) 0
  found ← contains {Item = ℕ} f 514
  ok (failures, found)

lost_item : three_later ≡ ok (0, false)
unfolding program
lost_item = refl

contains-view_example : contains {Item = ℕ} four 7 ≡ ok (ltb 0 (view {Item = ℕ} four 7))
contains-view_example = contains-view {Item = ℕ} four 7 four-IsValid

insert-view_example :
    Returns (insert {Item = ℕ} four 7) (AfterInsert {Item = ℕ} four 2 refl four-IsValid 7)
insert-view_example = insert-view {Item = ℕ} four 2 refl four-IsValid 7

erase-view_example :
    Returns (erase {Item = ℕ} four 7) (AfterErase {Item = ℕ} four 2 refl four-IsValid 7)
erase-view_example = erase-view {Item = ℕ} four 2 refl four-IsValid 7

abbrev one_item : CuckooFilter ℕ
one_item = record four { buckets = 0 ∷ 0 ∷ 0 ∷ 7 ∷ [] }

insert_first : insert {Item = ℕ} four 7 ≡ ok (true, one_item)
unfolding program
insert_first = refl

contains-insert_example :
    (contains {Item = ℕ} one_item 7 ≡ ok true)
    × ((other : ℕ) → contains four other ≡ ok true → contains one_item other ≡ ok true)
contains-insert_example =
    contains-insert {Item = ℕ} four 2 refl four-IsValid 7 one_item insert_first

stored-insert_example :
    Returns
      (insert {Item = ℕ} three 514)
      λ r. IsValid r.1 × (stored r.1 ≡ stored three + (if r.0 then 1 else 0))
stored-insert_example = stored-insert {Item = ℕ} three (omega arith) 514

erase-insert_example :
    Returns
      (erase {Item = ℕ} one_item 7)
      λ r. (r.0 ≡ true) × ((other : ℕ) → view r.1 other ≡ view four other)
erase-insert_example = erase-insert {Item = ℕ} four 2 7 refl four-IsValid insert_first
