-- ===== src/Filter/Bloom/Undefined.antt =====
-- When inserting into a Bloom filter is undefined.
use native.Mathlib.Decide.{dec_lt}
use cs.Base.{zero, suc, ℕ, ◌<◌, ◌≡◌, refl, sym, ap, ◌∙◌, ◌↔◌, arith}
use cs.Filter.Run.{ok, fault, modulo, ok-ne_fault, ◌>>=◌}
use cs.Filter.Hasher.{Hasher}
use cs.Filter.Bitset.{Bitset}
use cs.Filter.Bloom.{insert_loop, hash, BloomFilter, insert}
use cs.Filter.Bloom.Contents.{insert-Marks}

module _ {ℓ κ} {Item : Type ℓ} {B : Type κ} ⦃h : Hasher Item⦄ ⦃s : Bitset B⦄ where
  loop_fault :
      (size : ℕ) (item : Item) (k : ℕ) (b : B)
      → size ≡ 0
      → 0 < k
      → insert_loop size item k 0 b ≡ fault
  unfolding insert_loop hash modulo
  loop_fault size item zero b e pos = absurd (omega arith)
  loop_fault zero item (suc k) b e pos = refl
  loop_fault (suc size) item (suc k) b e pos = absurd (omega arith)

  loop_no_rounds :
      (size : ℕ) (item : Item) (k : ℕ) (b : B) → ¬ (0 < k) → insert_loop size item k 0 b ≡ ok b
  unfolding insert_loop
  loop_no_rounds size item zero b none_left = refl
  loop_no_rounds size item (suc k) b none_left = absurd (none_left (omega arith))

  -- Where the bit set is as long as `size_` says, `insert` is undefined exactly for a size of 0 with
  -- at least one hash.
  pub bloom_insert-fault :
      (f : BloomFilter B) (item : Item)
      → s.bit_count f.bits ≡ f.size
      → (insert f item ≡ fault) ↔ ((f.size ≡ 0) × (0 < f.hash_count))
  unfolding insert
  bloom_insert-fault f item filled = (
    λ e. elim (dec_lt 0 f.size) [
      | yes pos ↦
          let (f', run, marks) = insert-Marks f item (record { sized = pos; filled = filled }) in
          absurd (ok-ne_fault (sym run ∙ e))
      | no empty ↦ elim (dec_lt 0 f.hash_count) [
        | yes rounds ↦ (omega arith, rounds)
        | no rounds ↦ absurd (
            ok-ne_fault (
              sym (
                ap (λ m. m >>= λ b. ok (record f { bits = b }))
                  (loop_no_rounds f.size item f.hash_count f.bits rounds))
              ∙ e))
      ]
    ],
    λ d. rw (loop_fault f.size item f.hash_count f.bits d.0 d.1, ◌>>=◌) refl,
  )
