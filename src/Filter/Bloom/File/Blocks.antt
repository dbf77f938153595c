-- ===== src/Filter/Bloom/File/Blocks.antt =====
-- The loops that set the bits of the blocks make the bits that the blocks were made of.
use native.Mathlib.Nat.{add-zero, zero-add, one-le-pow}
use native.Mathlib.Decide.{dec_lt, ℕ_discrete}
use cs.Base.{
  ℕ, zero, suc, ◌+◌, ◌*◌, ◌/◌, ◌%◌, ◌^◌, ◌<◌, ◌≡◌, refl, ◌∙◌, inl, inr, bit_and, Bool, true, false,
  ◌&&◌, List, [], ◌∷◌, length, get_or, ltb, lt→ltb, not-ltb, ◌==◌, ==→eq, ==→ne, Bool-cases,
  if◌then◌else◌, arith,
}
use cs.Base.Bits.{bit_and_power}
use cs.Filter.Run.{◌>>=◌, Returns}
use cs.Filter.Bitset.{Bitset}
use cs.Filter.Bloom.{set_at}
use cs.Filter.Bloom.File.{load_bit, load_block, load_blocks}

-- The block has the wanted bits from `i * 64` on.
abbrev pub IsBlock : ℕ → (ℕ → Bool) → ℕ → ℕ → Type 0
IsBlock size wanted i blk =
    (k : ℕ) → k < 64 → i * 64 + k < size → blk / 2 ^ k % 2 ≡ (if wanted (i * 64 + k) then 1 else 0)

digit_zero : (b blk : ℕ) → (bit_and blk (2 ^ b) == 0) ≡ true → blk / 2 ^ b % 2 ≡ 0
digit_zero b blk clear = elim (ℕ_discrete (blk / 2 ^ b % 2) 0) [
  | yes e ↦ e
  | no ne ↦
      let one : blk / 2 ^ b % 2 ≡ 1 = omega arith in
      absurd (
        omega
          (arith, ==→eq _ _ clear, rw one at (bit_and_power b blk), one-le-pow b 2 (omega arith)))
]

digit_one : (b blk : ℕ) → (bit_and blk (2 ^ b) == 0) ≡ false → blk / 2 ^ b % 2 ≡ 1
digit_one b blk found = elim (ℕ_discrete (blk / 2 ^ b % 2) 0) [
  | yes e ↦
      absurd (==→ne (bit_and blk (2 ^ b)) 0 found (omega (arith, rw e at (bit_and_power b blk))))
  | no ne ↦ omega arith
]

module _ {κ} {B : Type κ} ⦃s : Bitset B⦄ (size : ℕ) (wanted : ℕ → Bool) where
  -- The bits below `q` are as wanted, and no others are set.
  record IsDone (q : ℕ) (bits : B) : Type 0 where
    filled : s.bit_count bits ≡ size
    tests : (p : ℕ) → p < size → s.test bits p ≡ (ltb p q && wanted p)

  skip-IsDone :
      (q : ℕ) (bits : B) → (q < size → wanted q ≡ false) → IsDone q bits → IsDone (q + 1) bits
  skip-IsDone q bits other done = record {
    filled = done.filled;
    tests = λ p lt. elim (ℕ_discrete p q) [
      | yes e ↦ ground (arith, done.tests p lt, other, e)
      | no ne ↦ ground (arith, done.tests p lt, ne)
    ];
  }

  set-IsDone :
      (q : ℕ) (bits : B)
      → q < size
      → wanted q ≡ true
      → IsDone q bits
      → IsDone (q + 1) (s.set_bit bits q)
  set-IsDone q bits inside want done = record {
    filled = s.bit_count-set_bit bits q (omega (arith, done.filled)) ∙ done.filled;
    tests = λ p lt.
        let after =
          s.test-set_bit bits q p (omega (arith, done.filled)) (omega (arith, done.filled)) in
        elim (ℕ_discrete p q) [
          | yes e ↦ ground (arith, after, done.tests p lt, want, e)
          | no ne ↦ ground (arith, after, done.tests p lt, ne)
        ];
  }

  load_bit-IsDone :
      (i b blk : ℕ) (bits : B)
      → size + 63 < 2 ^ 64
      → b < 64
      → i * 64 < size
      → IsBlock size wanted i blk
      → IsDone (i * 64 + b) bits
      → Returns (load_bit size i b blk bits) (IsDone (i * 64 + b + 1))
  unfolding load_bit set_at
  load_bit-IsDone i b blk bits small lt here block done =
      let q = i * 64 + b in
      let unwrapped : q % 2 ^ 64 ≡ q = omega arith in
      elim (Bool-cases (bit_and blk (2 ^ b) == 0)) [
        | inl clear ↦ (
          bits,
          rw clear refl,
          skip-IsDone q bits
              (λ inside. not_wanted (wanted q) (block b lt inside) (digit_zero b blk clear)) done,
        )
        | inr found ↦ elim (dec_lt q size) [
          | yes inside ↦ (
            s.set_bit bits q,
            rw
                (
                  found,
                  unwrapped,
                  lt→ltb q size inside,
                  lt→ltb q (s.bit_count bits) (omega (arith, done.filled)),
                )
                refl,
            set-IsDone q bits inside
                (is_wanted (wanted q) (block b lt inside) (digit_one b blk found)) done,
          )
          | no outside ↦ (
            bits,
            rw (found, unwrapped, not-ltb q size outside) refl,
            skip-IsDone q bits (λ inside. absurd (outside inside)) done,
          )
        ]
      ]
    where
      not_wanted : {d : ℕ} (want : Bool) → d ≡ (if want then 1 else 0) → d ≡ 0 → want ≡ false
      not_wanted true e z = absurd (omega arith)
      not_wanted false e z = refl

      is_wanted : {d : ℕ} (want : Bool) → d ≡ (if want then 1 else 0) → d ≡ 1 → want ≡ true
      is_wanted true e z = refl
      is_wanted false e z = absurd (omega arith)

  load_block-IsDone :
      (i blk k b : ℕ) (bits : B)
      → size + 63 < 2 ^ 64
      → b + k ≡ 64
      → i * 64 < size
      → IsBlock size wanted i blk
      → IsDone (i * 64 + b) bits
      → Returns (load_block size i blk k b bits) (IsDone (i * 64 + 64))
  unfolding load_block
  load_block-IsDone i blk zero b bits small e here block done =
      let last : b ≡ 64 = omega arith in (bits, refl, rw last at done)
  load_block-IsDone i blk (suc k) b bits small e here block done =
      let (bits', run, done') = load_bit-IsDone i b blk bits small (omega arith) here block done in
      let next : i * 64 + b + 1 ≡ i * 64 + (b + 1) = omega arith in
      let (bits'', ran, done'') =
        load_block-IsDone i blk k (b + 1) bits' small (omega arith) here block (rw next at done') in
      (bits'', rw (run, ◌>>=◌) ran, done'')

  -- Through all the blocks from block `i` on.
  load_blocks-IsDone :
      (blocks : List ℕ) (i : ℕ) (bits : B)
      → size + 63 < 2 ^ 64
      → i + length blocks ≡ (size + 63) / 64
      → ((j : ℕ) → j < length blocks → IsBlock size wanted (i + j) (get_or blocks j 0))
      → IsDone (i * 64) bits
      → Returns (load_blocks size i blocks bits) (IsDone ((size + 63) / 64 * 64))
  unfolding load_blocks
  load_blocks-IsDone [] i bits small e all done =
      let last : i ≡ (size + 63) / 64 = omega arith in (bits, refl, rw last at done)
  load_blocks-IsDone (blk ∷ blocks) i bits small e all done =
      let first : IsBlock size wanted i blk = rw add-zero at (all 0 (omega arith)) in
      let start : i * 64 + 0 ≡ i * 64 = omega arith in
      let next : i * 64 + 64 ≡ (i + 1) * 64 = omega arith in
      let (bits', run, done') =
        load_block-IsDone i blk 64 0 bits small (omega arith) (omega arith) first (rw start done) in
      let (bits'', ran, done'') =
        load_blocks-IsDone blocks (i + 1) bits' small (omega arith)
          (λ j lt.
            let shifted : i + 1 + j ≡ i + suc j = omega arith in
            rw shifted (all (suc j) (omega arith)))
          (rw next at done') in
      (bits'', rw (run, ◌>>=◌) ran, done'')

-- The bits that are made of the blocks of `bits` are the same.
pub load_blocks-to_blocks {κ} :
    {B : Type κ} ⦃s : Bitset B⦄ (size : ℕ) (bits : B)
    → s.bit_count bits ≡ size
    → size + 63 < 2 ^ 64
    → Returns
        (load_blocks size 0 (s.to_blocks bits) (s.new_bits size))
        (λ b. (s.bit_count b ≡ size) × ((p : ℕ) → p < size → s.test b p ≡ s.test bits p))
load_blocks-to_blocks ⦃s⦄ size bits filled small =
    let blocks = s.to_blocks bits in
    let (b, run, done) =
      load_blocks-IsDone size (s.test bits) blocks 0 (s.new_bits size) small
        (omega (arith, s.length-to_blocks bits, filled))
        (λ j lt k below inside.
          rw (zero-add j)
            (s.to_blocks-test bits j k below (omega (arith, rw (zero-add j) at inside, filled))))
        (record {
          filled = s.bit_count-new_bits size;
          tests = λ p lt. ground (arith, s.test-new_bits size p lt);
        }) in
    (b, run, (done.filled, λ p lt. ground (arith, done.tests p lt)))
