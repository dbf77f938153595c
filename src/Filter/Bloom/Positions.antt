-- ===== src/Filter/Bloom/Positions.antt =====
-- The loops of the Bloom filter, by the positions that they visit.
use native.Mathlib.Nat.{mod-lt}
use mathlib.Core.Bool.{true≢false}
use cs.Base.{
  ℕ, zero, suc, ◌+◌, ◌%◌, ◌<◌, ◌≡◌, refl, sym, ◌∙◌, ◌==◌, Bool, true, false, ◌||◌, ◌&&◌, Bool-cases,
  inl, inr, List, [], ◌∷◌, lt→ltb, eq→==, All, All-imp, ◌↔◌, if◌then◌else◌, arith,
}
use cs.Filter.Run.{ok, ◌>>=◌, modulo_ok, Returns}
use cs.Filter.Hasher.{Hasher}
use cs.Filter.Bitset.{Bitset}
use cs.Filter.Bloom.{mixed, hash, set_at, test_at, insert_loop, contains_loop}

abbrev pub elem : ℕ → List ℕ → Bool
elem p [] = false
elem p (q ∷ qs) = (p == q) || elem p qs

abbrev pub all_of : (ℕ → Bool) → List ℕ → Bool
all_of t [] = true
all_of t (p ∷ ps) = t p && all_of t ps

pub or_swap : (x y z : Bool) → (x || (y || z)) ≡ ((y || x) || z)
or_swap true true z = refl
or_swap true false z = refl
or_swap false true z = refl
or_swap false false z = refl

pub or_true : (x y : Bool) → y ≡ true → (x || y) ≡ true
or_true true y e = refl
or_true false y e = e

pub true_or : (x y : Bool) → x ≡ true → (x || y) ≡ true
true_or x y e = rw e refl

pub or_false : (x : Bool) → (x || false) ≡ x
or_false true = refl
or_false false = refl

and_true : (x y : Bool) → x ≡ true → y ≡ true → (x && y) ≡ true
and_true x y ex ey = rw ex ey

true_and : (x y : Bool) → (x && y) ≡ true → (x ≡ true) × (y ≡ true)
true_and true y e = (refl, e)
true_and false y e = absurd (true≢false (sym e))

-- The lists on which a test answers `true` throughout.
pub all_of-All : (t : ℕ → Bool) (ps : List ℕ) → (all_of t ps ≡ true) ↔ All (λ p. t p ≡ true) ps
all_of-All t [] = (λ e. tt, λ h. refl)
all_of-All t (p ∷ ps) = (
  λ e. let (first, rest) = true_and (t p) (all_of t ps) e in (first, (all_of-All t ps).0 rest),
  λ h. and_true (t p) (all_of t ps) h.0 ((all_of-All t ps).1 h.1),
)

pub all_of-congr :
    (t u : ℕ → Bool) (ps : List ℕ) → All (λ p. t p ≡ u p) ps → all_of t ps ≡ all_of u ps
all_of-congr t u [] h = refl
all_of-congr t u (p ∷ ps) h = rw (h.0, all_of-congr t u ps h.1) refl

pub elem_self : (ps : List ℕ) → All (λ p. elem p ps ≡ true) ps
elem_self [] = tt
elem_self (q ∷ qs) =
    (rw (eq→== q q refl) refl, All-imp qs (λ p e. or_true (p == q) (elem p qs) e) (elem_self qs))

module _ {ℓ} {Item : Type ℓ} ⦃h : Hasher Item⦄ where
  -- The position of an item in round `i`.
  pub position : ℕ → Item → ℕ → ℕ
  position size item i = mixed (h.hash_item item) i % size % size

  -- Those of `k` rounds from round `i` on.
  pub positions : ℕ → Item → ℕ → ℕ → List ℕ
  positions size item zero i = []
  positions size item (suc k) i = position size item i ∷ positions size item k (i + 1)

  pub position-lt : (size : ℕ) (item : Item) (i : ℕ) → 0 < size → position size item i < size
  unfolding position
  position-lt size item i pos = mod-lt _ pos

  pub positions-lt :
      (size : ℕ) (item : Item) (k i : ℕ) → 0 < size → All (λ p. p < size) (positions size item k i)
  unfolding positions
  positions-lt size item zero i pos = tt
  positions-lt size item (suc k) i pos =
      (position-lt size item i pos, positions-lt size item k (i + 1) pos)

module _ {ℓ κ} {Item : Type ℓ} {B : Type κ} ⦃h : Hasher Item⦄ ⦃s : Bitset B⦄ where
  module _ (size : ℕ) (item : Item) (pos : 0 < size) where
    below : (b : B) (i : ℕ) → s.bit_count b ≡ size → position size item i < s.bit_count b
    below b i e = omega (arith, position-lt size item i pos, e)

    insert_step :
        (k i : ℕ) (b : B)
        → s.bit_count b ≡ size
        → insert_loop size item (suc k) i b
          ≡ insert_loop size item k (i + 1) (s.set_bit b (position size item i))
    unfolding insert_loop hash position set_at
    insert_step k i b e =
        rw
          (
            modulo_ok (mixed (h.hash_item item) i) size pos,
            modulo_ok (mixed (h.hash_item item) i % size) size pos,
            ◌>>=◌,
            lt→ltb _ (s.bit_count b) (below b i e),
          )
          refl

    contains_step :
        (k i : ℕ) (b : B)
        → s.bit_count b ≡ size
        → contains_loop size item (suc k) i b ≡ (
            if s.test b (position size item i)
            then contains_loop size item k (i + 1) b
            else ok false)
    unfolding contains_loop hash position test_at
    contains_step k i b e =
        rw
          (
            modulo_ok (mixed (h.hash_item item) i) size pos,
            modulo_ok (mixed (h.hash_item item) i % size) size pos,
            ◌>>=◌,
            lt→ltb _ (s.bit_count b) (below b i e),
          )
          (elim (Bool-cases (s.test b (position size item i))) [
            | inl e' ↦ rw e' refl
            | inr e' ↦ rw e' refl
          ])

    -- The loop sets the bits at the positions of the item, and no others.
    pub insert_loop-sets :
        (k i : ℕ) (b : B)
        → s.bit_count b ≡ size
        → Returns (insert_loop size item k i b) λ b'.
          (s.bit_count b' ≡ size)
          × ((p : ℕ) → p < size → s.test b' p ≡ (elem p (positions size item k i) || s.test b p))
    unfolding insert_loop positions
    insert_loop-sets zero i b e = (b, refl, (e, λ p lt. refl))
    insert_loop-sets (suc k) i b e =
        let q = position size item i in
        let (b', run, (count, tests)) =
          insert_loop-sets k (i + 1) (s.set_bit b q) (s.bit_count-set_bit b q (below b i e) ∙ e) in
        (
          b',
          insert_step k i b e ∙ run,
          (
            count,
            λ p lt.
                rw (tests p lt, s.test-set_bit b q p (below b i e) (omega arith))
                  (or_swap (elem p (positions size item k (i + 1))) (p == q) (s.test b p)),
          ),
        )

    -- The loop tests them.
    pub contains_loop-tests :
        (k i : ℕ) (b : B)
        → s.bit_count b ≡ size
        → contains_loop size item k i b ≡ ok (all_of (s.test b) (positions size item k i))
    unfolding contains_loop positions
    contains_loop-tests zero i b e = refl
    contains_loop-tests (suc k) i b e =
        rw (contains_step k i b e, contains_loop-tests k (i + 1) b e)
          (elim (Bool-cases (s.test b (position size item i))) [
            | inl e' ↦ rw e' refl
            | inr e' ↦ rw e' refl
          ])
