-- ===== src/Filter/Samples.antt =====
-- Arguments for the examples: a hash that is the number itself, an engine that counts, and bits in a list.
use native.Mathlib.Nat.{
  mod-lt, min-le_right, pow-suc, one-le-pow, add-zero, zero-add, div-div-eq-div-mul, zero-div,
}
use cs.Base.{
  ℕ, zero, suc, ap, [], ◌∷◌, drop, get_or-drop, All, if◌then◌else◌, ◌*◌, ◌/◌, ◌+◌, ◌%◌, ◌^◌, ◌<◌,
  ◌≡◌, refl, sym, min, Bool, true, false, ◌||◌, ◌==◌, List, length, get_or, set, length-set,
  get_or-set_self, get_or-set_ne, replicate, length-replicate, get_or-replicate, arith, eq→==,
  ne→==,
}
use native.Mathlib.Decide.{ℕ_discrete}
use cs.Base.Words.{IsU64}
use cs.Filter.Hasher.{Hasher, Engine}
use cs.Filter.Bitset.{Bitset}

pub wrapped : (n : ℕ) → n % 2 ^ 64 < 2 ^ 64
wrapped n = mod-lt n (omega arith)

instance abbrev pub number_hasher : Hasher ℕ
number_hasher = record {
  hash_item = λ n. n % 2 ^ 64;
  hash_byte = λ b. b % 2 ^ 64;
  hash_item-lt = wrapped;
  hash_byte-lt = wrapped;
}

-- An engine that counts.
instance abbrev pub counter : Engine ℕ
counter = record {
  draw = λ g. (g, g + 1);
  uniform = λ b g. (min g b, g + 1);
  uniform-le = λ b g. min-le_right g b;
}

pub set-get_or :
    (b : List Bool) (i j : ℕ)
    → i < length b
    → get_or (set b i true) j false ≡ ((j == i) || get_or b j false)
set-get_or b i j lt = elim (ℕ_discrete j i) [
  | yes e ↦ rw (eq→== j i e, e, get_or-set_self b i true false lt) refl
  | no n ↦ rw (ne→== j i n, get_or-set_ne b i j true false (λ e. n (sym e))) refl
]

-- The number of the first `n` bits, and the words of the bits.
word_of : ℕ → List Bool → ℕ
word_of zero bs = 0
word_of (suc n) [] = 0
word_of (suc n) (b ∷ bs) = (if b then 1 else 0) + 2 * word_of n bs

unfoldable pub words_of : ℕ → ℕ → List Bool → List ℕ
unfolding word_of
words_of zero i bs = []
words_of (suc k) i bs = word_of 64 (drop (i * 64) bs) ∷ words_of k (i + 1) bs

word_of-lt : (n : ℕ) (bs : List Bool) → word_of n bs < 2 ^ n
unfolding word_of
word_of-lt zero bs = omega arith
word_of-lt (suc n) [] = omega (arith, pow-suc 2 n, one-le-pow n 2 (omega arith))
word_of-lt (suc n) (true ∷ bs) = omega (arith, pow-suc 2 n, word_of-lt n bs)
word_of-lt (suc n) (false ∷ bs) = omega (arith, pow-suc 2 n, word_of-lt n bs)

word_of-get_or :
    (n k : ℕ) (bs : List Bool)
    → k < n
    → word_of n bs / 2 ^ k % 2 ≡ (if get_or bs k false then 1 else 0)
unfolding word_of
word_of-get_or zero k bs lt = absurd (omega arith)
word_of-get_or (suc n) k [] lt = rw (zero-div (2 ^ k)) refl
word_of-get_or (suc n) zero (true ∷ bs) lt = omega arith
word_of-get_or (suc n) zero (false ∷ bs) lt = omega arith
word_of-get_or (suc n) (suc k) (b ∷ bs) lt =
    rw (double k, ← div-div-eq-div-mul ((if b then 1 else 0) + 2 * word_of n bs) 2 (2 ^ k), half b)
      (word_of-get_or n k bs (omega arith))
  where
    double : (k : ℕ) → 2 ^ suc k ≡ 2 * 2 ^ k
    double k = omega (arith, pow-suc 2 k)

    half : (b : Bool) → ((if b then 1 else 0) + 2 * word_of n bs) / 2 ≡ word_of n bs
    half true = omega arith
    half false = omega arith

pub length-words_of : (k i : ℕ) (bs : List Bool) → length (words_of k i bs) ≡ k
unfolding words_of
length-words_of zero i bs = refl
length-words_of (suc k) i bs = ap suc (length-words_of k (i + 1) bs)

pub words_of-IsU64 : (k i : ℕ) (bs : List Bool) → All IsU64 (words_of k i bs)
unfolding words_of
words_of-IsU64 zero i bs = tt
words_of-IsU64 (suc k) i bs = (word_of-lt 64 (drop (i * 64) bs), words_of-IsU64 k (i + 1) bs)

get_or-words_of :
    (k i j : ℕ) (bs : List Bool)
    → j < k
    → get_or (words_of k i bs) j 0 ≡ word_of 64 (drop ((i + j) * 64) bs)
unfolding words_of
get_or-words_of zero i j bs lt = absurd (omega arith)
get_or-words_of (suc k) i zero bs lt = rw add-zero refl
get_or-words_of (suc k) i (suc j) bs lt =
    let next : i + suc j ≡ i + 1 + j = omega arith in
    rw next (get_or-words_of k (i + 1) j bs (omega arith))

pub words_of-test :
    (bs : List Bool) (i k : ℕ)
    → k < 64
    → i * 64 + k < length bs
    → get_or (words_of ((length bs + 63) / 64) 0 bs) i 0 / 2 ^ k % 2
      ≡ (if get_or bs (i * 64 + k) false then 1 else 0)
words_of-test bs i k lt inside =
    rw
      (
        get_or-words_of ((length bs + 63) / 64) 0 i bs (omega arith),
        zero-add i,
        ← get_or-drop (i * 64) k bs false,
      )
      (word_of-get_or 64 k (drop (i * 64) bs) lt)

instance abbrev pub list_bits : Bitset (List Bool)
list_bits = record {
  new_bits = λ n. replicate n false;
  bit_count = length;
  test = λ b i. get_or b i false;
  set_bit = λ b i. set b i true;
  bit_count-new_bits = λ n. length-replicate n false;
  test-new_bits = λ n i lt. get_or-replicate n false i;
  bit_count-set_bit = λ b i lt. length-set b i true;
  test-set_bit = λ b i j lt lt'. set-get_or b i j lt;
  to_blocks = λ b. words_of ((length b + 63) / 64) 0 b;
  length-to_blocks = λ b. length-words_of ((length b + 63) / 64) 0 b;
  to_blocks-IsU64 = λ b. words_of-IsU64 ((length b + 63) / 64) 0 b;
  to_blocks-test = words_of-test;
}
