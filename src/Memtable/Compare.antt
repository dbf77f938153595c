-- ===== src/Memtable/Compare.antt =====
-- `KVStore::compare` of two keys. The `int` that it returns is read by its sign: `lt` is a negative one,
-- `gt` a positive one.
use Prim.Native.Nat.{compare as compare_bytes, Ordering}
use native.Mathlib.Decide.{dec_lt}
use cs.Base.{
  ℕ, suc, ◌<◌, ◌≡◌, ◌↔◌, ◌⊎◌, inl, inr, refl, ap, min, List, [], ◌∷◌, length, take, ltb, ◌==◌,
  if◌then◌else◌, arith,
}

-- `std::memcmp`, on two ranges of the same length
pub memcmp : List ℕ → List ℕ → Ordering
memcmp [] bs = Ordering.eq
memcmp (a ∷ as') [] = Ordering.eq
memcmp (a ∷ as') (b ∷ bs) =
    let rest = memcmp as' bs in
    elim (compare_bytes a b) [
      | Ordering.lt ↦ Ordering.lt
      | Ordering.eq ↦ rest
      | Ordering.gt ↦ Ordering.gt
    ]

unfoldable pub compare : List ℕ → List ℕ → Ordering
unfolding memcmp
compare key_a key_b =
    let size = min (length key_a) (length key_b) in
    elim (memcmp (take size key_a) (take size key_b)) [
      | Ordering.lt ↦ Ordering.lt
      | Ordering.gt ↦ Ordering.gt
      | Ordering.eq ↦
          if length key_a == length key_b
          then Ordering.eq
          else if ltb (length key_a) (length key_b)
          then Ordering.lt
          else Ordering.gt
    ]

-- The order of a dictionary.
pub IsBelow : List ℕ → List ℕ → Type 0
IsBelow [] [] = ⊥
IsBelow [] (b ∷ bs) = Unit
IsBelow (a ∷ as') [] = ⊥
IsBelow (a ∷ as') (b ∷ bs) = (a < b) ⊎ ((a ≡ b) × IsBelow as' bs)

-- What a sign says of two keys.
abbrev Says : List ℕ → List ℕ → Ordering → Type 0
Says a b Ordering.lt = IsBelow a b
Says a b Ordering.eq = a ≡ b
Says a b Ordering.gt = IsBelow b a

-- One byte of each key decides, or the rest does.
compare-step :
    (x y : ℕ) (a b : List ℕ)
    → compare (x ∷ a) (y ∷ b) ≡ elim (compare_bytes x y) [
      | Ordering.lt ↦ Ordering.lt
      | Ordering.eq ↦ compare a b
      | Ordering.gt ↦ Ordering.gt
    ]
unfolding compare memcmp
compare-step x y a b =
    let size : min (suc (length a)) (suc (length b)) ≡ suc (min (length a) (length b)) =
      omega arith in
    rw (compare, size) (ground arith)

behind_both : (x : ℕ) (a b : List ℕ) (sign : Ordering) → Says a b sign → Says (x ∷ a) (x ∷ b) sign
unfolding IsBelow
behind_both x a b Ordering.lt below = inr (refl, below)
behind_both x a b Ordering.eq same = ap (λ t. x ∷ t) same
behind_both x a b Ordering.gt below = inr (refl, below)

compare-Says : (a b : List ℕ) → Says a b (compare a b)
compare-Says [] [] = unfold compare memcmp in refl
compare-Says [] (b ∷ bs) =
    let longer : compare [] (b ∷ bs) ≡ Ordering.lt = unfold compare memcmp in ground arith in
    rw longer (unfold IsBelow in tt)
compare-Says (a ∷ as') [] =
    let longer : compare (a ∷ as') [] ≡ Ordering.gt = unfold compare memcmp in ground arith in
    rw longer (unfold IsBelow in tt)
compare-Says (a ∷ as') (b ∷ bs) = elim (dec_lt a b) [
  | yes less ↦
      let e : compare_bytes a b ≡ Ordering.lt = ground arith in
      rw (compare-step, e) (unfold IsBelow in inl less)
  | no low ↦ elim (dec_lt b a) [
    | yes more ↦
        let e : compare_bytes a b ≡ Ordering.gt = ground arith in
        rw (compare-step, e) (unfold IsBelow in inl more)
    | no high ↦
        let same : a ≡ b = omega arith in
        let e : compare_bytes b b ≡ Ordering.eq = ground arith in
        rw (same, compare-step, e) (behind_both b as' bs (compare as' bs) (compare-Says as' bs))
  ]
]

IsBelow-irrefl : (a : List ℕ) → ¬ IsBelow a a
unfolding IsBelow
IsBelow-irrefl [] below = below
IsBelow-irrefl (a ∷ as') (inl less) = omega arith
IsBelow-irrefl (a ∷ as') (inr (_, below)) = IsBelow-irrefl as' below

IsBelow-asym : (a b : List ℕ) → IsBelow a b → ¬ IsBelow b a
unfolding IsBelow
IsBelow-asym [] [] below above = below
IsBelow-asym [] (b ∷ bs) below above = above
IsBelow-asym (a ∷ as') [] below above = below
IsBelow-asym (a ∷ as') (b ∷ bs) (inl less) (inl more) = omega arith
IsBelow-asym (a ∷ as') (b ∷ bs) (inl less) (inr (same, _)) = omega arith
IsBelow-asym (a ∷ as') (b ∷ bs) (inr (same, _)) (inl more) = omega arith
IsBelow-asym (a ∷ as') (b ∷ bs) (inr (_, below)) (inr (_, above)) = IsBelow-asym as' bs below above

sign_known :
    (a b : List ℕ) (sign : Ordering)
    → Says a b sign
    → ((sign ≡ Ordering.lt) ↔ IsBelow a b)
      × ((sign ≡ Ordering.eq) ↔ (a ≡ b))
      × ((sign ≡ Ordering.gt) ↔ IsBelow b a)
sign_known a b Ordering.lt below = (
  (λ _. below, λ _. refl),
  (λ e. absurd cc, λ same. absurd (IsBelow-irrefl b (rw same at below))),
  (λ e. absurd cc, λ above. absurd (IsBelow-asym a b below above)),
)
sign_known a b Ordering.eq same = (
  (λ e. absurd cc, λ below. absurd (IsBelow-irrefl b (rw same at below))),
  (λ _. same, λ _. refl),
  (λ e. absurd cc, λ above. absurd (IsBelow-irrefl b (rw same at above))),
)
sign_known a b Ordering.gt above = (
  (λ e. absurd cc, λ below. absurd (IsBelow-asym a b below above)),
  (λ e. absurd cc, λ same. absurd (IsBelow-irrefl b (rw same at above))),
  (λ _. above, λ _. refl),
)

-- The sign that `compare` returns for two keys tells their place in the order of a dictionary: negative
-- exactly for a key before the other, zero exactly for equal keys, positive exactly for a key behind
-- the other.
pub compare-IsBelow :
    (a b : List ℕ)
    → ((compare a b ≡ Ordering.lt) ↔ IsBelow a b)
      × ((compare a b ≡ Ordering.eq) ↔ (a ≡ b))
      × ((compare a b ≡ Ordering.gt) ↔ IsBelow b a)
compare-IsBelow a b = sign_known a b (compare a b) (compare-Says a b)
