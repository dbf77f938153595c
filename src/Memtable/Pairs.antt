-- ===== src/Memtable/Pairs.antt =====
-- What a table of strings promises: the pairs in the order of their inserts, and under a key all its
-- values in that order.
use cs.Base.{ℕ, Bool, true, false, ◌&&◌, ◌≡◌, refl, List, [], ◌∷◌, ◌++◌, ◌==◌, if◌then◌else◌, arith}

abbrev pub Pair : Type 0
Pair = List ℕ × List ℕ

pub same_bytes : List ℕ → List ℕ → Bool
same_bytes [] [] = true
same_bytes [] (b ∷ bs) = false
same_bytes (a ∷ as') [] = false
same_bytes (a ∷ as') (b ∷ bs) = let rest = same_bytes as' bs in a == b && rest

unfoldable pub values_of : List ℕ → List Pair → List (List ℕ)
unfolding same_bytes
values_of key [] = []
values_of key ((k, v) ∷ pairs) =
    let values = values_of key pairs in if same_bytes key k then v ∷ values else values

pub same_bytes_refl : (a : List ℕ) → same_bytes a a ≡ true
unfolding same_bytes
same_bytes_refl [] = refl
same_bytes_refl (a ∷ as') = ground (arith, same_bytes_refl as')

pub same_bytes→eq : (a b : List ℕ) → same_bytes a b ≡ true → a ≡ b
unfolding same_bytes
same_bytes→eq [] [] h = refl
same_bytes→eq [] (b ∷ bs) h = absurd cc
same_bytes→eq (a ∷ as') [] h = absurd cc
same_bytes→eq (a ∷ as') (b ∷ bs) h =
    let head : a ≡ b = ground arith in let tail = same_bytes→eq as' bs (ground arith) in cc

pub values_of-append :
    (key : List ℕ) (ps qs : List Pair)
    → values_of key (ps ++ qs) ≡ values_of key ps ++ values_of key qs
unfolding values_of
values_of-append key [] qs = refl
values_of-append key ((k, v) ∷ ps) qs = ground (arith, values_of-append key ps qs)

pub values_of-none : (key : List ℕ) → values_of key [] ≡ []
unfolding values_of
values_of-none key = refl

pub values_of-one :
    (key k v : List ℕ) → values_of key ((k, v) ∷ []) ≡ (if same_bytes key k then v ∷ [] else [])
unfolding values_of
values_of-one key k v = refl
