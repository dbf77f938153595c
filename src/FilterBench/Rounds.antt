-- ===== src/FilterBench/Rounds.antt =====
-- The loops of the benchmarks over any filter whose calls return.
use native.Mathlib.Nat.{mod-lt}
use cs.Base.{
  ℕ, zero, suc, ◌+◌, ◌*◌, ◌%◌, ◌∙◌, ◌++◌, length-append, ◌≡◌, ◌<◌, refl, ap, Bool, true, List, [],
  ◌∷◌, length, replicate, All, arith,
}
use cs.Filter.Run.{Run, ok, ◌>>=◌, modulo_ok, Returns}
use cs.FilterBench.{
  make_random_strings, key_at, insert_keys, contains_rounds, erase_rounds, insert_rounds,
}

pub length-make_random_strings :
    {Item S : Type 0} (next : S → Item × S) (n : ℕ) (rng : S)
    → length (make_random_strings next n rng) ≡ n
unfolding make_random_strings
length-make_random_strings next zero rng = refl
length-make_random_strings next (suc n) rng =
    ap suc (length-make_random_strings next n (next rng).1)

key_at-All {κ} :
    {Item : Type 0} (P : Item → Type κ) (keys : List Item) (idx : ℕ)
    → idx < length keys
    → All P keys
    → (key : Item) × (key_at keys idx ≡ ok key) × P key
unfolding key_at
key_at-All P [] idx lt all = absurd (omega arith)
key_at-All P (key ∷ keys) zero lt all = (key, refl, all.0)
key_at-All P (key ∷ keys) (suc idx) lt all = key_at-All P keys idx (omega arith) all.1

pub All-any {κ} :
    {Item : Type 0} (P : Item → Type κ) (keys : List Item) → ((key : Item) → P key) → All P keys
All-any P [] h = tt
All-any P (key ∷ keys) h = (h key, All-any P keys h)

module _ {Item : Type 0} (keys : List Item) (batch : ℕ) (full : length keys ≡ batch)
    (pos : 0 < batch) where
  -- Every key is found in every iteration.
  pub contains_rounds-replicate :
      (contains : Item → Run Bool)
      → All (λ key. contains key ≡ ok true) keys
      → (n idx : ℕ) → idx < batch
      → contains_rounds contains keys batch n idx ≡ ok (replicate n true)
  unfolding contains_rounds
  contains_rounds-replicate contains found zero idx lt = refl
  contains_rounds-replicate contains found (suc n) idx lt =
      let (key, there, hit) = key_at-All _ keys idx (rw full lt) found in
      let rest =
        contains_rounds-replicate contains found n ((idx + 1) % batch) (mod-lt (idx + 1) pos) in
      rw (there, ◌>>=◌, hit, modulo_ok (idx + 1) batch pos, rest) refl

  pub contains_rounds-Returns :
      (contains : Item → Run Bool)
      → ((key : Item) → Returns (contains key) (λ _. Unit {0}))
      → (n idx : ℕ) → idx < batch
      → Returns (contains_rounds contains keys batch n idx) λ r. length r ≡ n
  unfolding contains_rounds
  contains_rounds-Returns contains total zero idx lt = ([], refl, refl)
  contains_rounds-Returns contains total (suc n) idx lt =
      let (key, there, (found, run, _)) =
        key_at-All _ keys idx (rw full lt) (All-any _ keys total) in
      let (rest, ran, count) =
        contains_rounds-Returns contains total n ((idx + 1) % batch) (mod-lt (idx + 1) pos) in
      (found ∷ rest, rw (there, ◌>>=◌, run, modulo_ok (idx + 1) batch pos, ran) refl, ap suc count)

  module _ {F : Type 0} (P : F → Type 0) where
    abbrev Keeps : (F → Item → Run (Bool × F)) → Type 0
    Keeps call = (f : F) (key : Item) → P f → Returns (call f key) λ r. P r.1

    pub erase_rounds-Returns :
        (erase insert : F → Item → Run (Bool × F))
        → Keeps erase
        → Keeps insert
        → (n idx : ℕ) (f : F) → idx < batch
        → P f
        → Returns (erase_rounds erase insert keys batch n idx f) λ r. length r ≡ n
    unfolding erase_rounds
    erase_rounds-Returns erase insert erases inserts zero idx f lt h = ([], refl, refl)
    erase_rounds-Returns erase insert erases inserts (suc n) idx f lt h =
        let (key, there, any) =
          key_at-All (λ _. Unit {0}) keys idx (rw full lt) (All-any _ keys (λ _. tt)) in
        let ((found, f₁), gone, h₁) = erases f key h in
        let ((done, f₂), back, h₂) = inserts f₁ key h₁ in
        let (rest, ran, count) =
          erase_rounds-Returns erase insert erases inserts n ((idx + 1) % batch) f₂
            (mod-lt (idx + 1) pos) h₂ in
        (
          found ∷ rest,
          rw (there, ◌>>=◌, gone, back, modulo_ok (idx + 1) batch pos, ran) refl,
          ap suc count,
        )

module _ {Item F : Type 0} (P : F → Type 0) (insert : F → Item → Run (Bool × F))
    (inserts : (f : F) (key : Item) → P f → Returns (insert f key) λ r. P r.1) where
  pub insert_keys-Returns :
      (f : F) (keys : List Item)
      → P f
      → Returns (insert_keys insert f keys) λ r. P r.1 × (length r.0 ≡ length keys)
  unfolding insert_keys
  insert_keys-Returns f [] h = (([], f), refl, (h, refl))
  insert_keys-Returns f (key ∷ keys) h =
      let ((done, f'), run, h') = inserts f key h in
      let ((results, f''), ran, (h'', count)) = insert_keys-Returns f' keys h' in
      ((done ∷ results, f''), rw (run, ◌>>=◌, ran) refl, (h'', ap suc count))

  pub insert_rounds-Returns :
      (make : ℕ → Run F) (keys : List Item)
      → ((i : ℕ) → Returns (make i) P)
      → (n : ℕ) → Returns (insert_rounds make insert keys n) λ r. length r ≡ n * length keys
  unfolding insert_rounds
  insert_rounds-Returns make keys makes zero = ([], refl, omega arith)
  insert_rounds-Returns make keys makes (suc n) =
      let (f, made, h) = makes n in
      let ((results, f'), run, (h', count)) = insert_keys-Returns f keys h in
      let (rest, ran, more) = insert_rounds-Returns make keys makes n in
      (
        results ++ rest,
        rw (made, ◌>>=◌, run, ran) refl,
        length-append results rest ∙ rw (count, more) (grind arith),
      )
