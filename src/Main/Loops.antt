-- ===== src/Main/Loops.antt =====
-- The loops of main.cpp, each with an invariant: a call that keeps it in every round keeps it over
-- the loop.
use native.Mathlib.Nat.{zero-add}
use cs.Base.{
  ℕ, zero, suc, ◌+◌, ◌≡◌, ◌≤◌, refl, ap, ◌∙◌, Bool, true, false, List, [], ◌∷◌, All, if◌then◌else◌,
  arith,
}
use cs.Filter.Run.{Run, ok, ◌>>=◌, Returns}
use cs.Main.{fill, fill_counting, count_found}

module _ {Item S : Type 0} (next : S → Item × S) where
  -- The items that `n` rounds draw, and the generator afterwards.
  unfoldable pub drawn : ℕ → S → List Item
  drawn zero s = []
  drawn (suc n) s = (next s).0 ∷ drawn n (next s).1

  unfoldable pub later : ℕ → S → S
  later zero s = s
  later (suc n) s = later n (next s).1

  pub fill_counting-keeps :
      {F : Type 0} (put : F → Item → Run (Bool × F)) (P : ℕ → ℕ → F → Type 0)
      → ((i fail : ℕ) (f : F) (item : Item)
          → P i fail f
          → Returns (put f item) λ r. P (suc i) (if r.0 then fail else fail + 1) r.1)
      → (n i fail : ℕ) (f : F) (s : S) → P i fail f
      → Returns (fill_counting next put n f s fail) λ r. P (n + i) r.0 r.1 × (r.2 ≡ later n s)
  unfolding fill_counting later
  fill_counting-keeps put P keep zero i fail f s h = ((fail, f, s), refl, (rw zero-add h, refl))
  fill_counting-keeps put P keep (suc n) i fail f s h =
      let ((done, f'), run, h') = keep i fail f (next s).0 h in
      let (r, ran, (h'', last)) =
        fill_counting-keeps put P keep n (suc i) (if done then fail else fail + 1) f' (next s).1
          h' in
      let moved : n + suc i ≡ suc n + i = omega arith in
      (r, rw (run, ◌>>=◌) ran, (rw moved at h'', last))

  pub fill-keeps :
      {F : Type 0} (put : F → Item → Run F) (P : F → Type 0)
      → ((f : F) (item : Item) → P f → Returns (put f item) P)
      → (n : ℕ) (f : F) (s : S) → P f
      → Returns (fill next put n f s) λ r. P r.0 × (r.1 ≡ later n s)
  unfolding fill later
  fill-keeps put P keep zero f s h = ((f, s), refl, (h, refl))
  fill-keeps put P keep (suc n) f s h =
      let (f', run, h') = keep f (next s).0 h in
      let (r, ran, rest) = fill-keeps put P keep n f' (next s).1 h' in
      (r, rw (run, ◌>>=◌) ran, rest)

  -- The number of items that a test finds.
  unfoldable pub hits : (Item → Bool) → List Item → ℕ
  hits answer [] = 0
  hits answer (item ∷ items) = (if answer item then 1 else 0) + hits answer items

  pub hits-le : (answer : Item → Bool) (n : ℕ) (s : S) → hits answer (drawn n s) ≤ n
  unfolding hits drawn
  hits-le answer zero s = omega arith
  hits-le answer (suc n) s = ground (arith, hits-le answer n (next s).1)

  pub count_found-hits :
      (test : Item → Run Bool) (answer : Item → Bool)
      → ((item : Item) → test item ≡ ok (answer item))
      → (n : ℕ) (s : S) (fp : ℕ)
      → count_found next test n s fp ≡ ok (fp + hits answer (drawn n s), later n s)
  unfolding count_found later hits drawn
  count_found-hits test answer same zero s fp =
      let e : fp ≡ fp + 0 = omega arith in ap (λ (x : ℕ). ok (x, s)) e
  count_found-hits test answer same (suc n) s fp =
      let item = (next s).0 in
      let fp' = if answer item then fp + 1 else fp in
      let rest = hits answer (drawn n (next s).1) in
      let e : fp' + rest ≡ fp + ((if answer item then 1 else 0) + rest) =
        elim (answer item)
          as (λ b. (if b then fp + 1 else fp) + rest ≡ fp + ((if b then 1 else 0) + rest)) [
            | true ↦ omega arith
            | false ↦ omega arith
          ] in
      rw (same item, ◌>>=◌)
        (count_found-hits test answer same n (next s).1 fp'
          ∙ ap (λ (x : ℕ). ok (x, later n (next s).1)) e)

  -- Every item that was drawn is found.
  pub hits-all :
      (answer : Item → Bool) (n : ℕ) (s : S)
      → All (λ item. answer item ≡ true) (drawn n s)
      → hits answer (drawn n s) ≡ n
  unfolding hits drawn
  hits-all answer zero s h = refl
  hits-all answer (suc n) s (found, rest) = ground (arith, hits-all answer n (next s).1 rest)
