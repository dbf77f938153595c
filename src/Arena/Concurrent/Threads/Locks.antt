-- ===== src/Arena/Concurrent/Threads/Locks.antt =====
-- A mutex of the arena or of a shard, with the threads that own it.
use native.Mathlib.Decide.{ℕ_discrete}
use mathlib.Core.Bool.{true≢false}
use cs.Base.{ℕ, ◌≡◌, ◌≢◌, ◌⊎◌, inl, inr, refl, sym, ap, ◌∙◌, Bool, true, false, arith, eq→==, ne→==}
use cs.Arena.Concurrent.Threads.{put}

pub record Exclusive (owns : ℕ → Bool) (flag : Bool) : Type 0 where
  pub unique : (i j : ℕ) → owns i ≡ true → owns j ≡ true → i ≡ j
  pub held : (i : ℕ) → owns i ≡ true → flag ≡ true
  pub owner : flag ≡ true → (i : ℕ) × (owns i ≡ true)

-- What a step of a thread does to a mutex: nothing, taking it, or giving it up. `flag` and `own` are its
-- flag and whether the thread owns it.
abbrev pub Handover : Bool → Bool → Bool → Bool → Type 0
Handover flag own flag' own' =
    ((flag' ≡ flag) × (own' ≡ own))
    ⊎ ((flag ≡ false) × (flag' ≡ true) × (own' ≡ true))
    ⊎ ((own ≡ true) × (flag' ≡ false) × (own' ≡ false))

module _ {ℓ} {A : Type ℓ} (i : ℕ) (a : A) (f : ℕ → A) where
  pub put-cases : (j : ℕ) → ((j ≡ i) × (put i a f j ≡ a)) ⊎ ((j ≢ i) × (put i a f j ≡ f j))
  put-cases j = elim (ℕ_discrete j i) [
    | yes e ↦ inl (e, rw (eq→== j i e) refl)
    | no n ↦ inr (n, rw (ne→== j i n) refl)
  ]

module _ {A : Type 0} (own : A → Bool) (pc : ℕ → A) (i : ℕ) (p : A) (flag flag' : Bool)
    (ex : Exclusive (λ j. own (pc j)) flag) (h : Handover flag (own (pc i)) flag' (own p)) where
  cases : (j : ℕ) → ((j ≡ i) × (put i p pc j ≡ p)) ⊎ ((j ≢ i) × (put i p pc j ≡ pc j))
  cases = put-cases i p pc

  pub Exclusive-step : Exclusive (λ j. own (put i p pc j)) flag'
  Exclusive-step = record {
    unique = λ j k hj hk. ground (
      arith,
      cases j,
      cases k,
      ex.unique j k,
      ex.unique j i,
      ex.unique k i,
      ex.held j,
      ex.held k,
      h,
    );
    held = λ j hj. ground (arith, cases j, ex.held j, ex.unique j i, h);
    owner = λ e. elim h [
      | inl (same, kept) ↦
          let (j, hj) = ex.owner (sym same ∙ e) in
          (
            j,
            elim (cases j) [
              | inl (here, now) ↦ ap own now ∙ kept ∙ ap (λ k. own (pc k)) (sym here) ∙ hj
              | inr (other, now) ↦ ap own now ∙ hj
            ],
          )
      | inr (inl (free, taken, mine)) ↦ (i, rw (eq→== i i refl) mine)
      | inr (inr (mine, freed, gone)) ↦ absurd (true≢false (sym e ∙ freed))
    ];
  }
