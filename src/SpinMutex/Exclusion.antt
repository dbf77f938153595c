-- ===== src/SpinMutex/Exclusion.antt =====
-- At most one thread holds the mutex, and the flag says whether one does.
use native.Mathlib.Decide.{ℕ_discrete}
use mathlib.Core.Bool.{true≢false}
use cs.Base.{
  ℕ, ◌≡◌, ◌≢◌, refl, sym, ap, ◌∙◌, ◌↔◌, Bool, true, false, not, if◌then◌else◌, arith, Bool-cases,
  eq→==, ne→==, ◌⊎◌, inl, inr,
}
use cs.SpinMutex.{
  Phase, idle, spinning, holding, System, put, Step, call_lock, spin, call_try_lock, call_unlock,
  Reach, start, later, lock_round, try_lock, unlock,
}

put-cases :
    (i j : ℕ) (p : Phase) (phase : ℕ → Phase)
    → ((j ≡ i) × (put i p phase j ≡ p)) ⊎ ((j ≢ i) × (put i p phase j ≡ phase j))
put-cases i j p phase = elim (ℕ_discrete j i) [
  | yes e ↦ inl (e, rw (eq→== j i e) refl)
  | no n ↦ inr (n, rw (ne→== j i n) refl)
]

record Inv (flag : Bool) (phase : ℕ → Phase) : Type 0 where
  free : flag ≡ false → (i : ℕ) → phase i ≢ holding
  unique : (i j : ℕ) → phase i ≡ holding → phase j ≡ holding → i ≡ j
  held : flag ≡ true → (i : ℕ) × (phase i ≡ holding)

module _ (flag : Bool) (phase : ℕ → Phase) (inv : Inv flag phase) (i : ℕ) where
  -- A thread that held nothing and holds nothing.
  stays : (p : Phase) → phase i ≢ holding → p ≢ holding → Inv flag (put i p phase)
  stays p before after = record {
    free = λ e j h. ground (arith, put-cases i j p phase, inv.free e j);
    unique =
        λ j k hj hk. ground (arith, put-cases i j p phase, put-cases i k p phase, inv.unique j k);
    held = λ e.
        let (j, hj) = inv.held e in
        (
          j,
          elim (put-cases i j p phase) [
            | inl (same, now) ↦ absurd (before (ap phase (sym same) ∙ hj))
            | inr (other, now) ↦ now ∙ hj
          ],
        );
  }

  acquires : flag ≡ false → Inv true (put i holding phase)
  acquires e = record {
    free = λ e' j h. absurd (true≢false e');
    unique = λ j k hj hk. ground (
      arith,
      put-cases i j holding phase,
      put-cases i k holding phase,
      inv.free e j,
      inv.free e k,
    );
    held = λ e'. (i, rw (eq→== i i refl) refl);
  }

  releases : phase i ≡ holding → Inv false (put i idle phase)
  releases h = record {
    free = λ e j hj. ground (arith, put-cases i j idle phase, inv.unique j i);
    unique = λ j k hj hk.
        ground (arith, put-cases i j idle phase, put-cases i k idle phase, inv.unique j k);
    held = λ e. absurd (true≢false (sym e));
  }

  -- A round of `lock`, or a `try_lock`, of a thread that goes back to `p` if it fails.
  attempts :
      (p : Phase)
      → phase i ≢ holding
      → p ≢ holding
      → Inv true (put i (if not flag then holding else p) phase)
  attempts p before after = elim (Bool-cases flag) [
    | inl e ↦ rw e (rw e at (stays p before after))
    | inr e ↦ rw e (acquires e)
  ]

abbrev code : Phase → ℕ
code idle = 0
code spinning = 1
code holding = 2

idle-ne_holding : idle ≢ holding
idle-ne_holding e = absurd (omega (arith, ap code e))

pub spinning-ne_holding : spinning ≢ holding
spinning-ne_holding e = absurd (omega (arith, ap code e))

Step-Inv : {s s' : System} → Step s s' → Inv s.flag s.phase → Inv s'.flag s'.phase
unfolding lock_round try_lock unlock
Step-Inv {s} (call_lock i e) inv =
    stays s.flag s.phase inv i spinning (λ h. idle-ne_holding (sym e ∙ h)) spinning-ne_holding
Step-Inv {s} (spin i e) inv =
    attempts s.flag s.phase inv i spinning (λ h. spinning-ne_holding (sym e ∙ h))
      spinning-ne_holding
Step-Inv {s} (call_try_lock i e) inv =
    attempts s.flag s.phase inv i idle (λ h. idle-ne_holding (sym e ∙ h)) idle-ne_holding
Step-Inv {s} (call_unlock i e) inv = releases s.flag s.phase inv i e

Reach-Inv : {s : System} → Reach s → Inv s.flag s.phase
Reach-Inv start = record {
  free = λ e i. idle-ne_holding;
  unique = λ i j h. absurd (idle-ne_holding h);
  held = λ e. absurd (true≢false (sym e));
}
Reach-Inv (later r step) = Step-Inv step (Reach-Inv r)

-- In every state that threads reach by calls of `lock`, `try_lock` and `unlock` in any order of their
-- steps, where each unlocks only what it holds, at most one thread holds the mutex.
pub Reach-exclusive :
    (s : System) (i j : ℕ) → Reach s → s.phase i ≡ holding → s.phase j ≡ holding → i ≡ j
Reach-exclusive s i j r = (Reach-Inv r).unique i j

pub Reach-held : (s : System) → Reach s → s.flag ≡ true → (i : ℕ) × (s.phase i ≡ holding)
Reach-held s r = (Reach-Inv r).held

flag_free : (s : System) → Reach s → ((not s.flag ≡ true) ↔ ((i : ℕ) → s.phase i ≢ holding))
flag_free s r =
    let inv = Reach-Inv r in
    elim (Bool-cases s.flag) [
      | inl e ↦ (
        λ clear. absurd (true≢false (sym clear ∙ ap not e)),
        λ none_holds. let (i, h) = inv.held e in absurd (none_holds i h),
      )
      | inr e ↦ (λ clear. inv.free e, λ none_holds. ap not e)
    ]

-- In every such state a round of `lock` ends the loop exactly if no thread holds the mutex, and
-- `try_lock` answers `true` exactly then.
pub Reach-succeeds :
    (s : System)
    → Reach s
    → (((lock_round s.flag).0 ≡ true) ↔ ((i : ℕ) → s.phase i ≢ holding))
      × (((try_lock s.flag).0 ≡ true) ↔ ((i : ℕ) → s.phase i ≢ holding))
unfolding lock_round try_lock
Reach-succeeds s r = (flag_free s r, flag_free s r)
