-- ===== src/SpinMutex/Progress.antt =====
-- A thread in the loop of `lock` can always get the mutex: what it waits for is one `unlock`.
use cs.Base.{ℕ, ◌≡◌, ◌≢◌, refl, sym, ap, ◌∙◌, false, Bool-cases, eq→==, ne→==, inl, inr}
use cs.SpinMutex.{
  idle, spinning, holding, System, put, Step, spin, call_unlock, Reach, lock_round, unlock,
}
use cs.SpinMutex.Exclusion.{Reach-held, spinning-ne_holding}

-- Any number of steps.
pub data Steps (s : System) : System → Type 0 where
  none_more : Steps s s
  one_more : {s' s'' : System} → Steps s s' → Step s' s'' → Steps s s''

-- While the flag is clear, the next round of the loop ends it.
spin_clear :
    (s : System) (i : ℕ)
    → s.flag ≡ false
    → s.phase i ≡ spinning
    → (s' : System) × Step s s' × (s'.phase i ≡ holding)
unfolding lock_round
spin_clear s i clear e = (_, spin i e, rw (clear, eq→== i i refl) refl)

-- In every state that the threads reach, for every thread in the loop of `lock` there is a sequence of
-- steps after which it holds the mutex.
pub Reach-acquires :
    (s : System) (i : ℕ)
    → Reach s
    → s.phase i ≡ spinning
    → (s' : System) × Steps s s' × (s'.phase i ≡ holding)
unfolding unlock
Reach-acquires s i r e = elim (Bool-cases s.flag) [
  | inr clear ↦ let (s', step, held) = spin_clear s i clear e in (s', one_more none_more step, held)
  | inl taken ↦
      let (j, holds) = Reach-held s r taken in
      let other : i ≢ j = λ same. spinning-ne_holding (sym e ∙ (ap s.phase same ∙ holds)) in
      let freed : System = record { flag = false; phase = put j idle s.phase } in
      let waits : freed.phase i ≡ spinning = rw (ne→== i j other) e in
      let (s', step, held) = spin_clear freed i refl waits in
      (s', one_more (one_more none_more (call_unlock j holds)) step, held)
]
