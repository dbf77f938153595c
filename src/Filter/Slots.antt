-- ===== src/Filter/Slots.antt =====
-- The loops of filter.cpp over the slots of one bucket. A slot that holds 0 is free.
pub mod Tally
use native.Mathlib.Decide.{dec_lt}
use cs.Base.{
  ℕ, zero, suc, ◌+◌, ◌*◌, ◌≤◌, ◌<◌, ◌≡◌, ◌≢◌, refl, ◌⊎◌, inl, inr, Option, none, some, List, length,
  get_or, ◌==◌, if◌then◌else◌, arith, ==→eq, ==→ne, Bool-cases,
}
use cs.Filter.Run.{Run, ok, ◌>>=◌, read, read_ok, write}

-- for (j = 0; j < n; ++j) if (buckets[base + j] == v) ...: the first such position from `pos` on.
unfoldable pub find_slot : ℕ → ℕ → ℕ → List ℕ → Run (Option ℕ)
find_slot v zero pos bytes = ok none
find_slot v (suc n) pos bytes = do
  x ← read bytes pos
  if x == v then ok (some pos) else find_slot v n (pos + 1) bytes

-- No slot of the `n` from `pos` on holds `v`.
abbrev pub Absent : ℕ → ℕ → ℕ → List ℕ → Type 0
Absent v n pos bytes = (p : ℕ) → pos ≤ p → p < pos + n → get_or bytes p 0 ≢ v

-- The position `p` is one of those, and holds `v`.
pub record IsAt (v n pos p : ℕ) (bytes : List ℕ) : Type 0 where
  pub from : pos ≤ p
  pub below : p < pos + n
  pub holds : get_or bytes p 0 ≡ v

Absent-suc :
    (v n pos : ℕ) (bytes : List ℕ)
    → get_or bytes pos 0 ≢ v
    → Absent v n (pos + 1) bytes
    → Absent v (suc n) pos bytes
Absent-suc v n pos bytes first rest p from below e = elim (dec_lt pos p) [
  | yes after ↦ rest p (omega arith) (omega arith) e
  | no before ↦ let same : p ≡ pos = omega arith in first (rw same at e)
]

-- Inside the array the loop does not fault; it finds a slot with `v`, or there is none.
pub find_slot-cases :
    (v n pos : ℕ) (bytes : List ℕ)
    → pos + n ≤ length bytes
    → ((find_slot v n pos bytes ≡ ok none) × Absent v n pos bytes)
      ⊎ ((p : ℕ) × (find_slot v n pos bytes ≡ ok (some p)) × IsAt v n pos p bytes)
unfolding find_slot
find_slot-cases v zero pos bytes h = inl (refl, λ p a b. absurd (omega arith))
find_slot-cases v (suc n) pos bytes h = elim (Bool-cases (get_or bytes pos 0 == v)) [
  | inl here ↦ inr (
    pos,
    rw (read_ok bytes pos (omega arith), ◌>>=◌, here),
    record { from = omega arith; below = omega arith; holds = ==→eq _ _ here },
  )
  | inr other ↦ elim (find_slot-cases v n (pos + 1) bytes (omega arith)) [
    | inl (run, absent) ↦ inl (
      rw (read_ok bytes pos (omega arith), ◌>>=◌, other) run,
      Absent-suc v n pos bytes (==→ne _ _ other) absent,
    )
    | inr (p, run, at') ↦ inr (
      p,
      rw (read_ok bytes pos (omega arith), ◌>>=◌, other) run,
      record { from = omega arith; below = omega arith; holds = at'.holds },
    )
  ]
]
