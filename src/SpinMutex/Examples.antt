-- ===== src/SpinMutex/Examples.antt =====
-- Two threads at one mutex.
use cs.Base.{ℕ, ◌≡◌, ◌≢◌, refl, ◌↔◌, true}
use cs.SpinMutex.{
  idle, spinning, holding, System, put, call_lock, spin, call_try_lock, Reach, start, later,
  lock_round, try_lock,
}
use cs.SpinMutex.Progress.{Steps, Reach-acquires}
use cs.SpinMutex.Exclusion.{Reach-exclusive, Reach-succeeds}

-- Thread 1 has locked, and the `try_lock` of thread 2 has failed.
abbrev busy : System
busy = record { flag = true; phase = put 2 idle (put 1 holding (put 1 spinning (λ i. idle))) }

busy-Reach : Reach busy
unfolding lock_round try_lock
busy-Reach = later (later (later start (call_lock 1 refl)) (spin 1 refl)) (call_try_lock 2 refl)

abbrev holder : ℕ
holder = 1

Reach-exclusive_example : holder ≡ holder
Reach-exclusive_example = Reach-exclusive busy holder holder busy-Reach refl refl

Reach-succeeds_example :
    (((lock_round busy.flag).0 ≡ true) ↔ ((i : ℕ) → busy.phase i ≢ holding))
    × (((try_lock busy.flag).0 ≡ true) ↔ ((i : ℕ) → busy.phase i ≢ holding))
Reach-succeeds_example = Reach-succeeds busy busy-Reach

-- Thread 1 has locked, and thread 2 is in the loop.
abbrev contended : System
contended = record {
  flag = true;
  phase = put 2 spinning (put 1 holding (put 1 spinning (λ i. idle)));
}

contended-Reach : Reach contended
unfolding lock_round
contended-Reach = later (later (later start (call_lock 1 refl)) (spin 1 refl)) (call_lock 2 refl)

Reach-acquires_example : (s : System) × Steps contended s × (s.phase 2 ≡ holding)
Reach-acquires_example = Reach-acquires contended 2 contended-Reach refl
