-- ===== src/SpinMutex.antt =====
-- mousedb/src/spin_mutex.hpp: `SpinMutex`, and the threads that use it. The atomic operations of
-- `std::atomic_flag` take one step each; threads are numbers.
pub mod Exclusion
pub mod Progress
mod Examples
use cs.Base.{ℕ, ◌≡◌, ◌==◌, Bool, true, false, not, if◌then◌else◌}

-- What the flag was, and what it is afterwards.
abbrev pub test_and_set : Bool → Bool × Bool
test_and_set flag = (flag, true)

-- One round of the loop of `lock`: whether it ends, and the flag.
unfoldable pub lock_round : Bool → Bool × Bool
lock_round flag = (not (test_and_set flag).0, (test_and_set flag).1)

unfoldable pub try_lock : Bool → Bool × Bool
try_lock flag = (not (test_and_set flag).0, (test_and_set flag).1)

unfoldable pub unlock : Bool → Bool
unlock flag = false

-- A thread outside the calls, in the loop of `lock`, or between a `lock` or `try_lock` that
-- succeeded and its `unlock`.
pub data Phase : Type 0 where
  idle spinning holding : Phase

pub record System : Type 0 where
  pub flag : Bool
  pub phase : ℕ → Phase

abbrev pub put : ℕ → Phase → (ℕ → Phase) → ℕ → Phase
put i p phase j = if j == i then p else phase j

-- A thread unlocks only what it holds.
pub data Step (s : System) : System → Type 0 where
  call_lock : (i : ℕ) → s.phase i ≡ idle → Step s (record s { phase = put i spinning s.phase })
  spin :
      (i : ℕ)
      → s.phase i ≡ spinning
      → Step s (record {
        flag = (lock_round s.flag).1;
        phase = put i (if (lock_round s.flag).0 then holding else spinning) s.phase;
      })
  call_try_lock :
      (i : ℕ)
      → s.phase i ≡ idle
      → Step s (record {
        flag = (try_lock s.flag).1;
        phase = put i (if (try_lock s.flag).0 then holding else idle) s.phase;
      })
  call_unlock :
      (i : ℕ)
      → s.phase i ≡ holding
      → Step s (record { flag = unlock s.flag; phase = put i idle s.phase })

-- `ATOMIC_FLAG_INIT`, with no thread in a call.
abbrev pub fresh : System
fresh = record { flag = false; phase = λ i. idle }

pub data Reach : System → Type 0 where
  start : Reach fresh
  later : {s s' : System} → Reach s → Step s s' → Reach s'
