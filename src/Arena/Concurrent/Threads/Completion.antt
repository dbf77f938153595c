-- ===== src/Arena/Concurrent/Threads/Completion.antt =====
-- Whatever the threads have done, all calls under way can still return, in few steps.
use native.Mathlib.Decide.{dec_lt, ℕ_discrete}
use mathlib.Core.Bool.{true≢false}
use cs.Base.{
  ℕ, zero, suc, ◌+◌, ◌*◌, ◌%◌, ◌^◌, ◌≡◌, ◌≤◌, ◌<◌, refl, sym, ap, ◌∙◌, true, false, some,
  Option-cases, List, [], ◌∷◌, All, length, arith, Bool-cases, inl, inr, ◌⊎◌,
}
use cs.Arena.Concurrent.{ConcurrentArena, new_concurrent}
use cs.Arena.Concurrent.Start.{new_concurrent-IsServing}
use cs.Arena.Concurrent.Threads.{
  Memory, Event, Pc, idle, System, move, put, step, run_steps, new_system,
}
use cs.Arena.Concurrent.Threads.Locks.{put-cases}
use cs.Arena.Concurrent.Threads.Safety.{IsRunning, step-IsRunning, new_system-IsRunning}
use cs.Arena.Concurrent.Threads.Progress.{
  in_call, spins, steps_left, someone_moves, move-steps_left,
}

-- The steps that the first `n` threads have left.
total_left : ℕ → (ℕ → Pc) → ℕ
total_left zero pc = 0
total_left (suc n) pc = total_left n pc + steps_left (pc n)

total_left-put_above :
    (n : ℕ) (pc : ℕ → Pc) (i : ℕ) (p : Pc) → n ≤ i → total_left n (put i p pc) ≡ total_left n pc
unfolding total_left
total_left-put_above zero pc i p h = refl
total_left-put_above (suc n) pc i p h =
    ground (arith, total_left-put_above n pc i p, put-cases i p pc n)

total_left-put :
    (n : ℕ) (pc : ℕ → Pc) (i : ℕ) (p : Pc)
    → i < n
    → total_left n (put i p pc) + steps_left (pc i) ≡ total_left n pc + steps_left p
unfolding total_left
total_left-put zero pc i p h = absurd (omega arith)
total_left-put (suc n) pc i p h = elim (dec_lt i n) [
  | yes below ↦ ground (arith, total_left-put n pc i p below, put-cases i p pc n)
  | no last ↦ ground (arith, total_left-put_above n pc i p, put-cases i p pc n)
]

steps_left-le : (p : Pc) → steps_left p ≤ 15
steps_left-le p = ground arith

total_left-le : (n : ℕ) (pc : ℕ → Pc) → total_left n pc ≤ 15 * n
unfolding total_left
total_left-le zero pc = omega arith
total_left-le (suc n) pc = omega (arith, total_left-le n pc, steps_left-le (pc n))

-- Only the first `n` threads are in calls.
abbrev Outside : ℕ → System → Type 0
Outside n s = (i : ℕ) → n ≤ i → s.pc i ≡ idle

some_inj {ℓ} : {A : Type ℓ} {x y : A} → some x ≡ some y → x ≡ y
some_inj e = cc

step-cases :
    (s : System) (i : ℕ) (e : Event) (s' : System)
    → step s i e ≡ some s'
    → (m : Memory) × (cpu_id : ℕ) × (p : Pc) × (move s.memory e (s.cpu_id i) (s.pc i)
        ≡ some (m, cpu_id, p))
      × (s'.pc ≡ put i p s.pc)
unfolding step
step-cases s i e s' h = elim (Option-cases (move s.memory e (s.cpu_id i) (s.pc i))) [
  | inl missing ↦ absurd (ground (arith, missing))
  | inr ((m, cpu_id, p), found) ↦
      let same : step s i e
          ≡ some (record { memory = m; cpu_id = put i cpu_id s.cpu_id; pc = put i p s.pc }) =
        rw (found, step) refl in
      let e : some s'
          ≡ some (record { memory = m; cpu_id = put i cpu_id s.cpu_id; pc = put i p s.pc }) =
        sym h ∙ same in
      (m, cpu_id, p, found, ap System.pc (some_inj e))
]

-- What a step of the completion meets; no call is started, so the size is of no account.
abbrev some_event : Event
some_event = record { size = 1; processor = 0; thread_hash = 0 }

in_call-lt : (n : ℕ) (s : System) (i : ℕ) → Outside n s → in_call (s.pc i) ≡ true → i < n
in_call-lt n s i outside there = elim (dec_lt i n) [
  | yes lt ↦ lt
  | no ge ↦ absurd (true≢false (sym there ∙ ap in_call (outside i (omega arith))))
]

-- A step of a thread that waits for nothing.
step_down :
    (n : ℕ) (s : System) (j : ℕ)
    → IsRunning s
    → Outside n s
    → in_call (s.pc j) ≡ true
    → spins s.memory (s.pc j) ≡ false
    → (s' : System) × (step s j some_event ≡ some s')
      × IsRunning s'
      × Outside n s'
      × (total_left n s'.pc < total_left n s.pc)
step_down n s j running outside there moves =
    let below = in_call-lt n s j outside there in
    let (s', once, running') = step-IsRunning s j some_event (omega arith) running in
    let (m, cpu_id, p, moved, now) = step-cases s j some_event s' once in
    let less =
      move-steps_left s.memory some_event (s.cpu_id j) m cpu_id p (s.pc j) there moves moved in
    (
      s',
      once,
      running',
      λ i above. ground (arith, now, put-cases j p s.pc i, outside i),
      rw now (omega (arith, total_left-put n s.pc j p below)),
    )

-- The first thread in a call, if any.
find_call :
    (n : ℕ) (pc : ℕ → Pc)
    → ((i : ℕ) × (in_call (pc i) ≡ true)) ⊎ ((i : ℕ) → i < n → in_call (pc i) ≡ false)
find_call zero pc = inr (λ i h. absurd (omega arith))
find_call (suc n) pc = elim (Bool-cases (in_call (pc n))) [
  | inl there ↦ inl (n, there)
  | inr away ↦ elim (find_call n pc) [
    | inl found ↦ inl found
    | inr none_below ↦ inr (λ i h. elim (ℕ_discrete i n) [
      | yes here ↦ rw here away
      | no other ↦ none_below i (omega arith)
    ])
  ]
]

new_system-idle : (c : ConcurrentArena) (i : ℕ) → (new_system c).pc i ≡ idle
unfolding new_system
new_system-idle c i = refl

nobody_inside :
    (n : ℕ) (s : System)
    → Outside n s
    → ((i : ℕ) → i < n → in_call (s.pc i) ≡ false)
    → (i : ℕ) → in_call (s.pc i) ≡ false
nobody_inside n s outside nobody i = elim (dec_lt i n) [
  | yes lt ↦ nobody i lt
  | no ge ↦ ap in_call (outside i (omega arith))
]

abbrev Completes : ℕ → ℕ → System → Type 0
Completes n fuel s =
    (rest : List (ℕ × Event)) × (s' : System) × (run_steps s rest ≡ some s')
    × (length rest ≤ fuel)
    × All (λ turn. turn.0 < n) rest
    × ((i : ℕ) → in_call (s'.pc i) ≡ false)

all_return :
    (n fuel : ℕ) (s : System)
    → IsRunning s
    → Outside n s
    → total_left n s.pc ≤ fuel
    → Completes n fuel s
unfolding run_steps
all_return n zero s (d, inv) outside enough = elim (find_call n s.pc) [
  | inr nobody ↦ ([], s, refl, omega arith, tt, nobody_inside n s outside nobody)
  | inl (i, there) ↦
      let (j, there', moves) = someone_moves inv i there in
      let (s', once, running, outside', less) = step_down n s j (d, inv) outside there' moves in
      absurd (omega arith)
]
all_return n (suc fuel) s (d, inv) outside enough = elim (find_call n s.pc) [
  | inr nobody ↦ ([], s, refl, omega arith, tt, nobody_inside n s outside nobody)
  | inl (i, there) ↦
      let (j, there', moves) = someone_moves inv i there in
      let (s', once, running, outside', less) = step_down n s j (d, inv) outside there' moves in
      let (rest, s'', ran, short, few, idle_all) =
        all_return n fuel s' running outside' (omega arith) in
      (
        (j, some_event) ∷ rest,
        s'',
        rw (once, run_steps) ran,
        omega arith,
        (in_call-lt n s j outside there', few),
        idle_all,
      )
]

run_steps-Outside :
    (n : ℕ) (steps : List (ℕ × Event)) (s : System)
    → IsRunning s
    → Outside n s
    → All (λ turn. (turn.0 < n) × (0 < turn.1.size)) steps
    → (s' : System) × (run_steps s steps ≡ some s') × IsRunning s' × Outside n s'
unfolding run_steps
run_steps-Outside n [] s running outside valid = (s, refl, running, outside)
run_steps-Outside n ((i, e) ∷ steps) s running outside ((below, pos), valid) =
    let (s', once, running') = step-IsRunning s i e pos running in
    let (m, cpu_id, p, moved, now) = step-cases s i e s' once in
    let outside' : Outside n s' = λ j above. ground (arith, now, put-cases i p s.pc j, outside j) in
    let (s'', rest, running'', outside'') = run_steps-Outside n steps s' running' outside' valid in
    (s'', rw (once, run_steps) rest, running'', outside'')

-- With an alignment that divides 2 ^ 31 and at most 2 ^ 32 processors: wherever `n` threads that call a
-- new arena for at least one byte each have come to, their calls can all return: at most 15 n further steps
-- of these threads, in some order, end with no thread in a call.
pub run_steps-completes :
    (align_unit num_cpus slab_size n : ℕ) (steps : List (ℕ × Event))
    → 0 < align_unit
    → 2 ^ 31 % align_unit ≡ 0
    → num_cpus ≤ 2 ^ 32
    → All (λ turn. (turn.0 < n) × (0 < turn.1.size)) steps
    → (s : System) × (run_steps (new_system (new_concurrent align_unit num_cpus slab_size)) steps
        ≡ some s)
      × (rest : List (ℕ × Event)) × (s' : System) × (run_steps s rest ≡ some s')
      × (length rest ≤ 15 * n)
      × All (λ turn. turn.0 < n) rest
      × ((i : ℕ) → in_call (s'.pc i) ≡ false)
run_steps-completes align_unit num_cpus slab_size n steps pos div few valid =
    let c = new_concurrent align_unit num_cpus slab_size in
    let fresh =
      new_system-IsRunning c (new_concurrent-IsServing align_unit num_cpus slab_size pos div few) in
    let (s, ran, running, outside) =
      run_steps-Outside n steps (new_system c) fresh (λ i above. new_system-idle c i) valid in
    let (rest, s', ran', short, below, returned) =
      all_return n (15 * n) s running outside (total_left-le n s.pc) in
    (s, ran, rest, s', ran', short, below, returned)
