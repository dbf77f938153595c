-- ===== src/Random/Examples.antt =====
-- Runs of the generator at concrete seeds.
use cs.Base.{◌≡◌, refl, none, arith}
use cs.Random.{Random, new_random, instance_of, next32}
use cs.Random.Cycle.{IsLive, next32-IsLive}

abbrev one : Random
one = new_random 1

-- The first two numbers from the seed 1.
first_draws : ((next32 one).1 ≡ 16807) × ((next32 (next32 one).0).1 ≡ 282475249)
unfolding next32
first_draws = (refl, refl)

-- A thread whose id hashes to 0 gets a generator that returns 0 for ever.
zero_seed : (next32 (instance_of 0 none)).1 ≡ 0
unfolding next32 instance_of
zero_seed = refl

next32-IsLive_example :
    ((next32 one).0.seed ≡ 16807) × IsLive (next32 one).0 × ((next32 one).1 ≡ (next32 one).0.seed)
next32-IsLive_example = next32-IsLive one (omega arith)
