-- ===== src/Filter/Cuckoo/Balance.antt =====
-- What a write into a bucket changes in a sum over all slots, where a slot counts by its bucket and
-- by what it holds.
use native.Mathlib.Nat.{div-eq_of_lt-le, zero-add}
use cs.Base.{
  ℕ, ◌+◌, ◌*◌, ◌/◌, ◌≤◌, ◌<◌, ◌≡◌, ◌⊎◌, inl, inr, none, some, List, length, get_or, set, arith,
}
use cs.Filter.Run.{ok, ◌>>=◌, write_ok}
use cs.Filter.Slots.{Absent, IsAt, find_slot-cases}
use cs.Filter.Slots.Tally.{tally, tally-set}
use cs.Filter.Cuckoo.{try_bucket}

-- The sum of `weight i x` over the slots, where `i` is the bucket and `x` what the slot holds.
unfoldable pub total : (ℕ → ℕ → ℕ) → ℕ → List ℕ → ℕ
total weight bucket_size bytes = tally (λ p x. weight (p / bucket_size) x) 0 bytes

pub bucket_of_slot : (s i p : ℕ) → i * s ≤ p → p < i * s + s → p / s ≡ i
bucket_of_slot s i p from below = div-eq_of_lt-le s from (grind arith)

pub bucket_in_array : (n s i : ℕ) → i < n → i * s + s ≤ n * s
bucket_in_array n s i h = grind arith

pub total-set :
    (weight : ℕ → ℕ → ℕ) (s i p v : ℕ) (bytes : List ℕ)
    → i * s ≤ p
    → p < i * s + s
    → p < length bytes
    → total weight s (set bytes p v) + weight i (get_or bytes p 0)
      ≡ total weight s bytes + weight i v
unfolding total
total-set weight s i p v bytes from below inside =
    let place : (0 + p) / s ≡ i = rw zero-add (bucket_of_slot s i p from below) in
    rw place at (tally-set (λ q x. weight (q / s) x) 0 bytes p v inside)

module _ (s i fp : ℕ) (bytes : List ℕ) (inside : i * s + s ≤ length bytes) where
  -- `fp` is stored in a free slot of the bucket, or the bucket is full.
  pub try_bucket-cases :
      ((try_bucket s i fp bytes ≡ ok none) × Absent 0 s (i * s) bytes)
      ⊎ ((p : ℕ) × (try_bucket s i fp bytes ≡ ok (some (set bytes p fp)))
          × IsAt 0 s (i * s) p bytes)
  unfolding try_bucket
  try_bucket-cases = elim (find_slot-cases 0 s (i * s) bytes inside) [
    | inl (run, full) ↦ inl (rw (run, ◌>>=◌), full)
    | inr (p, run, at') ↦
        inr (p, rw (run, ◌>>=◌, write_ok bytes p fp (omega (arith, at'.below))), at')
  ]
