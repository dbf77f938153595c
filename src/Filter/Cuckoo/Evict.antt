-- ===== src/Filter/Cuckoo/Evict.antt =====
-- The eviction loop: it ends, stays inside the array, and what it does to the contents.
use native.Mathlib.Nat.{add-zero}
use cs.Base.{
  ℕ, zero, suc, ◌+◌, ◌-◌, ◌*◌, ◌%◌, ◌^◌, ◌≤◌, ◌<◌, ◌≡◌, ◌≢◌, refl, ◌∙◌, inl, inr, Bool, true, false,
  List, length, get_or, set, length-set, if◌then◌else◌, arith,
}
use cs.Base.Words.{u64_mod}
use cs.Filter.Run.{ok, ◌>>=◌, read_ok, write_ok}
use cs.Filter.Hasher.{Engine}
use cs.Filter.Slots.{Absent}
use cs.Filter.Cuckoo.{evict}
use cs.Filter.Cuckoo.Valid.{alternate, alternate-lt, index2_of-alternate}
use cs.Filter.Cuckoo.Balance.{total, total-set, bucket_in_array, try_bucket-cases}

-- A way to count fingerprints that ignores free slots and does not tell a fingerprint's bucket from
-- the alternate of that.
pub record IsFair (hash_byte : ℕ → ℕ) (n : ℕ) (weight : ℕ → ℕ → ℕ) : Type 0 where
  pub free : (i : ℕ) → weight i 0 ≡ 0
  pub moves : (i x : ℕ) → i < n → weight (alternate hash_byte n i x) x ≡ weight i x

module _ (hash_byte : ℕ → ℕ) (n s : ℕ) where
  -- The contents `after` are those of `before` with `fp` of bucket `i` added.
  abbrev pub Gains : ℕ → ℕ → List ℕ → List ℕ → Type 0
  Gains i fp before after =
      (weight : ℕ → ℕ → ℕ)
      → IsFair hash_byte n weight
      → total weight s after ≡ total weight s before + weight i fp

  -- The same, but some fingerprint `w` of bucket `j` is missing.
  pub record Swaps (i fp : ℕ) (before after : List ℕ) : Type 0 where
    pub j : ℕ
    pub w : ℕ
    pub in_range : j < n
    pub present : w ≢ 0
    pub balance :
        (weight : ℕ → ℕ → ℕ)
        → IsFair hash_byte n weight
        → total weight s after + weight j w ≡ total weight s before + weight i fp

  -- What the loop returns, from `before` with `fp` at bucket `i`.
  abbrev pub Ends {κ} : {G : Type κ} → ℕ → ℕ → List ℕ → Bool × List ℕ × G → Type 0
  Ends i fp before (true, after, g) = (length after ≡ length before) × Gains i fp before after
  Ends i fp before (false, after, g) = (length after ≡ length before) × Swaps i fp before after

-- Both results of the loop in one: `w` of bucket `j` is lost where the result is `false`.
pub Ends-balance {κ} :
    {G : Type κ} (hash_byte : ℕ → ℕ) (n s i fp : ℕ) (before : List ℕ) (done : Bool) (after : List ℕ)
    (g : G)
    → Ends hash_byte n s i fp before (done, after, g)
    → (j : ℕ) × (w : ℕ) × (length after ≡ length before)
      × (w ≢ 0)
      × ((weight : ℕ → ℕ → ℕ)
          → IsFair hash_byte n weight
          → total weight s after + (if done then 0 else weight j w)
            ≡ total weight s before + weight i fp)
Ends-balance hash_byte n s i fp before true after g (same, gain) =
    (0, 1, same, omega arith, λ weight fair. rw add-zero (gain weight fair))
Ends-balance hash_byte n s i fp before false after g (same, swap) =
    (swap.j, swap.w, same, swap.present, swap.balance)

-- `after` is `before` with `fp` put into bucket `i`, and `old` of bucket `i'` taken out.
abbrev pub Trades : (ℕ → ℕ) → ℕ → ℕ → ℕ → ℕ → ℕ → ℕ → List ℕ → List ℕ → Type 0
Trades hash_byte n s i fp i' old before after =
    (weight : ℕ → ℕ → ℕ)
    → IsFair hash_byte n weight
    → total weight s after + weight i' old ≡ total weight s before + weight i fp

module _ (hash_byte : ℕ → ℕ) (n s i fp i' old : ℕ) (before mid : List ℕ)
    (same : length mid ≡ length before) (trade : Trades hash_byte n s i fp i' old before mid) where
  Ends-trade {κ} :
      {G : Type κ} (r : Bool × List ℕ × G)
      → Ends hash_byte n s i' old mid r
      → Ends hash_byte n s i fp before r
  Ends-trade (true, after, g) (len, gain) =
      (len ∙ same, λ weight fair. omega (arith, gain weight fair, trade weight fair))
  Ends-trade (false, after, g) (len, swap) = (
    len ∙ same,
    record {
      j = swap.j;
      w = swap.w;
      in_range = swap.in_range;
      present = swap.present;
      balance = λ weight fair. omega (arith, swap.balance weight fair, trade weight fair);
    },
  )

module _ (hash_byte : ℕ → ℕ) (n s i fp p : ℕ) (bytes : List ℕ) (in_range : i < n) (from : i * s ≤ p)
    (below : p < i * s + s) (inside : p < length bytes) where
  pub swap-Trades :
      let old = get_or bytes p 0 in
      Trades hash_byte n s i fp (alternate hash_byte n i old) old bytes (set bytes p fp)
  swap-Trades weight fair =
      rw (fair.moves i (get_or bytes p 0) in_range)
        (total-set weight s i p fp bytes from below inside)

  -- A free slot is filled.
  pub fill-Gains : get_or bytes p 0 ≡ 0 → Gains hash_byte n s i fp bytes (set bytes p fp)
  fill-Gains empty weight fair =
      let step = total-set weight s i p fp bytes from below inside in
      let none_there : weight i (get_or bytes p 0) ≡ 0 = rw empty (fair.free i) in omega arith

-- What is put into a fingerprint's alternate bucket counts as put into its bucket.
pub Ends-alternate {κ} :
    {G : Type κ} (hash_byte : ℕ → ℕ) (n s i fp : ℕ) (before : List ℕ) (r : Bool × List ℕ × G)
    → i < n
    → Ends hash_byte n s (alternate hash_byte n i fp) fp before r
    → Ends hash_byte n s i fp before r
Ends-alternate hash_byte n s i fp before r hi =
    Ends-trade hash_byte n s i fp (alternate hash_byte n i fp) fp before before refl
      (λ weight fair. rw (fair.moves i fp hi)) r

module _ {κ} {G : Type κ} ⦃e : Engine G⦄ (hash_byte : ℕ → ℕ) (n s : ℕ) (pos_n : 0 < n)
    (pos_s : 0 < s) (small : s < 2 ^ 64) where
  abbrev victim : G → ℕ
  victim g = (e.uniform ((s + u64_mod - 1) % u64_mod) g).0

  victim-lt : (g : G) → victim g < s
  victim-lt g = omega (arith, e.uniform-le ((s + u64_mod - 1) % u64_mod) g)

  pub evict-Ends :
      (k i fp : ℕ) (bytes : List ℕ) (g : G)
      → i < n
      → fp ≢ 0
      → length bytes ≡ n * s
      → Absent 0 s (i * s) bytes
      → (r : Bool × List ℕ × G) × (evict hash_byte n s k i fp bytes g ≡ ok r)
        × Ends hash_byte n s i fp bytes r
  unfolding evict
  evict-Ends zero i fp bytes g hi hf filled full = (
    (false, bytes, g),
    refl,
    (refl, record { j = i; w = fp; in_range = hi; present = hf; balance = λ weight fair. refl }),
  )
  evict-Ends (suc k) i fp bytes g hi hf filled full =
      let g' = (e.uniform ((s + u64_mod - 1) % u64_mod) g).1 in
      let p = i * s + victim g in
      let v : victim g < s = victim-lt g in
      let inside : p < length bytes = omega (arith, bucket_in_array n s i hi) in
      let old = get_or bytes p 0 in
      let i' = alternate hash_byte n i old in
      let swapped = set bytes p fp in
      let same = length-set bytes p fp in
      let trade = swap-Trades hash_byte n s i fp p bytes hi (omega arith) (omega arith) inside in
      let hi' = alternate-lt hash_byte n i old pos_n in
      let inside' : i' * s + s ≤ length swapped = omega (arith, bucket_in_array n s i' hi') in
      elim (try_bucket-cases s i' old swapped inside') [
        | inl (stuck, full') ↦
            let (r, run, ends) =
              evict-Ends k i' old swapped g' hi' (full p (omega arith) (omega arith))
                (same ∙ filled) full' in
            (
              r,
              rw
                  (
                    read_ok bytes p inside,
                    ◌>>=◌,
                    write_ok bytes p fp inside,
                    index2_of-alternate hash_byte n i old pos_n,
                    stuck,
                  )
                  run,
              Ends-trade hash_byte n s i fp i' old bytes swapped same trade r ends,
            )
        | inr (q, run, at') ↦ (
          (true, set swapped q old, g'),
          rw
              (
                read_ok bytes p inside,
                ◌>>=◌,
                write_ok bytes p fp inside,
                index2_of-alternate hash_byte n i old pos_n,
                run,
              )
              refl,
          Ends-trade hash_byte n s i fp i' old bytes swapped same trade
              (true, set swapped q old, g')
              (
                length-set swapped q old,
                fill-Gains hash_byte n s i' old q swapped hi' at'.from at'.below
                    (omega (arith, at'.below)) at'.holds,
              ),
        )
      ]
