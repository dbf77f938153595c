-- ===== src/Filter/Chained/Evict.antt =====
-- The eviction loop of the map: it ends, stays inside the array, and what it does to the slots.
use cs.Base.{
  ℕ, zero, suc, ◌+◌, ◌*◌, ◌%◌, ◌≤◌, ◌<◌, ◌≡◌, ◌≢◌, refl, ◌∙◌, ◌⊎◌, inl, inr, Option, none, some,
  List, length, get_or, set, length-set, arith,
}
use native.Mathlib.Nat.{mod-lt}
use cs.Filter.Run.{ok, ◌>>=◌, read_ok, write_ok, modulo_ok}
use cs.Filter.Hasher.{Engine}
use cs.Filter.Slots.{Absent}
use cs.Filter.Chained.{map_evict}
use cs.Filter.Cuckoo.Valid.{alternate, alternate-lt, index2_of-alternate}
use cs.Filter.Cuckoo.Balance.{total, bucket_in_array, try_bucket-cases}
use cs.Filter.Cuckoo.Evict.{IsFair, Trades, swap-Trades, fill-Gains}

-- What the loop adds beside what it had in hand, where it returns.
abbrev pub stored_again : Option ℕ → ℕ → ℕ
stored_again none a = a
stored_again (some x) a = 0

module _ (hash_byte : ℕ → ℕ) (n s fp : ℕ) where
  -- The end of the loop, with `w` of bucket `j` in hand.
  pub record Leaves {κ} {G : Type κ} (i cur : ℕ) (before : List ℕ) (r : Option ℕ × List ℕ × G)
      : Type 0 where
    pub j : ℕ
    pub w : ℕ
    pub in_range : j < n
    pub present : w ≢ 0
    pub same_length : length r.1 ≡ length before
    pub in_hand : (r.0 ≡ none) ⊎ (r.0 ≡ some w)
    pub balance :
        (weight : ℕ → ℕ → ℕ)
        → IsFair hash_byte n weight
        → total weight s r.1 + weight j w
          ≡ total weight s before + weight i cur + stored_again r.0 (weight j fp)

  Leaves-trade {κ} :
      {G : Type κ} (i cur i' old : ℕ) (before mid : List ℕ) (r : Option ℕ × List ℕ × G)
      → length mid ≡ length before
      → Trades hash_byte n s i cur i' old before mid
      → Leaves i' old mid r
      → Leaves i cur before r
  Leaves-trade i cur i' old before mid r same trade end = record {
    j = end.j;
    w = end.w;
    in_range = end.in_range;
    present = end.present;
    same_length = end.same_length ∙ same;
    in_hand = end.in_hand;
    balance = λ weight fair. omega (arith, end.balance weight fair, trade weight fair);
  }

module _ {κ} {G : Type κ} ⦃e : Engine G⦄ (hash_byte : ℕ → ℕ) (n s fp : ℕ) (pos_n : 0 < n)
    (pos_s : 0 < s) where
  pub map_evict-Leaves :
      (k i cur : ℕ) (slots : List ℕ) (g : G)
      → i < n
      → cur ≢ 0
      → length slots ≡ n * s
      → Absent 0 s (i * s) slots
      → (r : Option ℕ × List ℕ × G) × (map_evict hash_byte n s fp k i cur slots g ≡ ok r)
        × Leaves hash_byte n s fp i cur slots r
  unfolding map_evict
  map_evict-Leaves zero i cur slots g hi hc filled full = (
    (some cur, slots, g),
    refl,
    record {
      j = i;
      w = cur;
      in_range = hi;
      present = hc;
      same_length = refl;
      in_hand = inr refl;
      balance = λ weight fair. omega arith;
    },
  )
  map_evict-Leaves (suc k) i cur slots g hi hc filled full =
      let d = (e.draw g).0 in
      let g' = (e.draw g).1 in
      let v : d % s < s = mod-lt d pos_s in
      let p = i * s + d % s in
      let inside : p < length slots = omega (arith, bucket_in_array n s i hi) in
      let old = get_or slots p 0 in
      let i' = alternate hash_byte n i old in
      let swapped = set slots p cur in
      let same = length-set slots p cur in
      let trade = swap-Trades hash_byte n s i cur p slots hi (omega arith) (omega arith) inside in
      let hi' = alternate-lt hash_byte n i old pos_n in
      let inside' : i' * s + s ≤ length swapped = omega (arith, bucket_in_array n s i' hi') in
      let there : old ≢ 0 = full p (omega arith) (omega arith) in
      elim (try_bucket-cases s i' fp swapped inside') [
        | inl (stuck, full') ↦
            let (r, run, end) =
              map_evict-Leaves k i' old swapped g' hi' there (same ∙ filled) full' in
            (
              r,
              rw
                  (
                    modulo_ok d s pos_s,
                    ◌>>=◌,
                    read_ok slots p inside,
                    write_ok slots p cur inside,
                    index2_of-alternate hash_byte n i old pos_n,
                    stuck,
                  )
                  run,
              Leaves-trade hash_byte n s fp i cur i' old slots swapped r same trade end,
            )
        | inr (q, run, at') ↦ (
          (none, set swapped q fp, g'),
          rw
              (
                modulo_ok d s pos_s,
                ◌>>=◌,
                read_ok slots p inside,
                write_ok slots p cur inside,
                index2_of-alternate hash_byte n i old pos_n,
                run,
              )
              refl,
          Leaves-trade hash_byte n s fp i cur i' old slots swapped (none, set swapped q fp, g') same
              trade
              (record {
                j = i';
                w = old;
                in_range = hi';
                present = there;
                same_length = length-set swapped q fp;
                in_hand = inl refl;
                balance = λ weight fair. omega (
                  arith,
                  fill-Gains hash_byte n s i' fp q swapped hi' at'.from at'.below
                      (omega (arith, at'.below)) at'.holds weight fair,
                );
              }),
        )
      ]
