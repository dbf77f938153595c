-- ===== src/Filter/Cuckoo/File/Image.antt =====
-- The bytes that `save` writes, and what the constructor makes of them.
use mathlib.Core.List.{append_assoc}
use native.Mathlib.Nat.{zero-mul}
use cs.Base.{
  ℕ, zero, suc, ◌+◌, ◌-◌, ◌*◌, ◌/◌, ◌%◌, ◌^◌, ◌≤◌, ◌<◌, ◌≡◌, refl, ap, ◌∙◌, true, false, List, [],
  ◌∷◌, ◌++◌, length, length-append, length-take, length-drop, length-replicate, replicate,
  replicate-append, set, ltb, not-ltb, lt→ltb, eq→==, ◌==◌, if◌then◌else◌, arith,
}
use cs.Filter.Run.{ok, write, write_ok}
use cs.Filter.Stream.{to_bytes, Output, write_items}
use cs.Filter.Stream.Parse.{
  Parses, return-Parses, bind-Parses, step-Parses, length-to_bytes, write_size-all,
  read_size-Parses, read_byte-Parses, extend, extend-append, extend_none, room-extend, fwrite-all,
}
use cs.Filter.Cuckoo.{CuckooFilter}
use cs.Filter.Cuckoo.Valid.{IsValid}
use cs.Filter.Cuckoo.File.{gather, bucket_slots, save_buckets, load_values, load_buckets}
use cs.Filter.Cuckoo.File.Compact.{compact, compact-gather, length-gather, length-compact}

-- With room enough, some bytes are written.
write_bytes-all :
    (bs : List ℕ) (out : Output)
    → length bs ≤ out.room
    → write_items 1 (length bs) bs out ≡ ok (extend out bs)
unfolding write_items
write_bytes-all bs out enough =
    let all : (length bs / 1 == length bs) ≡ true = eq→== _ _ (omega arith) in
    rw (fwrite-all 1 bs out enough, all) refl

-- The values of a bucket, if there are any.
write_values-all :
    (bs : List ℕ) (out : Output)
    → length bs ≤ out.room
    → (if ltb 0 (length bs) then write_items 1 (length bs) bs out else ok out) ≡ ok (extend out bs)
write_values-all [] out enough = rw (extend_none out) refl
write_values-all (b ∷ bs) out enough =
    let positive : ltb 0 (suc (length bs)) ≡ true = lt→ltb 0 (suc (length bs)) (omega arith) in
    rw positive (write_bytes-all (b ∷ bs) out enough)

-- A position behind some slots.
set-behind :
    (front : List ℕ) (x y : ℕ) (back : List ℕ)
    → set (front ++ x ∷ back) (length front) y ≡ front ++ y ∷ back
set-behind [] x y back = refl
set-behind (z ∷ front) x y back = ap (λ t. z ∷ t) (set-behind front x y back)

-- The loop over the values replaces the slots behind the first ones.
load_values-Parses :
    (values front old back : List ℕ)
    → length old ≡ length values
    → length front + length values < 2 ^ 64
    → Parses
        (load_values (length values) (length front) (front ++ (old ++ back)))
        values
        (front ++ (values ++ back))
unfolding load_values
load_values-Parses [] front [] back same few = return-Parses (front ++ back)
load_values-Parses [] front (x ∷ old) back same few = absurd (omega arith)
load_values-Parses (v ∷ values) front [] back same few = absurd (omega arith)
load_values-Parses (v ∷ values) front (x ∷ old) back same few =
    let inside : write (front ++ x ∷ (old ++ back)) (length front % 2 ^ 64) v
        ≡ ok (front ++ v ∷ (old ++ back)) =
      let at_end : length front % 2 ^ 64 ≡ length front = omega arith in
      rw at_end (
        write_ok (front ++ x ∷ (old ++ back)) (length front) v
          (omega (arith, length-append front (x ∷ (old ++ back))))
        ∙ ap ok (set-behind front x v (old ++ back))) in
    let one = length-append front (v ∷ []) in
    let later = load_values-Parses values (front ++ v ∷ []) old back (omega arith) (omega arith) in
    bind-Parses _ (read_byte-Parses v) (
      step-Parses _ inside (
        rw
          (
            one,
            append_assoc front (v ∷ []) (old ++ back),
            append_assoc front (v ∷ []) (values ++ back),
          )
          at later))

module _ {κ} {G : Type κ} (f : CuckooFilter G) where
  abbrev pub slots_at : ℕ → List ℕ
  slots_at i = bucket_slots f.bucket_size f.buckets i

  -- The bytes of `k` buckets from bucket `i` on, and their slots after a round trip.
  unfoldable pub buckets_bytes : ℕ → ℕ → List ℕ
  buckets_bytes i zero = []
  buckets_bytes i (suc k) =
      to_bytes 8 (length (gather (slots_at i))) ++ (gather (slots_at i) ++ buckets_bytes (i + 1) k)

  unfoldable pub compact_from : ℕ → ℕ → List ℕ
  compact_from i zero = []
  compact_from i (suc k) = compact (slots_at i) ++ compact_from (i + 1) k

module _ {κ} {G : Type κ} (f : CuckooFilter G) (valid : IsValid f) where
  pub length-slots_at :
      (i k : ℕ) → i + suc k ≡ f.bucket_count → length (slots_at f i) ≡ f.bucket_size
  length-slots_at i k e =
      let all : length f.buckets ≡ (i + suc k) * f.bucket_size = rw e valid.filled in
      length-take f.bucket_size _ (rw length-drop (omega arith))

  pub load_buckets-Parses :
      (i k : ℕ) (front : List ℕ)
      → i + k ≡ f.bucket_count
      → length front ≡ i * f.bucket_size
      → Parses
          (load_buckets f.bucket_size k i (front ++ replicate (k * f.bucket_size) 0))
          (buckets_bytes f i k)
          (front ++ compact_from f i k)
  unfolding load_buckets buckets_bytes compact_from
  load_buckets-Parses i zero front e size = rw zero-mul (return-Parses (front ++ []))
  load_buckets-Parses i (suc k) front e size =
      let s = f.bucket_size in
      let slots = slots_at f i in
      let values = gather slots in
      let n = length values in
      let zeros : List ℕ = replicate (s - n) 0 in
      let others : List ℕ = replicate (k * s) 0 in
      let long = length-slots_at i k e in
      let few = length-gather slots in
      let bound : (i + suc k) * s < 2 ^ 64 = rw e valid.fits in
      let split : replicate (suc k * s) 0 ≡ replicate n 0 ++ (zeros ++ others) =
        let sum : suc k * s ≡ n + ((s - n) + k * s) = omega arith in
        rw
          (
            sum,
            ← replicate-append {A = ℕ} n ((s - n) + k * s) 0,
            ← replicate-append {A = ℕ} (s - n) (k * s) 0,
          )
          refl in
      let filled : front ++ (values ++ (zeros ++ others)) ≡ (front ++ compact slots) ++ others =
        rw
          (
            compact-gather s slots long,
            append_assoc front (values ++ zeros) others,
            append_assoc values zeros others,
          )
          refl in
      let loaded =
        load_values-Parses values front (replicate n 0) (zeros ++ others)
          (length-replicate {A = ℕ} n 0) (omega arith) in
      let length_next : length (front ++ compact slots) ≡ (i + 1) * s =
        omega (arith, length-append front (compact slots), length-compact slots) in
      let next = load_buckets-Parses (i + 1) k (front ++ compact slots) (omega arith) length_next in
      rw split (
        bind-Parses _ (read_size-Parses n (omega arith)) (
          bind-Parses _ (rw (size, filled) at loaded)
            (rw (append_assoc front (compact slots) (compact_from f (i + 1) k)) at next)))

  pub save_buckets-bytes :
      (i k total : ℕ) (out : Output)
      → i + k ≡ f.bucket_count
      → total < 2 ^ 64
      → length (buckets_bytes f i k) ≤ out.room
      → save_buckets f k i total out
        ≡ ok ((total + length (buckets_bytes f i k)) % 2 ^ 64, extend out (buckets_bytes f i k))
  unfolding save_buckets buckets_bytes
  save_buckets-bytes i zero total out e small enough =
      let same : (total + 0) % 2 ^ 64 ≡ total = omega arith in rw (same, extend_none out) refl
  save_buckets-bytes i (suc k) total out e small enough =
      let slots = slots_at f i in
      let values = gather slots in
      let prefix = to_bytes 8 (length values) in
      let rest = buckets_bytes f (i + 1) k in
      let out1 = extend out prefix in
      let out2 = extend out1 values in
      let size = length-slots_at i k e in
      let eight = length-to_bytes 8 (length values) in
      let bytes : length (prefix ++ (values ++ rest)) ≡ 8 + length values + length rest =
        omega (arith, length-append prefix (values ++ rest), length-append values rest) in
      let room1 = room-extend out prefix in
      let room2 = room-extend out1 values in
      let total' = (total + (8 + length values)) % 2 ^ 64 in
      let long : ltb (length slots) f.bucket_size ≡ false =
        not-ltb (length slots) f.bucket_size (λ short. omega arith) in
      let count : (total' + length rest) % 2 ^ 64
          ≡ (total + length (prefix ++ (values ++ rest))) % 2 ^ 64 =
        omega arith in
      rw
        (
          long,
          write_size-all (length values) out (omega arith),
          write_values-all values out1 (omega arith),
          save_buckets-bytes (i + 1) k total' out2 (omega arith) (omega arith) (omega arith),
          count,
          extend-append out1 values rest,
          extend-append out prefix (values ++ rest),
        )
        refl
