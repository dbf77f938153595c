-- ===== src/Varint/Groups.antt =====
-- The bytes that the encoder writes, in plain arithmetic, and that it writes just those.
use mathlib.Core.List.{append_assoc}
use cs.Base.{
  ℕ, zero, suc, ◌+◌, ◌/◌, ◌%◌, ◌^◌, ◌≤◌, ◌<◌, ◌≡◌, refl, ap, bit_and, bit_or, none, some, List, [],
  ◌∷◌, ◌++◌, length, length-append, length-eq-zero, length-take, length-set, take-append-drop, take,
  drop, set, All, ltb, arith, if◌then◌else◌,
}
use cs.Base.Bits.{bit_and_mask, bit_or_high}
use cs.Base.Words.{IsByte, IsU64}
use cs.Varint.{write_at, encode_loop, encode_varint}

-- Seven bits a byte, lowest first, the top bit set on all but the last, for a value below
-- 128 ^ (k + 1).
unfoldable pub groups : ℕ → ℕ → List ℕ
groups zero v = v ∷ []
groups (suc k) v =
    let rest = groups k (v / 128) in if ltb 0x7f v then (v % 128 + 128) ∷ rest else v ∷ []

pub groups-IsByte : (k v : ℕ) → v < 128 ^ suc k → All IsByte (groups k v)
unfolding groups
groups-IsByte zero v h = omega arith
groups-IsByte (suc k) v h = ground (arith, groups-IsByte k (v / 128) (omega arith))

inner_group : (v : ℕ) → bit_or (bit_and v 0x7f) 0x80 ≡ v % 128 + 128
inner_group v = omega (
  arith,
  bit_or_high 7 1 (v % 128) (omega arith),
  ap (λ (t : ℕ). bit_or t 128) (bit_and_mask 7 v),
)

set-middle :
    (front : List ℕ) (x b : ℕ) (back : List ℕ)
    → set (front ++ (x ∷ back)) (length front) b ≡ front ++ (b ∷ back)
set-middle [] x b back = refl
set-middle (y ∷ front) x b back = ap (λ t. y ∷ t) (set-middle front x b back)

write-middle :
    (front : List ℕ) (x b : ℕ) (back : List ℕ)
    → write_at (front ++ (x ∷ back)) (length front) b ≡ some (front ++ ((b % 256) ∷ back))
unfolding write_at
write-middle front x b back =
    ground (arith, set-middle front x (b % 256) back, length-append front (x ∷ back))

-- The bytes `old` in the middle of the span are replaced by the groups of the value.
pub encode_loop-groups :
    (k v : ℕ) (front old back : List ℕ)
    → v < 128 ^ suc k
    → length old ≡ length (groups k v)
    → encode_loop k (front ++ (old ++ back)) (length front) v
      ≡ some (front ++ (groups k v ++ back), length front + length (groups k v))
unfolding encode_loop groups
encode_loop-groups zero v front [] back h e = absurd (omega arith)
encode_loop-groups zero v front (x ∷ []) back h e = ground (arith, write-middle front x v back)
encode_loop-groups zero v front (x ∷ y ∷ old) back h e = absurd (omega arith)
encode_loop-groups (suc k) v front [] back h e = absurd (ground arith)
encode_loop-groups (suc k) v front (x ∷ old) back h e =
    let g : List ℕ = (v % 128 + 128) ∷ [] in
    ground (
      arith,
      inner_group v,
      length-eq-zero old,
      write-middle front x v (old ++ back),
      write-middle front x (bit_or (bit_and v 0x7f) 0x80) (old ++ back),
      append_assoc front g (old ++ back),
      append_assoc front g (groups k (v / 128) ++ back),
      length-append front g,
      encode_loop-groups k (v / 128) (front ++ g) old back (omega arith),
    )

-- A span that is long enough begins with the groups afterwards, and is as before behind them.
pub encode_varint-groups :
    (v : ℕ) (data' : List ℕ)
    → IsU64 v
    → length (groups 9 v) ≤ length data'
    → encode_varint data' v
      ≡ some (groups 9 v ++ drop (length (groups 9 v)) data', length (groups 9 v))
unfolding encode_varint
encode_varint-groups v data' h e =
    let n = length (groups 9 v) in
    ground (
      arith,
      take-append-drop n data',
      encode_loop-groups 9 v [] (take n data') (drop n data') (omega arith) (length-take n data' e),
    )

write-outside : (data' : List ℕ) (i b : ℕ) → length data' ≤ i → write_at data' i b ≡ none
unfolding write_at
write-outside data' i b h = ground arith

encode_loop-none :
    (k v : ℕ) (data' : List ℕ) (i : ℕ)
    → length data' < i + length (groups k v)
    → encode_loop k data' i v ≡ none
unfolding encode_loop groups write_at
encode_loop-none zero v data' i h = ground arith
encode_loop-none (suc k) v data' i h =
    let b = bit_or (bit_and v 0x7f) 0x80 % 256 in
    ground (arith, length-set data' i b, encode_loop-none k (v / 128) (set data' i b) (i + 1))

-- Into a span that is too short the encoder writes outside it.
pub encode_varint-none :
    (v : ℕ) (data' : List ℕ) → length data' < length (groups 9 v) → encode_varint data' v ≡ none
unfolding encode_varint
encode_varint-none v data' h = encode_loop-none 9 v data' 0 (omega arith)
