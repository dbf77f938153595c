-- ===== src/Varint/RoundTrip.antt =====
-- The decoder reads back what the encoder wrote.
use native.Mathlib.Nat.{div-add-mod}
use native.Mathlib.Decide.{dec_lt}
use native.Mathlib.Numerals.{towards_suc}
use cs.Base.{
  ℕ, zero, suc, ◌+◌, ◌*◌, ◌/◌, ◌%◌, ◌^◌, ◌≤◌, ◌<◌, ◌≡◌, refl, ap, none, some, List, ◌++◌, length,
  All, lt→ltb, not-ltb, take, drop, take-append_le, take-append_ge, ◌≢◌, ◌↔◌, if◌then◌else◌, ltb,
  arith,
}
use cs.Base.Bits.{bit_and_mask, bit_or_high, top_bit}
use cs.Base.Words.{IsByte, IsU64}
use cs.Varint.{add_group, decode_loop, decode_varint, encode_varint, get_varint_size}
use cs.Varint.Groups.{groups, groups-IsByte, encode_varint-groups, encode_varint-none}
use cs.Varint.Width.{get_varint_size-groups, length-groups_bounds}

shift_seven : (i : ℕ) → 2 ^ ((i + 1) * 7) ≡ 128 * 2 ^ (i * 7)
shift_seven i = rw split (simp towards_suc (omega arith))
  where
    split : (i + 1) * 7 ≡ i * 7 + 7
    split = omega arith

split_group : (v i : ℕ) → v * 2 ^ (i * 7) ≡ v % 128 * 2 ^ (i * 7) + v / 128 * 2 ^ ((i + 1) * 7)
split_group v i = omega (
  arith,
  ap (λ (t : ℕ). t * 2 ^ (i * 7)) (div-add-mod v 128),
  ap (λ (t : ℕ). v / 128 * t) (shift_seven i),
)

add_group_sum :
    (acc g i : ℕ)
    → acc < 2 ^ (i * 7)
    → IsU64 (acc + g % 128 * 2 ^ (i * 7))
    → add_group acc g i ≡ acc + g % 128 * 2 ^ (i * 7)
add_group_sum acc g i h fits = ground (arith, bit_and_mask 7 g, bit_or_high (i * 7) (g % 128) acc h)

group_below : (acc g i : ℕ) → acc < 2 ^ (i * 7) → acc + g % 128 * 2 ^ (i * 7) < 2 ^ ((i + 1) * 7)
group_below acc g i h = grind (arith, shift_seven i)

decode_loop-groups :
    (k v i acc : ℕ) (rest : List ℕ)
    → v < 128 ^ suc k
    → acc < 2 ^ (i * 7)
    → (i + k) * 7 < 64
    → IsU64 (acc + v * 2 ^ (i * 7))
    → decode_loop (groups k v ++ rest) i acc ≡ some (i + length (groups k v), acc + v * 2 ^ (i * 7))
unfolding decode_loop groups
decode_loop-groups zero v i acc rest hv ha hi fits =
    ground (arith, add_group_sum acc v i, top_bit v)
decode_loop-groups (suc k) v i acc rest hv ha hi fits = ground (
  arith,
  add_group_sum acc v i,
  top_bit v,
  add_group_sum acc (v % 128 + 128) i,
  top_bit (v % 128 + 128),
  split_group v i,
  group_below acc v i,
  decode_loop-groups k (v / 128) (i + 1) (acc + v % 128 * 2 ^ (i * 7)) rest (omega arith),
)

-- Decoding what was written for a `uint64_t`, whatever bytes follow, gives its length and the value.
pub decode_varint-groups :
    (v : ℕ) (rest : List ℕ)
    → IsU64 v
    → decode_varint (groups 9 v ++ rest) ≡ some (length (groups 9 v), v)
unfolding decode_varint
decode_varint-groups v rest h = ground (arith, decode_loop-groups 9 v 0 0 rest)

-- For every `uint64_t` and every span of at least `get_varint_size` bytes, the encoder writes that
-- many bytes at the front and nothing behind them, and the decoder reads the value back, whatever
-- bytes follow.
pub decode_varint-encode_varint :
    (v : ℕ) (data' more : List ℕ)
    → IsU64 v
    → get_varint_size v ≤ length data'
    → (out : List ℕ) × (encode_varint data' v
        ≡ some (out ++ drop (get_varint_size v) data', get_varint_size v))
      × (length out ≡ get_varint_size v)
      × All IsByte out
      × (decode_varint (out ++ more) ≡ some (get_varint_size v, v))
decode_varint-encode_varint v data' more h room =
    let size = get_varint_size-groups v h in
    rw size (
      groups 9 v,
      encode_varint-groups v data' h (rw size at room),
      refl,
      groups-IsByte 9 v (omega arith),
      decode_varint-groups v more h,
    )

-- The encoder stays inside its span exactly if that has `get_varint_size` bytes.
encode_varint-fits :
    (v : ℕ) (data' : List ℕ)
    → IsU64 v
    → (encode_varint data' v ≢ none) ↔ (get_varint_size v ≤ length data')
encode_varint-fits v data' h = elim (dec_lt (length data') (length (groups 9 v))) [
  | yes short ↦ (
    λ ok. absurd (ok (encode_varint-none v data' short)),
    λ room. absurd (omega (arith, get_varint_size-groups v h)),
  )
  | no long ↦ (
    λ _. omega (arith, get_varint_size-groups v h),
    λ room e. cc (encode_varint-groups v data' h (omega arith)),
  )
]

decode_loop-cut :
    (k v j i acc : ℕ)
    → j < length (groups k v)
    → v < 128 ^ suc k
    → decode_loop (take j (groups k v)) i acc ≡ none
unfolding decode_loop groups
decode_loop-cut zero v zero i acc h hv = refl
decode_loop-cut zero v (suc j) i acc h hv = absurd (omega arith)
decode_loop-cut (suc k) v zero i acc h hv = refl
decode_loop-cut (suc k) v (suc j) i acc h hv =
    let g = v % 128 + 128 in
    ground (arith, top_bit g, decode_loop-cut k (v / 128) j (i + 1) (add_group acc g i))

-- The callers pass the decoder a span of `sizeof(size_t)`, 8, bytes: it reads the value within
-- those if the value is below 2 ^ 56, and reads past their end otherwise.
pub decode_varint-size_t :
    (v : ℕ) (more : List ℕ)
    → IsU64 v
    → decode_varint (take 8 (groups 9 v ++ more))
      ≡ (if ltb v (2 ^ 56) then some (get_varint_size v, v) else none)
decode_varint-size_t v more h = elim (dec_lt v (2 ^ 56)) [
  | yes small ↦
      rw
        (
          lt→ltb v (2 ^ 56) small,
          take-append_ge 8 (groups 9 v) more (bounds.2 small),
          get_varint_size-groups v h,
        )
        (decode_varint-groups v _ h)
  | no large ↦
      rw
        (
          not-ltb v (2 ^ 56) large,
          take-append_le 8 (groups 9 v) more (omega (arith, bounds.3 (omega arith))),
        )
        (unfold decode_varint in
          decode_loop-cut 9 v 8 0 0 (omega (arith, bounds.3 (omega arith))) (omega arith))
]
  where
    bounds :
        (1 ≤ length (groups 9 v))
        × (length (groups 9 v) ≤ 10)
        × (v < 2 ^ 56 → length (groups 9 v) ≤ 8)
        × (2 ^ 56 ≤ v → 9 ≤ length (groups 9 v))
    bounds = length-groups_bounds v h
