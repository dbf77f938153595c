-- ===== src/Varint.antt =====
-- mousedb/src/memtable.cpp, the three functions above its namespace: lengths as varints.
-- A span is the list of its bytes, a write gives back the new list, and `none` stands for an
-- access outside the span or a shift by 64 or more, which C++ leaves undefined.
pub mod Groups
pub mod Width
pub mod RoundTrip
pub mod Fuel
mod Examples
use cs.Base.{
  ℕ, zero, suc, ◌+◌, ◌-◌, ◌*◌, ◌/◌, ◌%◌, ◌^◌, bit_and, bit_or, Bool, true, false, Option, none,
  some, List, [], ◌∷◌, length, set, ltb, ◌==◌, if◌then◌else◌,
}
use cs.Base.Words.{u64_mod}

-- The zero bits above the highest one bit, of the low `w` bits of `v`.
pub zeros_above : ℕ → ℕ → ℕ
zeros_above zero v = 0
zeros_above (suc w) v = let rest = zeros_above w v in if v / 2 ^ w % 2 == 1 then 0 else suc rest

-- `std::countl_zero` of a `uint64_t`
abbrev pub countl_zero : ℕ → ℕ
countl_zero = zeros_above 64

pub get_varint_size : ℕ → ℕ
get_varint_size value = let bits = 64 - countl_zero value in if bits == 0 then 1 else (bits + 6) / 7

-- `data[i] = static_cast<std::byte>(b)`
pub write_at : List ℕ → ℕ → ℕ → Option (List ℕ)
write_at data' i b = if ltb i (length data') then some (set data' i (b % 256)) else none

-- The loop at index `i`, with `fuel` rounds at most; it shifts 7 bits out in each, so that 9 rounds
-- are enough for 64 bits.
pub encode_loop : ℕ → List ℕ → ℕ → ℕ → Option (List ℕ × ℕ)
unfolding write_at
encode_loop zero data' i value = elim (write_at data' i value) [
  | none ↦ none
  | some d ↦ some (d, i + 1)
]
encode_loop (suc fuel) data' i value = elim (ltb 0x7f value) [
  | true ↦ elim (write_at data' i (bit_or (bit_and value 0x7f) 0x80)) [
    | none ↦ none
    | some d ↦ encode_loop fuel d (i + 1) (value / 2 ^ 7)
  ]
  | false ↦ elim (write_at data' i value) [ none ↦ none | some d ↦ some (d, i + 1) ]
]

-- The new span, and the number of bytes written.
pub encode_varint : List ℕ → ℕ → Option (List ℕ × ℕ)
encode_varint data' value = encode_loop 9 data' 0 value

-- `value |= (data[i] & 0x7F) << (i * 7)`
abbrev pub add_group : ℕ → ℕ → ℕ → ℕ
add_group value b i = bit_or value (bit_and b 0x7f * 2 ^ (i * 7) % u64_mod)

-- The loop at index `i`, over the bytes that stand there. The bytes read and the value.
pub decode_loop : List ℕ → ℕ → ℕ → Option (ℕ × ℕ)
decode_loop [] i value = none
decode_loop (b ∷ data') i value =
    let value' = add_group value b i in
    let more = decode_loop data' (i + 1) value' in
    if ltb (i * 7) 64 then (if bit_and b 0x80 == 0 then some (i + 1, value') else more) else none

pub decode_varint : List ℕ → Option (ℕ × ℕ)
decode_varint data' = decode_loop data' 0 0
