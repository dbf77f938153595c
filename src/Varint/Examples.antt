-- ===== src/Varint/Examples.antt =====
-- Encodings of concrete lengths.
use cs.Base.{
  ◌+◌, ℕ, ◌^◌, ◌≤◌, ◌≡◌, refl, none, some, List, [], ◌∷◌, ◌++◌, length, take, drop, All, arith,
}
use cs.Base.Words.{IsByte}
use cs.Varint.{
  zeros_above, get_varint_size, write_at, encode_loop, encode_varint, decode_loop, decode_varint,
}
use cs.Varint.Groups.{groups}
use cs.Varint.Fuel.{encode_loop-enough}
use cs.Varint.RoundTrip.{decode_varint-encode_varint, decode_varint-size_t}

abbrev buffer : List ℕ
buffer = 7 ∷ 7 ∷ 7 ∷ []

encode_300 : encode_varint buffer 300 ≡ some (0xac ∷ 0x02 ∷ 7 ∷ [], 2)
unfolding encode_varint encode_loop write_at
encode_300 = refl

encode_short : encode_varint (7 ∷ []) 300 ≡ none
unfolding encode_varint encode_loop write_at
encode_short = refl

decode_padded : decode_varint (0x80 ∷ 0x00 ∷ 7 ∷ []) ≡ some (2, 0)
unfolding decode_varint decode_loop
decode_padded = refl

size_of_max : get_varint_size 0xffff_ffff_ffff_ffff ≡ 10
unfolding get_varint_size zeros_above
size_of_max = refl

room_for_300 : get_varint_size 300 ≤ 3
unfolding get_varint_size zeros_above
room_for_300 = omega arith

decode_varint-encode_varint_example :
    (out : List ℕ) × (encode_varint buffer 300
      ≡ some (out ++ drop (get_varint_size 300) buffer, get_varint_size 300))
    × (length out ≡ get_varint_size 300)
    × All IsByte out
    × (decode_varint (out ++ 9 ∷ []) ≡ some (get_varint_size 300, 300))
decode_varint-encode_varint_example =
    decode_varint-encode_varint 300 buffer (9 ∷ []) (omega arith) room_for_300

-- A length of 2 ^ 56 has nine bytes, of which an 8-byte span holds eight.
decode_varint-size_t_example : decode_varint (take 8 (groups 9 (2 ^ 56) ++ 1 ∷ [])) ≡ none
decode_varint-size_t_example = decode_varint-size_t (2 ^ 56) (1 ∷ []) (omega arith)

encode_loop-enough_example : encode_loop (9 + 5) buffer 0 300 ≡ encode_loop 9 buffer 0 300
encode_loop-enough_example = encode_loop-enough 5 300 buffer 0 (omega arith)
