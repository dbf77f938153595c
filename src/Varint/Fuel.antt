-- ===== src/Varint/Fuel.antt =====
-- The fuel of the encoder's loop is enough.
use native.Mathlib.Nat.{pow-suc}
use cs.Base.{
  ℕ, zero, suc, ◌+◌, ◌/◌, ◌^◌, ◌<◌, ◌≡◌, refl, bit_and, bit_or, List, Option-cases, Bool-cases, ltb,
  inl, inr, arith,
}
use cs.Base.Words.{IsU64}
use cs.Varint.{write_at, encode_loop}

encode_loop-more :
    (k more v : ℕ) (data' : List ℕ) (i : ℕ)
    → v < 128 ^ suc k
    → encode_loop (k + more) data' i v ≡ encode_loop k data' i v
unfolding encode_loop
encode_loop-more zero zero v data' i h = refl
encode_loop-more zero (suc more) v data' i h = ground arith
encode_loop-more (suc k) more v data' i h =
    let next : suc k + more ≡ suc (k + more) = omega arith in
    rw next (elim (Bool-cases (ltb 0x7f v)) [
      | inr last ↦ rw (encode_loop, last) refl
      | inl longer ↦ elim (Option-cases (write_at data' i (bit_or (bit_and v 0x7f) 0x80))) [
        | inl outside ↦ rw (encode_loop, longer, outside) refl
        | inr (d, inside) ↦
            rw
              (
                encode_loop,
                longer,
                inside,
                encode_loop-more k more (v / 2 ^ 7) d (i + 1) (omega (arith, pow-suc 128 (suc k))),
              )
              refl
      ]
    ])

-- On a `uint64_t` the loop of the encoder ends within 9 further rounds: with any more fuel the
-- result is the same.
pub encode_loop-enough :
    (more v : ℕ) (data' : List ℕ) (i : ℕ)
    → IsU64 v
    → encode_loop (9 + more) data' i v ≡ encode_loop 9 data' i v
encode_loop-enough more v data' i h = encode_loop-more 9 more v data' i (omega arith)
