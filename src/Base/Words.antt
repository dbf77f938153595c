-- ===== src/Base/Words.antt =====
-- 64-bit words, and bytes. A `size_t` or `uint64_t` is a number below `u64_mod`.
use Prim.Native.Nat.{ℕ, ◌^◌, ◌<◌}

abbrev pub u64_mod : ℕ
u64_mod = 2 ^ 64

abbrev pub IsByte : ℕ → Type 0
IsByte b = b < 256

abbrev pub IsU64 : ℕ → Type 0
IsU64 v = v < 2 ^ 64
