-- ===== src/Filter/Stream/Parse.antt =====
-- What a reader makes of the bytes that stand for a value, and of a part of them.
use mathlib.Core.List.{append_assoc, append-nil}
use native.Mathlib.Nat.{pow-suc, sub-zero}
use native.Mathlib.Decide.{dec_lt}
use cs.Base.{
  ℕ, zero, suc, ◌+◌, ◌-◌, ◌/◌, ◌^◌, ◌≤◌, ◌<◌, ◌≡◌, refl, Bool, true, false, ap, min, List, [], ◌∷◌,
  ◌++◌, length, length-append, length-take, take, take-append_exact, drop-append_exact,
  take-append_le, take-append_ge, ltb, lt→ltb, not-ltb, if◌then◌else◌, arith,
}
use cs.Base.Words.{IsU64}
use cs.Filter.Run.{Run, ok, throws, runtime_error, ◌>>=◌}
use cs.Filter.Stream.{
  to_bytes, from_bytes, read_size, read_byte, read_bytes, Output, fwrite, write_items, Header,
  read_header,
}

-- Before any other bytes the reader takes the bytes and gives the value; at the end of the file it
-- throws where one or more of them are missing.
pub record Parses {ℓ} {A : Type ℓ} (reader : List ℕ → Run (A × List ℕ)) (bytes : List ℕ) (a : A)
    : Type ℓ where
  pub whole : (rest : List ℕ) → reader (bytes ++ rest) ≡ ok (a, rest)
  pub cut : (n : ℕ) → n < length bytes → reader (take n bytes) ≡ throws runtime_error

pub return-Parses {ℓ} : {A : Type ℓ} (a : A) → Parses (λ file. ok (a, file)) [] a
return-Parses a = record { whole = λ rest. refl; cut = λ n lt. absurd (omega arith) }

-- One reader after the other.
pub bind-Parses {ℓ κ} :
    {A : Type ℓ} {B : Type κ} {first : List ℕ → Run (A × List ℕ)}
    (next : A → List ℕ → Run (B × List ℕ)) {xs ys : List ℕ} {a : A} {b : B}
    → Parses first xs a
    → Parses (next a) ys b
    → Parses (λ file. first file >>= (λ r. next r.0 r.1)) (xs ++ ys) b
bind-Parses {first} next {xs} {ys} {a} {b} p q = record {
  whole = λ rest. rw (append_assoc xs ys rest, p.whole (ys ++ rest)) (q.whole rest);
  cut = λ n lt. elim (dec_lt n (length xs)) [
    | yes early ↦ rw (take-append_le n xs ys (omega arith), p.cut n early) refl
    | no late ↦
        let size = length-append xs ys in
        rw (take-append_ge n xs ys (omega arith), p.whole (take (n - length xs) ys))
          (q.cut (n - length xs) (omega arith))
  ];
}

-- A result computed from what a reader gives.
pub map-Parses {ℓ κ} :
    {A : Type ℓ} {B : Type κ} {reader : List ℕ → Run (A × List ℕ)} (f : A → B) {xs : List ℕ} {a : A}
    → Parses reader xs a
    → Parses (λ file. reader file >>= (λ r. ok (f r.0, r.1))) xs (f a)
map-Parses f p = record {
  whole = λ rest. rw (p.whole rest) refl;
  cut = λ n lt. rw (p.cut n lt) refl;
}

-- After a step that does not read.
pub step-Parses {ℓ κ} :
    {A : Type ℓ} {B : Type κ} {step : Run A} (next : A → List ℕ → Run (B × List ℕ)) {xs : List ℕ}
    {a : A} {b : B}
    → step ≡ ok a
    → Parses (next a) xs b
    → Parses (λ file. step >>= (λ r. next r file)) xs b
step-Parses next e p = record {
  whole = λ rest. rw e (p.whole rest);
  cut = λ n lt. rw e (p.cut n lt);
}

-- Before a last step that does not read.
pub finish-Parses {ℓ κ} :
    {A : Type ℓ} {B : Type κ} {first : List ℕ → Run (A × List ℕ)} (step : A → Run B) {xs : List ℕ}
    {a : A} {b : B}
    → Parses first xs a
    → step a ≡ ok b
    → Parses (λ file. first file >>= (λ r. step r.0 >>= (λ c. ok (c, r.1)))) xs b
finish-Parses step {xs} {a} {b} p e = rw (append-nil xs) at (
    bind-Parses (λ a file. step a >>= (λ c. ok (c, file))) p
      (step-Parses (λ c file. ok (c, file)) e (return-Parses b)))

-- Where the test succeeds.
pub guard-Parses {ℓ} :
    {A : Type ℓ} {reader : List ℕ → Run (A × List ℕ)} (other : Run (A × List ℕ)) (test : Bool)
    {xs : List ℕ} {a : A}
    → test ≡ true
    → Parses reader xs a
    → Parses (λ file. if test then reader file else other) xs a
guard-Parses other test e p = record {
  whole = λ rest. rw e (p.whole rest);
  cut = λ n lt. rw e (p.cut n lt);
}

pub length-to_bytes : (n v : ℕ) → length (to_bytes n v) ≡ n
unfolding to_bytes
length-to_bytes zero v = refl
length-to_bytes (suc n) v = ap suc (length-to_bytes n (v / 256))

from_bytes-to_bytes : (n v : ℕ) → v < 256 ^ n → from_bytes (to_bytes n v) ≡ v
unfolding from_bytes to_bytes
from_bytes-to_bytes zero v h = omega arith
from_bytes-to_bytes (suc n) v h =
    let below : v / 256 < 256 ^ n = omega (arith, pow-suc 256 n) in
    omega (arith, from_bytes-to_bytes n (v / 256) below)

pub read_size-Parses : (v : ℕ) → IsU64 v → Parses read_size (to_bytes 8 v) v
unfolding read_size
read_size-Parses v h = record {
  whole = λ rest.
      let size = length-to_bytes 8 v in
      let long : ltb (length (to_bytes 8 v ++ rest)) 8 ≡ false =
        not-ltb (length (to_bytes 8 v ++ rest)) 8
          (λ short. omega (arith, length-append (to_bytes 8 v) rest)) in
      rw
        (
          long,
          take-append_exact 8 (to_bytes 8 v) rest size,
          drop-append_exact 8 (to_bytes 8 v) rest size,
          from_bytes-to_bytes 8 v (omega arith),
        )
        refl;
  cut = λ n lt.
      let size = length-to_bytes 8 v in
      rw
        (lt→ltb (length (take n (to_bytes 8 v))) 8
          (omega (arith, length-take n (to_bytes 8 v) (omega arith))))
        refl;
}

pub read_byte-Parses : (b : ℕ) → Parses read_byte (b ∷ []) b
unfolding read_byte
read_byte-Parses b = record {
  whole = λ rest. refl;
  cut = λ n lt. let none_left : n ≡ 0 = omega arith in rw none_left refl;
}

pub read_bytes-Parses : (n : ℕ) (bs : List ℕ) → length bs ≡ n → Parses (read_bytes n) bs bs
unfolding read_bytes
read_bytes-Parses n bs size = record {
  whole = λ rest.
      let long : ltb (length (bs ++ rest)) n ≡ false =
        not-ltb (length (bs ++ rest)) n (λ short. omega (arith, length-append bs rest)) in
      rw (long, take-append_exact n bs rest size, drop-append_exact n bs rest size) refl;
  cut = λ j lt.
      rw (lt→ltb (length (take j bs)) n (omega (arith, length-take j bs (omega arith)))) refl;
}

take_all : (bs : List ℕ) → take (length bs) bs ≡ bs
take_all [] = refl
take_all (b ∷ bs) = ap (λ t. b ∷ t) (take_all bs)

-- The file after more bytes.
unfoldable pub extend : Output → List ℕ → Output
extend out bytes = record { written = out.written ++ bytes; room = out.room - length bytes }

pub extend_none : (out : Output) → extend out [] ≡ out
unfolding extend
extend_none out = rw (append-nil out.written, sub-zero out.room) refl

pub room-extend :
    (out : Output) (bytes : List ℕ) → (extend out bytes).room ≡ out.room - length bytes
unfolding extend
room-extend out bytes = refl

pub written-extend :
    (out : Output) (bytes : List ℕ) → (extend out bytes).written ≡ out.written ++ bytes
unfolding extend
written-extend out bytes = refl

pub extend-append :
    (out : Output) (xs ys : List ℕ) → extend (extend out xs) ys ≡ extend out (xs ++ ys)
unfolding extend
extend-append out xs ys =
    let left : out.room - length xs - length ys ≡ out.room - length (xs ++ ys) =
      omega (arith, length-append xs ys) in
    rw (append_assoc out.written xs ys, left) refl

pub fwrite-all :
    (size : ℕ) (bytes : List ℕ) (out : Output)
    → length bytes ≤ out.room
    → fwrite size bytes out ≡ (length bytes / size, extend out bytes)
unfolding fwrite extend
fwrite-all size bytes out enough =
    let all : min (length bytes) out.room ≡ length bytes = omega arith in
    rw (all, take_all bytes) refl

-- With room enough, a number or some bytes are written.
pub write_size-all :
    (v : ℕ) (out : Output)
    → 8 ≤ out.room
    → write_items 8 1 (to_bytes 8 v) out ≡ ok (extend out (to_bytes 8 v))
unfolding write_items
write_size-all v out enough =
    let size = length-to_bytes 8 v in rw (fwrite-all 8 (to_bytes 8 v) out (omega arith), size) refl

-- The header.
abbrev pub header_bytes : Header → List ℕ
header_bytes h =
    to_bytes 8 h.bucket_count
    ++ (to_bytes 8 h.bucket_size ++ (to_bytes 8 h.fingerprint_size ++ to_bytes 8 h.max_kicks))

pub length-header_bytes :
    (h : Header) (rest : List ℕ) → length (header_bytes h ++ rest) ≡ 32 + length rest
length-header_bytes h rest =
    let a = to_bytes 8 h.bucket_count in
    let b = to_bytes 8 h.bucket_size in
    let c = to_bytes 8 h.fingerprint_size in
    let d = to_bytes 8 h.max_kicks in
    omega (
      arith,
      length-to_bytes 8 h.bucket_count,
      length-to_bytes 8 h.bucket_size,
      length-to_bytes 8 h.fingerprint_size,
      length-to_bytes 8 h.max_kicks,
      length-append (a ++ (b ++ (c ++ d))) rest,
      length-append a (b ++ (c ++ d)),
      length-append b (c ++ d),
      length-append c d,
    )

abbrev pub IsHeader : Header → Type 0
IsHeader h =
    IsU64 h.bucket_count × IsU64 h.bucket_size × IsU64 h.fingerprint_size × IsU64 h.max_kicks

pub read_header-Parses : (h : Header) → IsHeader h → Parses read_header (header_bytes h) h
unfolding read_header
read_header-Parses h (a, b, c, d) = bind-Parses _ (read_size-Parses h.bucket_count a) (
    bind-Parses _ (read_size-Parses h.bucket_size b) (
      bind-Parses _ (read_size-Parses h.fingerprint_size c)
        (map-Parses _ (read_size-Parses h.max_kicks d))))
