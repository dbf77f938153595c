-- ===== src/Memtable/KvStore/Read.antt =====
-- What the readers find behind the pointer of a pair that the store holds.
use mathlib.Core.List.{append_assoc}
use cs.Base.{
  ℕ, ◌+◌, ◌^◌, ◌≤◌, ◌<◌, ◌≡◌, refl, some, List, [], ◌∷◌, ◌++◌, length, length-append, get_or, All,
  All-imp, lt→ltb, arith,
}
use cs.Arena.{Ptr, add64}
use cs.Arena.Blocks.{IsInside}
use cs.Arena.Splitting.{drop_regions}
use cs.Arena.Concurrent.{Turn}
use cs.Arena.Concurrent.Regions.{regions}
use cs.Varint.Groups.{groups}
use cs.Varint.Width.{get_varint_size-groups, length-groups_bounds}
use cs.Varint.RoundTrip.{decode_varint-size_t}
use cs.Memtable.Memory.{Span, shift, bytes_at}
use cs.Memtable.Memory.Laws.{bytes_at-split, view-stored, contents-stored}
use cs.Memtable.Compare.{compare}
use cs.Memtable.KvStore.{
  KvStore, decode_at, bytes_of, insert, get, get_key, get_value, get_size, compare_at, hash_at,
}
use cs.Memtable.KvStore.Entries.{
  Entry, entry_bytes, entry_blocks, IsStored, IsShort, Holds, length_four,
}
use cs.Memtable.KvStore.Insert.{insert-Holds}

-- That a string stands at a place inside its slab.
record StandsAt (kvs : KvStore) (p : Ptr) (bs : List ℕ) : Type 0 where
  stored : bytes_at kvs.memory p.slab p.offset (length bs) ≡ bs
  fits : p.offset + length bs ≤ get_or kvs.arena.arena.slabs p.slab 0

-- What `get` gives for a pair.
abbrev pub key_span : Entry → Span
key_span e = record { start = shift e.ptr (length (groups 9 (length e.key))); bytes = length e.key }

abbrev pub value_span : Entry → Span
value_span e = record {
  start =
      shift e.ptr
        (length (groups 9 (length e.key)) + length e.key + length (groups 9 (length e.value)));
  bytes = length e.value;
}

module _ (kvs : KvStore) where
  StandsAt-split :
      (p : Ptr) (xs ys : List ℕ)
      → StandsAt kvs p (xs ++ ys)
      → StandsAt kvs p xs × StandsAt kvs (shift p (length xs)) ys
  StandsAt-split p xs ys h =
      let (first, second) = bytes_at-split kvs.memory p.slab p.offset xs ys h.stored in
      let size = length-append xs ys in
      let room = h.fits in
      (
        record { stored = first; fits = omega arith },
        record { stored = second; fits = omega arith },
      )

  decode_at-stored :
      (p : Ptr) (v : ℕ) (ys : List ℕ)
      → StandsAt kvs p (groups 9 v ++ ys)
      → v < 2 ^ 56
      → decode_at kvs p ≡ some (length (groups 9 v), v)
  unfolding decode_at
  decode_at-stored p v ys h small =
      let (rest, seen) =
        view-stored kvs.arena.arena.slabs kvs.memory p (groups 9 v ++ ys) h.stored h.fits in
      let size = get_varint_size-groups v (omega arith) in
      rw (seen 8, append_assoc (groups 9 v) ys rest)
        (rw (lt→ltb v (2 ^ 56) small, size) at (decode_varint-size_t v (ys ++ rest) (omega arith)))

  bytes_of-stored :
      (p : Ptr) (bs : List ℕ)
      → StandsAt kvs p bs
      → bytes_of kvs (record { start = p; bytes = length bs }) ≡ some bs
  unfolding bytes_of
  bytes_of-stored p bs h = contents-stored kvs.arena.arena.slabs kvs.memory p bs h.stored h.fits

  -- What the readers need to know of a pair.
  record IsReadable (e : Entry) : Type 0 where
    key_size : decode_at kvs e.ptr ≡ some (length (groups 9 (length e.key)), length e.key)
    value_size :
        decode_at kvs (shift e.ptr (length (groups 9 (length e.key)) + length e.key))
        ≡ some (length (groups 9 (length e.value)), length e.value)
    key_bytes : bytes_of kvs (key_span e) ≡ some e.key
    value_bytes : bytes_of kvs (value_span e) ≡ some e.value

  stored-IsReadable :
      (e : Entry)
      → StandsAt kvs e.ptr (entry_bytes e.key e.value)
      → IsShort e.key
      → IsShort e.value
      → IsReadable e
  stored-IsReadable e h k v =
      let gk = groups 9 (length e.key) in
      let gv = groups 9 (length e.value) in
      let (_, behind_size) = StandsAt-split e.ptr gk (e.key ++ (gv ++ e.value)) h in
      let (at_key, behind_key) =
        StandsAt-split (shift e.ptr (length gk)) e.key (gv ++ e.value) behind_size in
      let (_, at_value) =
        StandsAt-split (shift (shift e.ptr (length gk)) (length e.key)) gv e.value behind_key in
      let near : e.ptr.offset + (length gk + length e.key)
          ≡ e.ptr.offset + length gk + length e.key =
        omega arith in
      let far : e.ptr.offset + (length gk + length e.key + length gv)
          ≡ e.ptr.offset + length gk + length e.key + length gv =
        omega arith in
      record {
        key_size = decode_at-stored e.ptr (length e.key) _ h k;
        value_size = rw near (decode_at-stored _ (length e.value) e.value behind_key v);
        key_bytes = bytes_of-stored _ e.key at_key;
        value_bytes = rw far (bytes_of-stored _ e.value at_value);
      }

  -- All of its readers agree on a pair.
  abbrev pub Reads : Entry → Type 0
  Reads e =
      (get kvs e.ptr ≡ some (key_span e, value_span e))
      × (bytes_of kvs (key_span e) ≡ some e.key)
      × (bytes_of kvs (value_span e) ≡ some e.value)
      × (get_key kvs e.ptr ≡ some (key_span e))
      × (get_value kvs e.ptr ≡ some (value_span e))
      × (get_size kvs e.ptr ≡ some (length (entry_bytes e.key e.value)))

  IsReadable-Reads : (e : Entry) → IsReadable e → IsShort e.key → IsShort e.value → Reads e
  unfolding get get_key get_value get_size
  IsReadable-Reads e r k v =
      let gk = groups 9 (length e.key) in
      let gv = groups 9 (length e.value) in
      let few_key = length-groups_bounds (length e.key) (omega arith) in
      let few_value = length-groups_bounds (length e.value) (omega arith) in
      let size = length_four gk e.key gv e.value in
      let near : add64 (length gk) (length e.key) ≡ length gk + length e.key = omega arith in
      let far : add64 (length gk + length e.key) (length gv)
          ≡ length gk + length e.key + length gv =
        omega arith in
      let all : add64 (length gk + length e.key + length gv) (length e.value)
          ≡ length (entry_bytes e.key e.value) =
        omega arith in
      (
        rw (r.key_size, near, r.value_size, far) refl,
        r.key_bytes,
        r.value_bytes,
        rw r.key_size refl,
        rw (r.key_size, near, r.value_size, far) refl,
        rw (r.key_size, near, r.value_size, far, all) refl,
      )

  all-IsReadable :
      (es : List Entry)
      → All (IsInside kvs.arena.arena.slabs) (entry_blocks es)
      → All (IsStored kvs.memory) es
      → All (λ e. IsShort e.key × IsShort e.value) es
      → All (λ e. IsReadable e × IsShort e.key × IsShort e.value) es
  all-IsReadable [] inside stored short = tt
  all-IsReadable (e ∷ es) inside stored short = (
    (
      stored-IsReadable e (record { stored = stored.0; fits = inside.0.1 }) short.0.0 short.0.1,
      short.0.0,
      short.0.1,
    ),
    all-IsReadable es inside.1 stored.1 short.1,
  )

  Holds-IsReadable :
      (es : List Entry)
      → Holds kvs es
      → All (λ e. IsReadable e × IsShort e.key × IsShort e.value) es
  Holds-IsReadable es holds =
      let sound = drop_regions kvs.arena.arena (regions kvs.arena.shards) _ holds.serving.sound in
      all-IsReadable es sound.inside holds.stored holds.short

  pub Holds-Reads : (es : List Entry) → Holds kvs es → All Reads es
  Holds-Reads es holds =
      All-imp es (λ e h. IsReadable-Reads e h.0 h.1 h.2) (Holds-IsReadable es holds)

  compare_two :
      (a b : Entry)
      → IsReadable a
      → IsReadable b
      → compare_at kvs a.ptr b.ptr ≡ some (compare a.key b.key)
  unfolding compare_at
  compare_two a b ra rb = rw (ra.key_size, rb.key_size, ra.key_bytes, rb.key_bytes) refl

  hash_one :
      (hash : List ℕ → ℕ) (e : Entry) → IsReadable e → hash_at kvs hash e.ptr ≡ some (hash e.key)
  unfolding hash_at
  hash_one hash e r = rw (r.key_size, r.key_bytes) refl

  -- In a store that holds some pairs, keys and values below 2 ^ 56 bytes, comparing two pointers
  -- compares the keys behind them, and the hash of a pointer is that of its key.
  pub compare_at-compare :
      (hash : List ℕ → ℕ) (es : List Entry)
      → Holds kvs es
      → All
          (λ a.
            All (λ b. compare_at kvs a.ptr b.ptr ≡ some (compare a.key b.key)) es
            × (hash_at kvs hash a.ptr ≡ some (hash a.key)))
          es
  compare_at-compare hash es holds =
      let readable = Holds-IsReadable es holds in
      All-imp es
        (λ a ra. (All-imp es (λ b rb. compare_two a b ra.0 rb.0) readable, hash_one hash a ra.0))
        readable

-- In a store that holds some pairs, `insert` of a key and a value below 2 ^ 56 bytes returns with
-- any turn, and the new store holds the new pair and all earlier ones: for each of them `get`
-- gives two spans with its key and its value, `get_key` and `get_value` give the same spans,
-- and `get_size` gives the number of bytes of the pair.
pub get-insert :
    (kvs : KvStore) (es : List Entry) (t : Turn) (key value : List ℕ)
    → Holds kvs es
    → IsShort key
    → IsShort value
    → (ptr : Ptr) × (kvs' : KvStore) × (insert kvs t key value ≡ some (ptr, kvs'))
      × Holds kvs' (record { ptr = ptr; key = key; value = value } ∷ es)
      × All (Reads kvs') (record { ptr = ptr; key = key; value = value } ∷ es)
get-insert kvs es t key value holds k v =
    let (ptr, kvs', run, holds') = insert-Holds kvs t key value k v es holds in
    (ptr, kvs', run, holds', Holds-Reads kvs' _ holds')
