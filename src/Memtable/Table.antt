-- ===== src/Memtable/Table.antt =====
-- `MemTable` of memtable.hpp, over any map that meets the concept `KVMap`.
pub mod SkipList
use mathlib.Core.List.{append_assoc, append-nil}
use cs.Base.{
  ℕ, ◌+◌, ◌^◌, ◌<◌, ◌≡◌, refl, ap, ◌∙◌, Option, none, some, List, [], ◌∷◌, ◌++◌, map, length,
  length-map, All, arith,
}
use cs.Arena.{Ptr}
use cs.Memtable.Memory.{◌>>=◌, Span}
use cs.Memtable.Pairs.{Pair, values_of}
use cs.Memtable.KvStore.Entries.{IsShort}

-- The concept, for a map of type `M`; an insert may also depend on what it meets, of type `T`.
pub record KvMap (M T : Type 0) : Type 0 where
  pub find : M → List ℕ → Option (List Span)
  pub insert : M → T → List ℕ → List ℕ → Option M
  pub used : M → ℕ
  pub size : M → ℕ
  -- the bytes behind a span
  pub bytes_of : M → Span → Option (List ℕ)

-- `std::string_view`
pub record StringView : Type 0 where
  pub data' : Ptr
  pub size : ℕ

abbrev pub as_view : Span → StringView
as_view span = record { data' = span.start; size = span.bytes }

abbrev pub as_span : StringView → Span
as_span view = record { start = view.data'; bytes = view.size }

-- What a map promises, for the pairs that it stands for.
pub record IsKvMap {M T : Type 0} (kv_map : KvMap M T) (Represents : M → List Pair → Type 0)
    : Type 0 where
  pub find-Represents :
      (m : M) (pairs : List Pair) (key : List ℕ)
      → Represents m pairs
      → (spans : List Span) × (kv_map.find m key ≡ some spans)
        × (map (kv_map.bytes_of m) spans ≡ map some (values_of key pairs))
  pub insert-Represents :
      (m : M) (pairs : List Pair) (t : T) (key value : List ℕ)
      → Represents m pairs
      → IsShort key
      → IsShort value
      → (m' : M) × (kv_map.insert m t key value ≡ some m')
        × Represents m' (pairs ++ (key, value) ∷ [])
  pub size-Represents :
      (m : M) (pairs : List Pair) → Represents m pairs → kv_map.size m ≡ length pairs

pub record MemTable (M : Type 0) : Type 0 where
  pub byte_map : M

-- The loop that makes a string of each span.
pub find_views : List Span → List StringView
find_views [] = []
find_views (result ∷ results) = as_view result ∷ find_views results

module _ {M T : Type 0} (kv_map : KvMap M T) where
  pub find : MemTable M → List ℕ → Option (List StringView)
  unfolding find_views
  find table key = do results ← kv_map.find table.byte_map key; some (find_views results)

  pub insert : MemTable M → T → List ℕ → List ℕ → Option (MemTable M)
  insert table t key value = do
    byte_map ← kv_map.insert table.byte_map t key value
    some (record { byte_map = byte_map })

  pub used : MemTable M → ℕ
  used table = kv_map.used table.byte_map

  pub size : MemTable M → ℕ
  size table = kv_map.size table.byte_map

  -- The bytes of a string.
  pub text_of : MemTable M → StringView → Option (List ℕ)
  text_of table view = kv_map.bytes_of table.byte_map (as_span view)

  -- A sequence of inserts.
  pub run_inserts : MemTable M → List (T × Pair) → Option (MemTable M)
  run_inserts table [] = some table
  run_inserts table ((t, (key, value)) ∷ inserts) = do
    table ← insert table t key value
    run_inserts table inserts

abbrev pub pair_of : {T : Type 0} → T × Pair → Pair
pair_of (t, pair) = pair

abbrev pub IsShortInsert : {T : Type 0} → T × Pair → Type 0
IsShortInsert (t, (key, value)) = IsShort key × IsShort value

module _ {M T : Type 0} (kv_map : KvMap M T) (Represents : M → List Pair → Type 0)
    (lawful : IsKvMap kv_map Represents) where
  texts_of-find_views :
      (table : MemTable M) (spans : List Span)
      → map (text_of kv_map table) (find_views spans) ≡ map (kv_map.bytes_of table.byte_map) spans
  unfolding find_views text_of
  texts_of-find_views table [] = refl
  texts_of-find_views table (span ∷ spans) =
      ap (λ t. kv_map.bytes_of table.byte_map span ∷ t) (texts_of-find_views table spans)

  -- The inserts succeed and add their pairs.
  run_inserts-Represents :
      (table : MemTable M) (pairs : List Pair) (inserts : List (T × Pair))
      → Represents table.byte_map pairs
      → All IsShortInsert inserts
      → (table' : MemTable M) × (run_inserts kv_map table inserts ≡ some table')
        × Represents table'.byte_map (pairs ++ map pair_of inserts)
  unfolding run_inserts insert
  run_inserts-Represents table pairs [] stands short = (table, refl, rw (append-nil pairs) stands)
  run_inserts-Represents table pairs ((t, (key, value)) ∷ inserts) stands short =
      let (m, run, stands') =
        lawful.insert-Represents table.byte_map pairs t key value stands short.0.0 short.0.1 in
      let (table', ran, stands'') =
        run_inserts-Represents (record { byte_map = m }) (pairs ++ (key, value) ∷ []) inserts
          stands' short.1 in
      (
        table',
        rw run ran,
        rw (append_assoc pairs ((key, value) ∷ []) (map pair_of inserts)) at stands'',
      )

  -- What a table answers after a sequence of inserts into an empty map.
  pub find-run_inserts :
      (m : M) (inserts : List (T × Pair))
      → Represents m []
      → All IsShortInsert inserts
      → (table : MemTable M) × (run_inserts kv_map (record { byte_map = m }) inserts ≡ some table)
        × ((key : List ℕ)
            → (views : List StringView) × (find kv_map table key ≡ some views)
              × (map (text_of kv_map table) views ≡ map some (values_of key (map pair_of inserts))))
        × (size kv_map table ≡ length inserts)
  unfolding find size
  find-run_inserts m inserts stands short =
      let (table, run, stands') =
        run_inserts-Represents (record { byte_map = m }) [] inserts stands short in
      (
        table,
        run,
        (λ key.
            let (spans, found, bytes) =
              lawful.find-Represents table.byte_map (map pair_of inserts) key stands' in
            (find_views spans, rw found refl, texts_of-find_views table spans ∙ bytes)),
        lawful.size-Represents table.byte_map (map pair_of inserts) stands'
            ∙ length-map pair_of inserts,
      )
