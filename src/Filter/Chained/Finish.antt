-- ===== src/Filter/Chained/Finish.antt =====
-- What follows the eviction loop of the map.
use cs.Base.{
  ℕ, ◌+◌, ◌*◌, ◌%◌, ◌<◌, ◌≡◌, refl, ◌⊎◌, inl, inr, true, Option, none, some, List, [], ◌∷◌, length,
  get_or, set, bit_and, ◌==◌, if◌then◌else◌, Bool-cases,
}
use cs.Filter.Run.{ok, ◌>>=◌}
use cs.Filter.Hasher.{Engine}
use cs.Filter.Chained.{
  CuckooMap, map_start_evict, map_evict, map_finish, add_node, push_node, runs_out_first,
}
use cs.Filter.Chained.Contents.{read_chain_ok, write_chain_ok}

add_node_ok {κ} :
    {G : Type κ} (m : CuckooMap G) (cur t : ℕ)
    → t < length m.chains
    → t * (8 + m.bucket_size) % 8 ≡ 0
    → add_node m cur t ≡ ok (record m { chains = set m.chains t (cur ∷ get_or m.chains t []) })
unfolding add_node
add_node_ok m cur t ht at' = rw (
  read_chain_ok m.bucket_size m.chains t ht at',
  ◌>>=◌,
  write_chain_ok m.bucket_size m.chains t (cur ∷ get_or m.chains t []) ht at',
)

pub push_node_ok {κ} :
    {G : Type κ} (m : CuckooMap G) (cur i1 i2 : ℕ)
    → i1 < length m.chains
    → i2 < length m.chains
    → i1 * (8 + m.bucket_size) % 8 ≡ 0
    → i2 * (8 + m.bucket_size) % 8 ≡ 0
    → (t : ℕ) × (t < length m.chains)
      × ((t ≡ i1) ⊎ (t ≡ i2))
      × (push_node m cur i1 i2
          ≡ ok (record m { chains = set m.chains t (cur ∷ get_or m.chains t []) }))
unfolding push_node
push_node_ok m cur i1 i2 h1 h2 a1 a2 =
    elim (Bool-cases (runs_out_first (get_or m.chains i1 []) (get_or m.chains i2 []))) [
      | inl first ↦ (
        i1,
        h1,
        inl refl,
        rw
            (
              read_chain_ok m.bucket_size m.chains i1 h1 a1,
              ◌>>=◌,
              read_chain_ok m.bucket_size m.chains i2 h2 a2,
              first,
            )
            (add_node_ok m cur i1 h1 a1),
      )
      | inr other ↦ (
        i2,
        h2,
        inr refl,
        rw
            (
              read_chain_ok m.bucket_size m.chains i1 h1 a1,
              ◌>>=◌,
              read_chain_ok m.bucket_size m.chains i2 h2 a2,
              other,
            )
            (add_node_ok m cur i2 h2 a2),
      )
    ]

module _ {κ} {G : Type κ} (m : CuckooMap G) (i1 i2 : ℕ) (hand : Option ℕ) (b : List ℕ) (g : G) where
  pub finish_placed :
      hand ≡ none → map_finish m i1 i2 (hand, b, g) ≡ ok (true, record m { slots = b; rng = g })
  unfolding map_finish
  finish_placed e = rw e

  pub finish_left :
      (w : ℕ) (m' : CuckooMap G)
      → hand ≡ some w
      → push_node (record m { slots = b; rng = g }) w i1 i2 ≡ ok m'
      → map_finish m i1 i2 (hand, b, g) ≡ ok (true, m')
  unfolding map_finish
  finish_left w m' e pushed = rw (e, pushed, ◌>>=◌)

pub start_runs {κ} :
    {G : Type κ} ⦃e : Engine G⦄ (hash_byte : ℕ → ℕ) (m : CuckooMap G) (fp i1 i2 i : ℕ)
    (r : Option ℕ × List ℕ × G)
    → (if bit_and (e.draw m.rng).0 1 == 0 then i2 else i1) ≡ i
    → map_evict hash_byte m.bucket_count m.bucket_size fp m.max_kicks i fp m.slots (e.draw m.rng).1
      ≡ ok r
    → map_start_evict hash_byte m fp i1 i2 ≡ map_finish m i1 i2 r
unfolding map_start_evict
start_runs hash_byte m fp i1 i2 i r start ran = rw (start, ran, ◌>>=◌)
