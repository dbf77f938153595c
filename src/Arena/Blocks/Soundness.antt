-- ===== src/Arena/Blocks/Soundness.antt =====
-- A call keeps what the arena has to keep for its blocks.
use mathlib.Core.Path.{subst}
use native.Mathlib.Decide.{dec_lt, ℕ_discrete}
use cs.Base.{
  ℕ, ◌+◌, ◌-◌, ◌^◌, ◌≤◌, ◌<◌, ◌≡◌, refl, sym, ◌∙◌, inl, inr, Option, none, some, List, [], ◌∷◌,
  ◌++◌, length, length-append, get_or-append_left, get_or-append_length, All-imp, arith,
  Option-cases,
}
use cs.Arena.{Ptr, Arena, allocate, allocate_slab, add64, sub64}
use cs.Arena.Blocks.Requests.{
  Request, piece, whole, Block, serve, IsInside, IsApart, IsPositive, IsActive, IsSound,
}

-- A slab that is added changes nothing for the blocks in the others.
module _ (slabs : List ℕ) (n : ℕ) where
  IsInside-append : (b : Block) → IsInside slabs b → IsInside (slabs ++ n ∷ []) b
  IsInside-append b h =
      rw (length-append, get_or-append_left slabs (n ∷ []) b.slab 0 h.0) (omega arith)

  new_block :
      (size : ℕ)
      → size ≤ n
      → IsInside (slabs ++ n ∷ []) (record { slab = length slabs; offset = 0; bytes = size })
  new_block size h = rw (length-append, get_or-append_length) (omega arith)

  new-IsApart :
      (size : ℕ) (b : Block)
      → IsInside slabs b
      → IsApart (record { slab = length slabs; offset = 0; bytes = size }) b
  new-IsApart size b h = inl (omega arith)

module _ (a : Arena) (bs : List Block) (sound : IsSound a bs) (n : ℕ) where
  own-IsActive :
      (used size : ℕ) (o : Option Ptr)
      → IsActive a bs o
      → IsActive
          (record a { used = used; size = size; slabs = a.slabs ++ n ∷ [] })
          (record { slab = length a.slabs; offset = 0; bytes = n } ∷ bs)
          o
  own-IsActive used size none h = h
  own-IsActive used size (some p) (there, start, full, below) = (
    rw length-append (omega arith),
    start,
    get_or-append_left a.slabs (n ∷ []) p.slab 0 there ∙ full,
    (λ e. absurd (omega arith), below),
  )

  -- A slab of its own.
  own_slab :
      (used size : ℕ)
      → IsSound
          (record a { used = used; size = size; slabs = a.slabs ++ n ∷ [] })
          (record { slab = length a.slabs; offset = 0; bytes = n } ∷ bs)
  own_slab used size = record {
    positive = sound.positive;
    small = sound.small;
    room = sound.room;
    active = own-IsActive used size a.active_slab sound.active;
    inside =
        (new_block a.slabs n n (omega arith), All-imp bs (IsInside-append a.slabs n) sound.inside);
    apart = (All-imp bs (new-IsApart a.slabs n n) sound.inside, sound.apart);
  }

  -- The front of a new active slab.
  new_active :
      (used unused size left : ℕ)
      → left + n ≡ a.slab_size
      → IsSound
          (record a {
            used = used;
            unused = unused;
            size = size;
            slabs = a.slabs ++ a.slab_size ∷ [];
            active_slab = some (record { slab = length a.slabs; offset = 0 });
            active_slab_unused = left;
          })
          (record { slab = length a.slabs; offset = 0; bytes = n } ∷ bs)
  new_active used unused size left e = record {
    positive = sound.positive;
    small = sound.small;
    room = omega arith;
    active = (
      rw length-append (omega arith),
      refl,
      get_or-append_length a.slabs a.slab_size [] 0,
      (λ _. omega arith, All-imp bs (λ b h same. absurd (omega arith)) sound.inside),
    );
    inside = (
      new_block a.slabs a.slab_size n (omega arith),
      All-imp bs (IsInside-append a.slabs a.slab_size) sound.inside,
    );
    apart = (All-imp bs (new-IsApart a.slabs a.slab_size n) sound.inside, sound.apart);
  }

  -- The front of what is unused of the active slab.
  next_piece :
      (p : Ptr) (used unused left : ℕ)
      → a.active_slab ≡ some p
      → left + n ≡ a.active_slab_unused
      → IsSound
          (record a { used = used; unused = unused; active_slab_unused = left })
          (record {
            slab = p.slab;
            offset = p.offset + (a.slab_size - a.active_slab_unused);
            bytes = n;
          }
            ∷ bs)
  next_piece p used unused left e cut =
      let (there, start, full, below) = subst (IsActive a bs) e sound.active in
      let room = sound.room in
      let a' : Arena = record a { used = used; unused = unused; active_slab_unused = left } in
      let block : Block = record {
        slab = p.slab;
        offset = p.offset + (a.slab_size - a.active_slab_unused);
        bytes = n;
      } in
      record {
        positive = sound.positive;
        small = sound.small;
        room = omega arith;
        active = subst (IsActive a' (block ∷ bs)) (sym e) (
          there,
          start,
          full,
          (λ _. omega arith, All-imp bs (λ b h same. omega (arith, h same)) below),
        );
        inside = ((there, omega arith), sound.inside);
        apart = (
          All-imp bs
              (λ b h. elim (ℕ_discrete b.slab p.slab) [
                | yes same ↦ inr (inr (omega (arith, h same)))
                | no other ↦ inl (λ same. other (sym same))
              ])
              below,
          sound.apart,
        );
      }

  -- An arena with no active slab has nothing left in one.
  some_active : 0 < a.active_slab_unused → (p : Ptr) × (a.active_slab ≡ some p)
  some_active some_left = elim (Option-cases a.active_slab) [
    | inr found ↦ found
    | inl missing ↦
        let none_left : a.active_slab_unused ≡ 0 = subst (IsActive a bs) missing sound.active in
        absurd (omega arith)
  ]

  sub64_exact : (x y : ℕ) → y ≤ x → x < 2 ^ 64 → sub64 x y + y ≡ x
  sub64_exact x y le lt = omega arith

  serve_piece :
      0 < n → (b : Block) × (a' : Arena) × (serve a (piece n) ≡ some (b, a')) × IsSound a' (b ∷ bs)
  unfolding serve allocate
  serve_piece pos = elim (dec_lt n a.slab_size) [
    | no large ↦ (
      record { slab = length a.slabs; offset = 0; bytes = n },
      record a { used = add64 a.used n; size = add64 a.size n; slabs = a.slabs ++ n ∷ [] },
      ground arith,
      own_slab (add64 a.used n) (add64 a.size n),
    )
    | yes cut ↦ elim (dec_lt a.active_slab_unused n) [
      | yes full ↦ (
        record { slab = length a.slabs; offset = 0; bytes = n },
        record a {
          used = add64 a.used n;
          unused = add64 a.unused (sub64 (add64 a.active_slab_unused a.slab_size) n);
          size = add64 a.size a.slab_size;
          slabs = a.slabs ++ a.slab_size ∷ [];
          active_slab = some (record { slab = length a.slabs; offset = 0 });
          active_slab_unused = sub64 a.slab_size n;
        },
        ground arith,
        new_active _ _ _ (sub64 a.slab_size n)
            (sub64_exact a.slab_size n (omega arith) sound.small),
      )
      | no fits ↦
          let (p, e) = some_active (omega arith) in
          (
            record {
              slab = p.slab;
              offset = p.offset + (a.slab_size - a.active_slab_unused);
              bytes = n;
            },
            record a {
              used = add64 a.used n;
              unused = sub64 a.unused n;
              active_slab_unused = sub64 a.active_slab_unused n;
            },
            ground (arith, e),
            next_piece p _ _ (sub64 a.active_slab_unused n) e (
                sub64_exact a.active_slab_unused n (omega arith)
                  (omega (arith, sound.room, sound.small))),
          )
    ]
  ]

  serve_whole :
      (b : Block) × (a' : Arena) × (serve a (whole n) ≡ some (b, a')) × IsSound a' (b ∷ bs)
  unfolding serve allocate_slab
  serve_whole = (
    record { slab = length a.slabs; offset = 0; bytes = n },
    record a { used = add64 a.used n; size = add64 a.size n; slabs = a.slabs ++ n ∷ [] },
    refl,
    own_slab (add64 a.used n) (add64 a.size n),
  )

pub serve-IsSound :
    (a : Arena) (bs : List Block) (r : Request)
    → IsSound a bs
    → IsPositive r
    → (b : Block) × (a' : Arena) × (serve a r ≡ some (b, a')) × IsSound a' (b ∷ bs)
serve-IsSound a bs (piece n) sound pos = serve_piece a bs sound n pos
serve-IsSound a bs (whole n) sound pos = serve_whole a bs sound n
