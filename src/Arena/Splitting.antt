-- ===== src/Arena/Splitting.antt =====
-- Blocks that an arena handed out may be cut, dropped and listed in another order.
use cs.Base.{
  ℕ, ◌+◌, ◌-◌, ◌≤◌, sym, inl, inr, Option, none, some, List, [], ◌∷◌, ◌++◌, All, All-imp, arith,
}
use cs.Arena.{Ptr, Arena}
use cs.Arena.Blocks.{Block, IsApart, AllApart, IsActive, IsSound}

IsApart-sym : (b c : Block) → IsApart b c → IsApart c b
IsApart-sym b c (inl other) = inl (λ e. other (sym e))
IsApart-sym b c (inr (inl before)) = inr (inr before)
IsApart-sym b c (inr (inr behind)) = inr (inl behind)

module _ {ℓ κ} {A : Type ℓ} (P : A → Type κ) where
  pub All-out : (us : List A) (b : A) (vs : List A) → All P (us ++ b ∷ vs) → All P (b ∷ us ++ vs)
  All-out [] b vs h = h
  All-out (u ∷ us) b vs (hu, rest) = let (hb, tail) = All-out us b vs rest in (hb, (hu, tail))

  pub All-in : (us : List A) (b : A) (vs : List A) → All P (b ∷ us ++ vs) → All P (us ++ b ∷ vs)
  All-in [] b vs h = h
  All-in (u ∷ us) b vs (hb, (hu, tail)) = (hu, All-in us b vs (hb, tail))

AllApart-out :
    (us : List Block) (b : Block) (vs : List Block)
    → AllApart (us ++ b ∷ vs)
    → AllApart (b ∷ us ++ vs)
AllApart-out [] b vs h = h
AllApart-out (u ∷ us) b vs (hu, rest) =
    let (ub, tail) = All-out (IsApart u) us b vs hu in
    let (hb, apart) = AllApart-out us b vs rest in ((IsApart-sym u b ub, hb), (tail, apart))

AllApart-in :
    (us : List Block) (b : Block) (vs : List Block)
    → AllApart (b ∷ us ++ vs)
    → AllApart (us ++ b ∷ vs)
AllApart-in [] b vs h = h
AllApart-in (u ∷ us) b vs ((bu, hb), (tail, apart)) =
    (All-in (IsApart u) us b vs (IsApart-sym b u bu, tail), AllApart-in us b vs (hb, apart))

module _ (a : Arena) where
  relist-IsActive :
      (bs cs' : List Block) (o : Option Ptr)
      → ((P : Block → Type 0) → All P bs → All P cs')
      → IsActive a bs o
      → IsActive a cs' o
  relist-IsActive bs cs' none f h = h
  relist-IsActive bs cs' (some p) f (there, start, full, below) = (there, start, full, f _ below)

  relist-IsSound :
      (bs cs' : List Block)
      → ((P : Block → Type 0) → All P bs → All P cs')
      → (AllApart bs → AllApart cs')
      → IsSound a bs
      → IsSound a cs'
  relist-IsSound bs cs' f g sound = record {
    positive = sound.positive;
    small = sound.small;
    room = sound.room;
    active = relist-IsActive bs cs' a.active_slab f sound.active;
    inside = f _ sound.inside;
    apart = g sound.apart;
  }

  pub out-IsSound :
      (us : List Block) (b : Block) (vs : List Block)
      → IsSound a (us ++ b ∷ vs)
      → IsSound a (b ∷ us ++ vs)
  out-IsSound us b vs = relist-IsSound _ _ (λ P. All-out P us b vs) (AllApart-out us b vs)

  pub in-IsSound :
      (us : List Block) (b : Block) (vs : List Block)
      → IsSound a (b ∷ us ++ vs)
      → IsSound a (us ++ b ∷ vs)
  in-IsSound us b vs = relist-IsSound _ _ (λ P. All-in P us b vs) (AllApart-in us b vs)

  pub drop-IsSound : (b : Block) (bs : List Block) → IsSound a (b ∷ bs) → IsSound a bs
  drop-IsSound b bs = relist-IsSound _ _ (λ P h. h.1) (λ h. h.1)

pub drop_regions : (a : Arena) (rs bs : List Block) → IsSound a (rs ++ bs) → IsSound a bs
drop_regions a [] bs sound = sound
drop_regions a (r ∷ rs) bs sound = drop_regions a rs bs (drop-IsSound a r (rs ++ bs) sound)

-- The first `k` bytes of a block, and the others.
abbrev pub front : ℕ → Block → Block
front k b = record { slab = b.slab; offset = b.offset; bytes = k }

abbrev pub back : ℕ → Block → Block
back k b = record { slab = b.slab; offset = b.offset + k; bytes = b.bytes - k }

module _ (a : Arena) (b : Block) (bs : List Block) (k : ℕ) (le : k ≤ b.bytes) where
  cut-IsApart : (c : Block) → IsApart b c → IsApart (front k b) c × IsApart (back k b) c
  cut-IsApart c (inl other) = (inl other, inl other)
  cut-IsApart c (inr (inl before)) = (inr (inl (omega arith)), inr (inl (omega arith)))
  cut-IsApart c (inr (inr behind)) = (inr (inr (omega arith)), inr (inr (omega arith)))

  cut-IsActive : (o : Option Ptr) → IsActive a (b ∷ bs) o → IsActive a (back k b ∷ front k b ∷ bs) o
  cut-IsActive none h = h
  cut-IsActive (some p) (there, start, full, (hb, below)) =
      (there, start, full, (λ e. omega (arith, hb e), (λ e. omega (arith, hb e), below)))

  pub cut-IsSound : IsSound a (b ∷ bs) → IsSound a (back k b ∷ front k b ∷ bs)
  cut-IsSound sound =
      let (hb, apart) = sound.apart in
      let (ib, inside) = sound.inside in
      record {
        positive = sound.positive;
        small = sound.small;
        room = sound.room;
        active = cut-IsActive a.active_slab sound.active;
        inside = ((ib.0, omega (arith, ib.1)), ((ib.0, omega (arith, ib.1)), inside));
        apart = (
          (inr (inr (omega arith)), All-imp bs (λ c h. (cut-IsApart c h).1) hb),
          (All-imp bs (λ c h. (cut-IsApart c h).0) hb, apart),
        );
      }
