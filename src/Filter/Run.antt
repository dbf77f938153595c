-- ===== src/Filter/Run.antt =====
-- How a call of the filters ends.
use mathlib.Core.Path.{ap, sym, subst, ◌∙◌}
use mathlib.Core.Bool.{true≢false}
use cs.Base.{
  Bool, true, false, ◌≢◌, ℕ, zero, suc, ◌%◌, ◌≡◌, refl, List, length, get_or, set, ltb,
  if◌then◌else◌, ◌<◌, arith,
}

-- The exceptions that the modelled methods throw.
pub data Error : Type 0 where
  invalid_argument runtime_error : Error

-- `fault` stands for what C++ leaves undefined: a division by 0, or an access outside an array.
pub data Run {ℓ} (A : Type ℓ) : Type ℓ where
  ok : A → Run A
  throws : Error → Run A
  fault : Run A

infixl 5 ◌>>=◌
abbrev pub ◌>>=◌ {ℓ κ} : {A : Type ℓ} {B : Type κ} → Run A → (A → Run B) → Run B
ok a >>= f = f a
throws e >>= f = throws e
fault >>= f = fault

-- `a % n`
unfoldable pub modulo : ℕ → ℕ → Run ℕ
modulo a zero = fault
modulo a (suc n) = ok (a % suc n)

-- `bytes[i]` and `bytes[i] = v`
unfoldable pub read : List ℕ → ℕ → Run ℕ
read bytes i = if ltb i (length bytes) then ok (get_or bytes i 0) else fault

unfoldable pub write : List ℕ → ℕ → ℕ → Run (List ℕ)
write bytes i v = if ltb i (length bytes) then ok (set bytes i v) else fault

pub modulo_ok : (a n : ℕ) → 0 < n → modulo a n ≡ ok (a % n)
unfolding modulo
modulo_ok a zero h = absurd (omega arith)
modulo_ok a (suc n) h = refl

pub read_ok : (bytes : List ℕ) (i : ℕ) → i < length bytes → read bytes i ≡ ok (get_or bytes i 0)
unfolding read
read_ok bytes i h = ground arith

pub write_ok : (bytes : List ℕ) (i v : ℕ) → i < length bytes → write bytes i v ≡ ok (set bytes i v)
unfolding write
write_ok bytes i v h = ground arith

-- The call returns, with a result of which `P` holds.
abbrev pub Returns {ℓ κ} : {A : Type ℓ} → Run A → (A → Type κ) → Type (ℓ ⊔ κ)
Returns {A} m P = (a : A) × (m ≡ ok a) × P a

or_else {ℓ} : {A : Type ℓ} → A → Run A → A
or_else d (ok a) = a
or_else d (throws e) = d
or_else d fault = d

pub ok-injective {ℓ} : {A : Type ℓ} {a b : A} → ok a ≡ ok b → a ≡ b
unfolding or_else
ok-injective {a} e = ap (or_else a) e

is_ok {ℓ} : {A : Type ℓ} → Run A → Bool
is_ok (ok a) = true
is_ok (throws e) = false
is_ok fault = false

pub ok-ne_fault {ℓ} : {A : Type ℓ} {a : A} → ok a ≢ fault
unfolding is_ok
ok-ne_fault e = true≢false (ap is_ok e)

pub Returns-at {ℓ κ} :
    {A : Type ℓ} {m : Run A} (P : A → Type κ) (b : A) → Returns m P → m ≡ ok b → P b
Returns-at P b (a, e, p) run = subst P (ok-injective (sym e ∙ run)) p

-- What a chain of two calls that returns consists of.
pub >>=-eq-ok {ℓ κ} :
    {A : Type ℓ} {B : Type κ} (m : Run A) (f : A → Run B) {b : B}
    → (m >>= f) ≡ ok b
    → (a : A) × (m ≡ ok a) × (f a ≡ ok b)
>>=-eq-ok (ok a) f e = (a, refl, e)
>>=-eq-ok (throws x) f e = cc
>>=-eq-ok fault f e = cc
