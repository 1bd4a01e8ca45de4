-- ===== src/Prelude/Results.antt =====
-- Rust's `Result`, with `?` as `and_then`.
use mathlib.Core.Path.{◌≡◌, refl, ap}
use mathlib.Core.Logic.{◌⊎◌, inl, inr}
use mathlib.Core.Option.{Option, none, some}

pub data Result {ℓ ℓ'} (E : Type ℓ) (A : Type ℓ') : Type (ℓ ⊔ ℓ') where
  err : E → Result E A
  okay : A → Result E A

module _ {ℓ ℓ' ℓ''} {E : Type ℓ} {A : Type ℓ'} {B : Type ℓ''} where
  abbrev pub and_then : Result E A → (A → Result E B) → Result E B
  and_then (err e) f = err e
  and_then (okay a) f = f a

  -- For `do` blocks.
  infixl 5 ◌>>=◌
  abbrev pub ◌>>=◌ : Result E A → (A → Result E B) → Result E B
  m >>= f = and_then m f

abbrev pub map_err {ℓ ℓ' ℓ''} :
    {E : Type ℓ} {F : Type ℓ'} {A : Type ℓ''} → (E → F) → Result E A → Result F A
map_err f (err e) = err (f e)
map_err f (okay a) = okay a

-- `o.ok_or(e)`
abbrev pub ok_or {ℓ ℓ'} : {E : Type ℓ} {A : Type ℓ'} → E → Option A → Result E A
ok_or e none = err e
ok_or e (some a) = okay a

pub Result-cases {ℓ ℓ'} :
    {E : Type ℓ} {A : Type ℓ'} (o : Result E A) → ((e : E) × (o ≡ err e)) ⊎ ((a : A) × (o ≡ okay a))
Result-cases (err e) = inl (e, refl)
Result-cases (okay a) = inr (a, refl)

pub okay-injective {ℓ ℓ'} :
    {E : Type ℓ} {A : Type ℓ'} (a b : A) → Path (Result E A) (okay a) (okay b) → a ≡ b
okay-injective a b h = cc

pub err-okay {ℓ ℓ'} :
    {E : Type ℓ} {A : Type ℓ'} (e : E) (a : A) → Path (Result E A) (err e) (okay a) → ⊥
err-okay e a h = cc

-- A chain gives a result only if its first part does.
pub and_then-okay {ℓ ℓ' ℓ''} :
    {E : Type ℓ} {A : Type ℓ'} {B : Type ℓ''} (o : Result E A) (f : A → Result E B) (b : B)
    → and_then o f ≡ okay b
    → (a : A) × (o ≡ okay a) × (f a ≡ okay b)
and_then-okay (err e) f b h = cc
and_then-okay (okay a) f b h = (a, refl, h)

pub map_err-okay {ℓ ℓ' ℓ''} :
    {E : Type ℓ} {F : Type ℓ'} {A : Type ℓ''} (f : E → F) (r : Result E A) (a : A)
    → map_err f r ≡ okay a
    → r ≡ okay a
map_err-okay f (err e) a h = cc
map_err-okay f (okay b) a h = ap okay (okay-injective b a h)
