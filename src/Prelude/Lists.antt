-- ===== src/Prelude/Lists.antt =====
-- Lists measured and indexed by native numbers, Boolean searches over them, and the predicates
-- that the searches decide.
use Prim.Native.Nat.{ℕ, zero, suc, ◌+◌}
use mathlib.Core.Path.{◌≡◌, refl, sym, ap, ◌∙◌}
use mathlib.Core.Logic.{◌↔◌, ◌⊎◌, inl, inr}
use mathlib.Core.Bool.{Bool, true, false, ◌&&◌, ◌||◌}
use mathlib.Core.List.{List, [], ◌∷◌, ◌++◌, map}
use mathlib.Core.Option.{Option, none, some}
use native.Mathlib.Omega.{arith}
use forgewire_fabric.Prelude.Tests.{and_iff, or_iff, Bool-cases}

module _ {ℓ} {A : Type ℓ} where
  abbrev pub length : List A → ℕ
  length [] = 0
  length (x ∷ xs) = suc (length xs)

  abbrev pub get_elem? : List A → ℕ → Option A
  get_elem? [] i = none
  get_elem? (x ∷ xs) zero = some x
  get_elem? (x ∷ xs) (suc i) = get_elem? xs i

  abbrev pub take : ℕ → List A → List A
  take zero xs = []
  take (suc n) [] = []
  take (suc n) (x ∷ xs) = x ∷ take n xs

  abbrev pub drop : ℕ → List A → List A
  drop zero xs = xs
  drop (suc n) [] = []
  drop (suc n) (x ∷ xs) = drop n xs

  -- `iter().any(p)` and `iter().all(p)`
  abbrev pub any : (A → Bool) → List A → Bool
  any p [] = false
  any p (x ∷ xs) = p x || any p xs

  abbrev pub all : (A → Bool) → List A → Bool
  all p [] = true
  all p (x ∷ xs) = p x && all p xs

  -- A loop whose body may return: the first result.
  abbrev pub first_some {κ} : {B : Type κ} → (A → Option B) → List A → Option B
  first_some f [] = none
  first_some f (x ∷ xs) = elim (f x) [ some b ↦ some b | none ↦ first_some f xs ]

  -- `is_empty`
  abbrev pub is_empty : List A → Bool
  is_empty [] = true
  is_empty (x ∷ xs) = false

  -- `iter().filter(p)`
  abbrev pub filter : (A → Bool) → List A → List A
  filter p [] = []
  filter p (x ∷ xs) = elim (p x) [ true ↦ x ∷ filter p xs | false ↦ filter p xs ]

module _ {ℓ} {A : Type ℓ} where
  pub length-append : (xs ys : List A) → length (xs ++ ys) ≡ length xs + length ys
  length-append [] ys = omega arith
  length-append (x ∷ xs) ys = omega (arith, length-append xs ys)

  pub take-append-drop : (n : ℕ) (xs : List A) → take n xs ++ drop n xs ≡ xs
  take-append-drop zero xs = refl
  take-append-drop (suc n) [] = refl
  take-append-drop (suc n) (x ∷ xs) = ap (λ l. x ∷ l) (take-append-drop n xs)

pub some-injective {ℓ} : {A : Type ℓ} {a b : A} → Path (Option A) (some a) (some b) → a ≡ b
some-injective h = cc

module _ {ℓ} {A : Type ℓ} (p : A → Bool) where
  pub filter-true : (x : A) (xs : List A) → p x ≡ true → filter p (x ∷ xs) ≡ x ∷ filter p xs
  filter-true x xs e = rw (filter, e) refl

  pub filter-false : (x : A) (xs : List A) → p x ≡ false → filter p (x ∷ xs) ≡ filter p xs
  filter-false x xs e = rw (filter, e) refl

  head_or :
      (x : A) (xs : List A) (i : ℕ) (a : A)
      → p x ≡ true
      → ((j : ℕ) → get_elem? xs j ≡ some a → p a ≡ true)
      → get_elem? (x ∷ xs) i ≡ some a
      → p a ≡ true
  head_or x xs zero a e more h = ap p (sym (some-injective h)) ∙ e
  head_or x xs (suc i) a e more h = more i h

  -- What a filtered list holds passes the test.
  pub get_elem?-filter :
      (xs : List A) (i : ℕ) (a : A) → get_elem? (filter p xs) i ≡ some a → p a ≡ true
  get_elem?-filter [] i a h = cc
  get_elem?-filter (x ∷ xs) i a h = elim (Bool-cases (p x)) [
    | inl e ↦
        head_or x (filter p xs) i a e (λ j. get_elem?-filter xs j a)
          (ap (λ l. get_elem? l i) (sym (filter-true x xs e)) ∙ h)
    | inr e ↦ get_elem?-filter xs i a (ap (λ l. get_elem? l i) (sym (filter-false x xs e)) ∙ h)
  ]

pub get_elem?-map {ℓ ℓ'} :
    {A : Type ℓ} {B : Type ℓ'} (f : A → B) (xs : List A) (i : ℕ) (b : B)
    → get_elem? (map f xs) i ≡ some b
    → (a : A) × (get_elem? xs i ≡ some a) × (f a ≡ b)
get_elem?-map f [] i b h = cc
get_elem?-map f (x ∷ xs) zero b h = (x, refl, some-injective h)
get_elem?-map f (x ∷ xs) (suc i) b h = get_elem?-map f xs i b h

module _ {ℓ} {A : Type ℓ} where
  -- Every element, and some element, satisfies `P`.
  abbrev pub All : (A → Type 0) → List A → Type 0
  All P [] = Unit
  All P (x ∷ xs) = P x × All P xs

  abbrev pub Exists : (A → Type 0) → List A → Type 0
  Exists P [] = ⊥
  Exists P (x ∷ xs) = P x ⊎ Exists P xs

module _ {ℓ} {A : Type ℓ} {P : A → Type 0} (p : A → Bool)
    (decides : (x : A) → (p x ≡ true) ↔ P x) where
  pub all_iff : (xs : List A) → (all p xs ≡ true) ↔ All P xs
  all_iff [] = (λ h. tt, λ h. refl)
  all_iff (x ∷ xs) = and_iff (p x) (all p xs) (decides x) (all_iff xs)

  pub any_iff : (xs : List A) → (any p xs ≡ true) ↔ Exists P xs
  any_iff [] = (λ h. cc, λ h. elim h [ ])
  any_iff (x ∷ xs) = or_iff (p x) (any p xs) (decides x) (any_iff xs)
