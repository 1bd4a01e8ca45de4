-- ===== src/Prelude/Tests.antt =====
-- Boolean tests on the native numbers, the conditional, and case lemmas that keep the equation.
use Prim.Native.Nat.{ℕ, ◌≤◌, ◌<◌, compare, Ordering}
use mathlib.Core.Path.{◌≡◌, refl}
use mathlib.Core.Logic.{◌↔◌, ◌⊎◌, inl, inr}
use mathlib.Core.Bool.{Bool, true, false, not, ◌&&◌, ◌||◌}
use mathlib.Core.Option.{Option, none, some}
use native.Mathlib.Omega.{arith}

abbrev pub ltb : ℕ → ℕ → Bool
ltb a b = elim (compare a b) [ Ordering.lt ↦ true | _ ↦ false ]

abbrev pub leb : ℕ → ℕ → Bool
leb a b = elim (compare a b) [ Ordering.gt ↦ false | _ ↦ true ]

infix 50 ◌==◌
abbrev pub ◌==◌ : ℕ → ℕ → Bool
a == b = elim (compare a b) [ Ordering.eq ↦ true | _ ↦ false ]

infix 1 if◌then◌else◌
abbrev pub if◌then◌else◌ {ℓ} : {A : Type ℓ} → Bool → A → A → A
if true then x else y = x
if false then x else y = y

pub ltb→lt : (a b : ℕ) → ltb a b ≡ true → a < b
ltb→lt a b h = ground arith

pub lt→ltb : (a b : ℕ) → a < b → ltb a b ≡ true
lt→ltb a b h = ground arith

pub leb→le : (a b : ℕ) → leb a b ≡ true → a ≤ b
leb→le a b h = ground arith

pub le→leb : (a b : ℕ) → a ≤ b → leb a b ≡ true
le→leb a b h = ground arith

pub ==_iff : (a b : ℕ) → ((a == b) ≡ true) ↔ (a ≡ b)
==_iff a b = ground arith

pub ==_self : (a : ℕ) → (a == a) ≡ true
==_self a = ground arith

pub ruleset tests = (arith, ltb→lt, lt→ltb, leb→le, le→leb)

pub Bool-cases : (b : Bool) → (b ≡ true) ⊎ (b ≡ false)
Bool-cases true = inl refl
Bool-cases false = inr refl

-- What holds of both branches, each under its test, holds of the conditional.
pub if_ind {ℓ κ} :
    {A : Type ℓ} (P : A → Type κ) (b : Bool) (x y : A)
    → (b ≡ true → P x)
    → (b ≡ false → P y)
    → P (if b then x else y)
if_ind P true x y f g = f refl
if_ind P false x y f g = g refl

pub Option-cases {ℓ} : {A : Type ℓ} (o : Option A) → (o ≡ none) ⊎ ((a : A) × (o ≡ some a))
Option-cases none = inl refl
Option-cases (some a) = inr (a, refl)

-- A test holds exactly when what it decides holds; such equivalences go through `&&` and `||`.
module _ {ℓ κ} {P : Type ℓ} {Q : Type κ} (a b : Bool) (p : (a ≡ true) ↔ P)
    (q : (b ≡ true) ↔ Q) where
  pub and_iff : ((a && b) ≡ true) ↔ (P × Q)
  and_iff = (λ h. (p.0 (ground arith), q.0 (ground arith)), λ h. and_true (p.1 h.0) (q.1 h.1))
    where
      and_true : a ≡ true → b ≡ true → (a && b) ≡ true
      and_true x y = ground arith

  pub or_iff : ((a || b) ≡ true) ↔ (P ⊎ Q)
  or_iff = (λ h. left h (Bool-cases a), λ h. back h)
    where
      left : (a || b) ≡ true → (a ≡ true) ⊎ (a ≡ false) → P ⊎ Q
      left h (inl x) = inl (p.0 x)
      left h (inr x) = inr (q.0 (ground arith))

      back : P ⊎ Q → (a || b) ≡ true
      back (inl x) = let e : a ≡ true = p.1 x in ground arith
      back (inr y) = let e : b ≡ true = q.1 y in ground arith

-- Equivalences in a row and side by side.
pub iff_trans {ℓ κ μ} : {P : Type ℓ} {Q : Type κ} {R : Type μ} → (P ↔ Q) → (Q ↔ R) → (P ↔ R)
iff_trans f g = (λ p. g.0 (f.0 p), λ r. f.1 (g.1 r))

pub iff_× {ℓ κ μ ν} :
    {P : Type ℓ} {Q : Type κ} {R : Type μ} {S : Type ν} → (P ↔ Q) → (R ↔ S) → ((P × R) ↔ (Q × S))
iff_× f g = (λ h. (f.0 h.0, g.0 h.1), λ h. (f.1 h.0, g.1 h.1))

pub iff_⊎ {ℓ κ μ ν} :
    {P : Type ℓ} {Q : Type κ} {R : Type μ} {S : Type ν} → (P ↔ Q) → (R ↔ S) → ((P ⊎ R) ↔ (Q ⊎ S))
iff_⊎ f g = (
  elim [ inl p ↦ inl (f.0 p) | inr r ↦ inr (g.0 r) ],
  elim [ inl q ↦ inl (f.1 q) | inr s ↦ inr (g.1 s) ],
)

pub not_iff : (b : Bool) → (not b ≡ false) ↔ (b ≡ true)
not_iff true = (λ h. refl, λ h. refl)
not_iff false = (λ h. cc, λ h. cc)

-- The conjunction of two tests fails where one of them does.
pub and_false_iff : (a b : Bool) → ((a && b) ≡ false) ↔ ((a ≡ false) ⊎ (b ≡ false))
and_false_iff true b = (λ h. inr h, elim [ inl h ↦ cc | inr h ↦ h ])
and_false_iff false b = (λ h. inl refl, λ h. refl)

pub or_false_iff : (a b : Bool) → ((a || b) ≡ false) ↔ ((a ≡ false) × (b ≡ false))
or_false_iff true b = (λ h. cc, λ h. cc h.0)
or_false_iff false b = (λ h. (refl, h), λ h. h.1)
