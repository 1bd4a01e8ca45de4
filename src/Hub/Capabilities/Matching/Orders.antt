-- ===== src/Hub/Capabilities/Matching/Orders.antt =====
-- crates/fabric-hub/src/capabilities.rs: what the comparisons say of numbers and versions.
use mathlib.Core.Path.{subst}
use forgewire_fabric.Prelude.{
  ℕ, ◌≡◌, refl, sym, ◌↔◌, Bool, true, false, not, ◌&&◌, Option, none, some, List, Text, text,
}
use forgewire_fabric.Prelude.Json.{Json}
use forgewire_fabric.Hub.Capabilities.{Numbers}
use forgewire_fabric.Hub.Capabilities.Resolve.{
  as_number, version_tuple, versions_ltb, compare_versions, compare_numbers, compare_ordered,
}
use forgewire_fabric.Hub.Capabilities.Matching.{is_true}
use forgewire_fabric.Hub.Capabilities.Matching.Versions.{IsOlder, versions_ltb_iff}

pub not_iff : {P : Type 0} (b : Bool) → (b ≡ true) ↔ P → (not b ≡ true) ↔ (¬ P)
not_iff true i = (λ h. cc, λ n. absurd (n (i.0 refl)))
not_iff false i = (λ h p. cc (i.1 p), λ n. refl)

pub both_iff :
    {P Q : Type 0} (a b : Bool) → (a ≡ true) ↔ P → (b ≡ true) ↔ Q → (a && b ≡ true) ↔ (P × Q)
both_iff true b i j = (λ h. (i.0 refl, j.0 h), λ pq. j.1 pq.1)
both_iff false b i j = (λ h. cc, λ pq. cc (i.1 pq.0))

pub iff_self : {P : Type 0} → P ↔ P
iff_self = (λ p. p, λ p. p)

module _ {N : Type 0} (numbers : Numbers N) where
  open numbers use {num_eq, num_ltb, num_leb}

  -- Two values stand to each other as their versions do, and not at all if one has none.
  abbrev pub AsVersions : (List ℕ → List ℕ → Type 0) → Option (List ℕ) → Option (List ℕ) → Type 0
  AsVersions S (some a) (some b) = S a b
  AsVersions S (some a) none = ⊥
  AsVersions S none b = ⊥

  -- Numbers are compared as numbers, and all other values as versions.
  abbrev Stand :
      (N → N → Type 0) → (List ℕ → List ℕ → Type 0) → Option N → Option N → Type 0 → Type 0
  Stand R S (some x) (some y) versions = R x y
  Stand R S (some x) none versions = versions
  Stand R S none y versions = versions

  abbrev Stands : (N → N → Type 0) → (List ℕ → List ℕ → Type 0) → Json N → Json N → Type 0
  Stands R S v l =
      Stand R S (as_number numbers v) (as_number numbers l)
        (AsVersions S (version_tuple numbers v) (version_tuple numbers l))

  abbrev pub IsAtLeast : Json N → Json N → Type 0
  IsAtLeast = Stands (λ x y. num_leb y x ≡ true) (λ a b. ¬ IsOlder a b)

  abbrev pub IsMore : Json N → Json N → Type 0
  IsMore = Stands (λ x y. num_ltb y x ≡ true) (λ a b. IsOlder b a)

  abbrev pub IsAtMost : Json N → Json N → Type 0
  IsAtMost = Stands (λ x y. num_leb x y ≡ true) (λ a b. ¬ IsOlder b a)

  abbrev pub IsLess : Json N → Json N → Type 0
  IsLess = Stands (λ x y. num_ltb x y ≡ true) (λ a b. IsOlder a b)

  module _ {R : N → N → Type 0} {S : List ℕ → List ℕ → Type 0} (op : Text) (f : N → N → Bool)
      (g : List ℕ → List ℕ → Bool)
      (f_is : (x y : N) (o : Option Bool)
        → compare_numbers numbers op (some x) (some y) o ≡ some (f x y))
      (g_is : (a b : List ℕ) → compare_versions numbers op (some a) (some b) ≡ some (g a b))
      (f_iff : (x y : N) → (f x y ≡ true) ↔ R x y)
      (g_iff : (a b : List ℕ) → (g a b ≡ true) ↔ S a b) where
    by_versions :
        (a b : Option (List ℕ))
        → (is_true numbers (compare_versions numbers op a b) ≡ true) ↔ AsVersions S a b
    by_versions none b = (λ h. cc, λ e. absurd e)
    by_versions (some a) none = (λ h. cc, λ e. absurd e)
    by_versions (some a) (some b) =
        subst (λ o. (is_true numbers o ≡ true) ↔ S a b) (sym (g_is a b)) (g_iff a b)

    by_kind :
        (x y : Option N) (a b : Option (List ℕ))
        → (is_true numbers (compare_numbers numbers op x y (compare_versions numbers op a b))
            ≡ true)
          ↔ Stand R S x y (AsVersions S a b)
    by_kind none y a b = by_versions a b
    by_kind (some x) none a b = by_versions a b
    by_kind (some x) (some y) a b =
        subst (λ o. (is_true numbers o ≡ true) ↔ R x y)
          (sym (f_is x y (compare_versions numbers op a b))) (f_iff x y)

    compare_ordered_iff :
        (v l : Json N) → (is_true numbers (compare_ordered numbers v l op) ≡ true) ↔ Stands R S v l
    unfolding compare_ordered
    compare_ordered_iff v l =
        by_kind (as_number numbers v) (as_number numbers l) (version_tuple numbers v)
          (version_tuple numbers l)

  pub IsAtLeast-iff :
      (v l : Json N)
      → (is_true numbers (compare_ordered numbers v l (text ">=")) ≡ true) ↔ IsAtLeast v l
  IsAtLeast-iff =
      compare_ordered_iff (text ">=") (λ x y. num_leb y x) (λ a b. not (versions_ltb numbers a b))
        (λ x y o. refl) (λ a b. refl) (λ x y. iff_self)
        (λ a b. not_iff (versions_ltb numbers a b) (versions_ltb_iff numbers a b))

  pub IsMore-iff :
      (v l : Json N)
      → (is_true numbers (compare_ordered numbers v l (text ">")) ≡ true) ↔ IsMore v l
  IsMore-iff =
      compare_ordered_iff (text ">") (λ x y. num_ltb y x) (λ a b. versions_ltb numbers b a)
        (λ x y o. refl) (λ a b. refl) (λ x y. iff_self) (λ a b. versions_ltb_iff numbers b a)

  pub IsAtMost-iff :
      (v l : Json N)
      → (is_true numbers (compare_ordered numbers v l (text "<=")) ≡ true) ↔ IsAtMost v l
  IsAtMost-iff =
      compare_ordered_iff (text "<=") num_leb (λ a b. not (versions_ltb numbers b a))
        (λ x y o. refl) (λ a b. refl) (λ x y. iff_self)
        (λ a b. not_iff (versions_ltb numbers b a) (versions_ltb_iff numbers b a))

  pub IsLess-iff :
      (v l : Json N)
      → (is_true numbers (compare_ordered numbers v l (text "<")) ≡ true) ↔ IsLess v l
  IsLess-iff =
      compare_ordered_iff (text "<") num_ltb (versions_ltb numbers) (λ x y o. refl) (λ a b. refl)
        (λ x y. iff_self) (versions_ltb_iff numbers)
