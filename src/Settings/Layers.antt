-- ===== src/Settings/Layers.antt =====
-- crates/fabric-settings/src/lib.rs: which tier a value of the effective settings comes from.
use mathlib.Core.Path.{subst}
use forgewire_fabric.Prelude.{
  ◌≡◌, refl, ap, ◌∙◌, inl, inr, Bool, true, false, Option, none, some, List, [], ◌∷◌, arith, Text,
  text_eq, text_eq_self, text_eq_sound, Bool-cases, if◌then◌else◌,
}
use forgewire_fabric.Prelude.Json.{
  Json, scalar, arr, obj, Fields, end, field, get_field, insert_field,
}
use forgewire_fabric.Settings.{through, lookup, merge_value, merge_fields, merge}

both_same : (j k l : Text) → text_eq j k ≡ true → text_eq j l ≡ text_eq k l
both_same j k l h = ap (λ t. text_eq t l) (text_eq_sound j k h)

same_other : (i j k : Text) → text_eq j k ≡ true → text_eq i j ≡ text_eq i k
same_other i j k h = ap (text_eq i) (text_eq_sound j k h)

module _ {N : Type 0} where
  pub get-insert_field :
      (k j : Text) (v : Json N) (fs : Fields N)
      → get_field j (insert_field k v fs) ≡ (if text_eq k j then some v else get_field j fs)
  get-insert_field k j v end = refl
  get-insert_field k j v (field i w fs) =
      ground (arith, get-insert_field k j v fs, both_same k i j, same_other k i j)

  -- No key twice in an object, at any depth.
  abbrev mutual
    pub IsMap : Json N → Type 0
    IsMap (scalar s) = Unit
    IsMap (arr xs) = Unit
    IsMap (obj fs) = AreFields fs

    pub AreFields : Fields N → Type 0
    AreFields end = Unit
    AreFields (field k v fs) = IsMap v × (get_field k fs ≡ none) × AreFields fs

  abbrev overlaid : Option (Json N) → Option (Json N) → Option (Json N)
  overlaid base none = base
  overlaid base (some v) = some (merge_value base v)

  -- What an overlay leaves alone: the path ends at a key that one of its objects does not have.
  abbrev silent_below : (Json N → Bool) → Option (Json N) → Bool
  silent_below more none = true
  silent_below more (some v) = more v

  unfoldable pub is_silent : List Text → Json N → Bool
  is_silent [] overlay = false
  is_silent (k ∷ ks) (scalar s) = false
  is_silent (k ∷ ks) (arr xs) = false
  is_silent (k ∷ ks) (obj fs) = silent_below (is_silent ks) (get_field k fs)

  get_before :
      (k j : Text) (v : Json N) (fs base : Fields N)
      → get_field k fs ≡ none
      → overlaid
          (get_field j (insert_field k (merge_value (get_field k base) v) base))
          (get_field j fs)
        ≡ overlaid (get_field j base) (if text_eq k j then some v else get_field j fs)
  get_before k j v fs base h = elim (Bool-cases (text_eq k j)) [
    | inl e ↦
        subst (λ i. Kept i) (text_eq_sound k j e)
          (rw (get-insert_field k k merged base, text_eq_self k, h) refl)
    | inr e ↦ rw (get-insert_field k j merged base, e) refl
  ]
    where
      merged : Json N
      merged = merge_value (get_field k base) v

      Kept : Text → Type 0
      Kept j =
          overlaid (get_field j (insert_field k merged base)) (get_field j fs)
          ≡ overlaid (get_field j base) (if text_eq k j then some v else get_field j fs)

  get-merge_fields :
      (fs base : Fields N) (j : Text)
      → AreFields fs
      → get_field j (merge_fields base fs) ≡ overlaid (get_field j base) (get_field j fs)
  unfolding merge_fields merge_value
  get-merge_fields end base j m = refl
  get-merge_fields (field k v fs) base j m =
      get-merge_fields fs (insert_field k (merge_value (get_field k base) v) base) j m.2
      ∙ get_before k j v fs base m.1

  -- Where an object has a value, that value has no key twice.
  abbrev AreMaps : Option (Json N) → Type 0
  AreMaps none = Unit
  AreMaps (some v) = IsMap v

  got-IsMap : (k : Text) (fs : Fields N) → AreFields fs → AreMaps (get_field k fs)
  got-IsMap k end m = tt
  got-IsMap k (field j v fs) m = either (text_eq j k) (get_field k fs) m.0 (got-IsMap k fs m.2)
    where
      either :
          (b : Bool) (o : Option (Json N)) → IsMap v → AreMaps o → AreMaps (if b then some v else o)
      either true o m h = m
      either false o m h = h

  -- No object at the end of a path, which would be merged and not replaced.
  abbrev pub IsLeaf : Option (Json N) → Type 0
  IsLeaf none = Unit
  IsLeaf (some (scalar s)) = Unit
  IsLeaf (some (arr xs)) = Unit
  IsLeaf (some (obj fs)) = ⊥

  silent_none : (ks : List Text) (v : Json N) → is_silent ks v ≡ true → lookup ks v ≡ none
  unfolding is_silent lookup
  silent_none [] v h = cc
  silent_none (k ∷ ks) (scalar s) h = refl
  silent_none (k ∷ ks) (arr xs) h = refl
  silent_none (k ∷ ks) (obj fs) h = below (get_field k fs) (silent_none ks) h
    where
      below :
          (o : Option (Json N))
          → ((v : Json N) → is_silent ks v ≡ true → lookup ks v ≡ none)
          → silent_below (is_silent ks) o ≡ true
          → through (lookup ks) o ≡ none
      below none more h = refl
      below (some v) more h = more v h

  layered : (b : Bool) (x y : Option (Json N)) → (b ≡ true → y ≡ x) → y ≡ (if b then x else y)
  layered true x y h = h refl
  layered false x y h = refl

  -- Below an overlay, a path finds what the overlay has there, or what was there where it is silent.
  pub lookup-merge :
      (ks : List Text) (base overlay : Json N)
      → IsMap overlay
      → IsLeaf (lookup ks overlay)
      → lookup ks (merge base overlay)
        ≡ (if is_silent ks overlay then lookup ks base else lookup ks overlay)
  unfolding is_silent lookup merge_value
  lookup-merge [] base (scalar s) m l = refl
  lookup-merge [] base (arr xs) m l = refl
  lookup-merge [] base (obj fs) m l = elim l [ ]
  lookup-merge (k ∷ ks) base (scalar s) m l = refl
  lookup-merge (k ∷ ks) base (arr xs) m l = refl
  lookup-merge (k ∷ ks) (scalar s) (obj fs) m l =
      layered (is_silent (k ∷ ks) (obj fs)) none (lookup (k ∷ ks) (obj fs))
        (silent_none (k ∷ ks) (obj fs))
  lookup-merge (k ∷ ks) (arr xs) (obj fs) m l =
      layered (is_silent (k ∷ ks) (obj fs)) none (lookup (k ∷ ks) (obj fs))
        (silent_none (k ∷ ks) (obj fs))
  lookup-merge (k ∷ ks) (obj bs) (obj fs) m l =
      ap (through (lookup ks)) (get-merge_fields fs bs k m)
      ∙ level (lookup-merge ks) (get_field k bs) (get_field k fs) (got-IsMap k fs m) l
    where
      Below : Json N → Json N → Type 0
      Below base overlay =
          IsMap overlay
          → IsLeaf (lookup ks overlay)
          → lookup ks (merge base overlay)
            ≡ (if is_silent ks overlay then lookup ks base else lookup ks overlay)

      alone : (v : Json N) → lookup ks v ≡ (if is_silent ks v then none else lookup ks v)
      alone v = layered (is_silent ks v) none (lookup ks v) (silent_none ks v)

      level :
          ((base overlay : Json N) → Below base overlay)
          → (base overlay : Option (Json N)) → AreMaps overlay
          → IsLeaf (through (lookup ks) overlay)
          → through (lookup ks) (overlaid base overlay) ≡ (
              if silent_below (is_silent ks) overlay
              then through (lookup ks) base
              else through (lookup ks) overlay)
      level more base none m l = refl
      level more none (some (scalar s)) m l = alone (scalar s)
      level more none (some (arr xs)) m l = alone (arr xs)
      level more none (some (obj gs)) m l = alone (obj gs)
      level more (some b) (some v) m l = more b v m l
