-- ===== src/Prelude/TextMaps.antt =====
-- A `BTreeMap` keyed by texts, as an association list in the order of the keys.
use mathlib.Core.Path.{◌≡◌, refl, sym, ap}
use mathlib.Core.Bool.{true}
use mathlib.Core.Option.{Option, none, some}
use mathlib.Core.List.{List, [], ◌∷◌, map}
use native.Mathlib.Omega.{arith}
use forgewire_fabric.Prelude.Tests.{if◌then◌else◌}
use forgewire_fabric.Prelude.Strings.{Text, text_eq, text_eq_sound}
use forgewire_fabric.Prelude.Json.{text_ltb}

abbrev pub TextMap {ℓ} : Type ℓ → Type ℓ
TextMap V = List (Text × V)

module _ {ℓ} {V : Type ℓ} where
  abbrev pub get : Text → TextMap V → Option V
  get k [] = none
  get k ((j, v) ∷ m) = if text_eq j k then some v else get k m

  -- `insert`, which keeps the order and writes over an entry of the same key
  abbrev pub insert : Text → V → TextMap V → TextMap V
  insert k v [] = (k, v) ∷ []
  insert k v ((j, w) ∷ m) =
      let rest = insert k v m in
      if text_eq j k
      then (k, v) ∷ m
      else if text_ltb k j
      then (k, v) ∷ (j, w) ∷ m
      else (j, w) ∷ rest

  abbrev pub remove : Text → TextMap V → TextMap V
  remove k [] = []
  remove k ((j, v) ∷ m) = let rest = remove k m in if text_eq j k then rest else (j, v) ∷ rest

  abbrev pub keys : TextMap V → List Text
  keys = map (λ e. e.0)

  abbrev pub values : TextMap V → List V
  values = map (λ e. e.1)

both_same : (j k l : Text) → text_eq j k ≡ true → text_eq j l ≡ text_eq k l
both_same j k l h = ap (λ t. text_eq t l) (text_eq_sound j k h)

same_other : (i j k : Text) → text_eq k j ≡ true → text_eq i j ≡ text_eq i k
same_other i j k h = ap (text_eq i) (sym (text_eq_sound k j h))

module _ {ℓ} {V : Type ℓ} where
  pub get-insert :
      (k j : Text) (v : V) (m : TextMap V)
      → get j (insert k v m) ≡ (if text_eq k j then some v else get j m)
  get-insert k j v [] = refl
  get-insert k j v ((i, w) ∷ m) =
      ground (arith, get-insert k j v m, both_same i k j, same_other i j k)

  pub get-remove :
      (k j : Text) (m : TextMap V) → get j (remove k m) ≡ (if text_eq k j then none else get j m)
  get-remove k j [] = ground arith
  get-remove k j ((i, w) ∷ m) = ground (arith, get-remove k j m, both_same i k j, same_other i j k)
