-- ===== src/Settings/Tiers.antt =====
-- crates/fabric-settings/src/lib.rs: the precedence of the repository over the hub over the defaults.
use mathlib.Core.Path.{subst}
use forgewire_fabric.Prelude.{
  some-injective, ◌≡◌, refl, sym, ap, ◌∙◌, inl, inr, Bool, true, false, not, ◌||◌, Option, none,
  some, List, [], ◌∷◌, Text, text_eq, text_eq_sound, Bool-cases, if◌then◌else◌,
}
use forgewire_fabric.Prelude.Int.{ℤ}
use forgewire_fabric.Prelude.Results.{okay, and_then-okay, okay-injective}
use forgewire_fabric.Prelude.Json.{
  null, bool, number, string, Json, scalar, arr, obj, Fields, end, get_field,
}
use forgewire_fabric.Settings.{
  through, lookup, merge, assign, or_null, put_back, mode_path, history_mode, derive_read_only,
}
use forgewire_fabric.Settings.Validation.{Numbers, Documents, validate_overlay}
use forgewire_fabric.Settings.Snapshot.{SettingsSnapshot, snapshot_of, new_snapshot}
use forgewire_fabric.Settings.Layers.{get-insert_field, IsMap, IsLeaf, is_silent, lookup-merge}

-- Paths of which neither leads to the other.
abbrev pub is_apart : List Text → List Text → Bool
is_apart [] target = false
is_apart (j ∷ js) [] = false
is_apart (j ∷ js) (k ∷ ks) = not (text_eq k j) || is_apart js ks

apart_below : (b rest : Bool) → (not b || rest) ≡ true → b ≡ true → rest ≡ true
apart_below true rest h e = h
apart_below false rest h e = cc

module _ {N : Type 0} where
  at_null :
      (js ks : List Text) (o : Option (Json N))
      → is_apart js ks ≡ true
      → through (lookup js) o ≡ lookup js (or_null o)
  unfolding lookup
  at_null [] ks o h = cc
  at_null (j ∷ js) ks none h = refl
  at_null (j ∷ js) ks (some v) h = refl

  lookup_put :
      (j k : Text) (js ks : List Text) (value : Json N) (fs : Fields N) (changed : Json N)
      (a : Option (Json N))
      → (text_eq k j ≡ true → is_apart js ks ≡ true)
      → ((w : Json N)
          → a ≡ some w
          → is_apart js ks ≡ true
          → lookup js w ≡ lookup js (or_null (get_field k fs)))
      → put_back k fs a ≡ some changed
      → lookup (j ∷ js) changed ≡ through (lookup js) (get_field j fs)
  unfolding lookup
  lookup_put j k js ks value fs changed none apart more h = cc
  lookup_put j k js ks value fs changed (some w) apart more h =
      subst (λ c. lookup (j ∷ js) c ≡ through (lookup js) (get_field j fs)) (some-injective h)
        (ap (through (lookup js)) (get-insert_field k j w fs) ∙ elim (Bool-cases (text_eq k j)) [
          | inl e ↦
              ap (λ b. through (lookup js) (if b then some w else get_field j fs)) e
              ∙ (more w refl (apart e)
                  ∙ (sym (at_null js ks (get_field k fs) (apart e))
                      ∙ ap (λ i. through (lookup js) (get_field i fs)) (text_eq_sound k j e)))
          | inr e ↦ ap (λ b. through (lookup js) (if b then some w else get_field j fs)) e
        ])

  in_object :
      (j : Text) (js : List Text) (fs : Fields N)
      → through (lookup js) (get_field j fs) ≡ lookup (j ∷ js) (obj fs)
  unfolding lookup
  in_object j js fs = refl

  abbrev nothing : Json N
  nothing = scalar null

  in_null : (j : Text) (js : List Text) → none ≡ lookup (j ∷ js) nothing
  unfolding lookup
  in_null j js = refl

  -- An assignment does not touch what is at paths apart from its own.
  lookup-assign :
      (js ks : List Text) (value root changed : Json N)
      → is_apart js ks ≡ true
      → assign ks value root ≡ some changed
      → lookup js changed ≡ lookup js root
  unfolding assign
  lookup-assign [] ks value root changed apart h = cc
  lookup-assign (j ∷ js) [] value root changed apart h = cc
  lookup-assign (j ∷ js) (k ∷ ks) value (obj fs) changed apart h =
      lookup_put j k js ks value fs changed (assign ks value (or_null (get_field k fs)))
        (apart_below (text_eq k j) (is_apart js ks) apart)
        (λ w e a. lookup-assign js ks value (or_null (get_field k fs)) w a e) h
      ∙ in_object j js fs
  lookup-assign (j ∷ js) (k ∷ ks) value (scalar null) changed apart h =
      lookup_put j k js ks value end changed (assign ks value (scalar null))
        (apart_below (text_eq k j) (is_apart js ks) apart)
        (λ w e a. lookup-assign js ks value (scalar null) w a e) h
      ∙ in_null j js
  lookup-assign (j ∷ js) (k ∷ ks) value (scalar (bool b)) changed apart h = cc
  lookup-assign (j ∷ js) (k ∷ ks) value (scalar (number b)) changed apart h = cc
  lookup-assign (j ∷ js) (k ∷ ks) value (scalar (string b)) changed apart h = cc
  lookup-assign (j ∷ js) (k ∷ ks) value (arr xs) changed apart h = cc

  -- The value that three tiers give to a path.
  abbrev pub tiered : List Text → Json N → Json N → Json N → Option (Json N)
  tiered path defaults hub repo =
      if is_silent path repo
      then (if is_silent path hub then lookup path defaults else lookup path hub)
      else lookup path repo

  lookup-tiers :
      (path : List Text) (defaults hub repo : Json N)
      → IsMap hub
      → IsMap repo
      → IsLeaf (lookup path hub)
      → IsLeaf (lookup path repo)
      → lookup path (merge (merge defaults hub) repo) ≡ tiered path defaults hub repo
  lookup-tiers path defaults hub repo hm rm hl rl =
      lookup-merge path (merge defaults hub) repo rm rl
      ∙ ap (λ o. if is_silent path repo then o else lookup path repo)
          (lookup-merge path defaults hub hm hl)

  -- What a snapshot holds, if it is made of the parts.
  made :
      (revision : ℤ) (defaults hub repo : Json N) (effective : Option (Json N))
      (x : SettingsSnapshot N)
      → snapshot_of revision defaults hub repo effective ≡ some x
      → (effective ≡ some x.effective) × (x.defaults ≡ defaults) × (x.hub ≡ hub) × (x.repo ≡ repo)
  made revision defaults hub repo none x h = cc
  made revision defaults hub repo (some e) x h =
      let same = some-injective h in
      (
        ap (λ y. some y.effective) same,
        sym (ap (λ y. y.defaults) same),
        sym (ap (λ y. y.hub) same),
        sym (ap (λ y. y.repo) same),
      )

-- The value of a path, in the effective settings of a snapshot, is that of the repository's document
-- if it says something of the path, else that of the hub's, else the default; for paths apart from
-- the derived `history.mode`, documents without a key twice in an object, and where neither document
-- has an object at the path.
pub effective_tiers :
    {N : Type 0} (numbers : Numbers N) (documents : Documents N) (revision : ℤ) (hub repo : Json N)
    (x : SettingsSnapshot N) (path : List Text)
    → new_snapshot numbers documents revision hub repo ≡ okay (some x)
    → is_apart path mode_path ≡ true
    → IsMap hub
    → IsMap repo
    → IsLeaf (lookup path hub)
    → IsLeaf (lookup path repo)
    → lookup path x.effective ≡ tiered path x.defaults hub repo
unfolding new_snapshot derive_read_only
effective_tiers numbers documents revision hub repo x path h apart hm rm hl rl =
    let (defaults, read, h1) = and_then-okay documents.defaults _ (some x) h in
    let (u, checked, h2) =
      and_then-okay (validate_overlay numbers documents defaults hub []) _ (some x) h1 in
    let (v, checked', h3) =
      and_then-okay (validate_overlay numbers documents defaults repo []) _ (some x) h2 in
    let merged = merge (merge defaults hub) repo in
    let (derived, same, kept, kept') =
      made revision defaults hub repo (derive_read_only merged) x (okay-injective _ _ h3) in
    lookup-assign path mode_path (history_mode merged) merged x.effective apart derived
    ∙ (lookup-tiers path defaults hub repo hm rm hl rl
        ∙ ap (λ d. tiered path d hub repo) (sym same))
