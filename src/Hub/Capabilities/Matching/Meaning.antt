-- ===== src/Hub/Capabilities/Matching/Meaning.antt =====
-- crates/fabric-hub/src/capabilities.rs: what each operator of a predicate asks of a value.
use mathlib.Core.Path.{subst}
use forgewire_fabric.Prelude.{
  ℕ, ◌≡◌, ◌≢◌, refl, sym, ap, ◌∙◌, ◌↔◌, Bool, true, false, Option, none, some, List, [], ◌∷◌, ◌++◌,
  if◌then◌else◌, Text, text, text_eq, text_eq_iff, contains_text, Exists, any_iff, iff_trans, ◌==◌,
  ==_iff,
}
use forgewire_fabric.Prelude.Json.{
  null, bool, number, string, Json, scalar, arr, obj, nil, cons, end, field, to_list, json_eq,
}
use forgewire_fabric.Hub.Capabilities.{Predicate, Numbers}
use forgewire_fabric.Hub.Capabilities.Resolve.{resolve, display, version_tuple}
use forgewire_fabric.Hub.Capabilities.Matching.{
  failed, met, present, compatible, by_test, by_value, evaluate,
}
use forgewire_fabric.Hub.Capabilities.Matching.Orders.{
  not_iff, both_iff, iff_self, AsVersions, IsAtLeast, IsMore, IsAtMost, IsLess, IsAtLeast-iff,
  IsMore-iff, IsAtMost-iff, IsLess-iff,
}

module _ {N : Type 0} (numbers : Numbers N) where
  open numbers use {num_eq}

  -- The versions have the same first part, and the second has another part behind it.
  abbrev SameFirst : List ℕ → List ℕ → Type 0
  SameFirst (m ∷ a) (n ∷ k ∷ b) = n ≡ m
  SameFirst (m ∷ a) (n ∷ []) = ⊥
  SameFirst (m ∷ a) [] = ⊥
  SameFirst [] b = ⊥

  abbrev pub IsCompatible : Json N → Json N → Type 0
  IsCompatible v l =
      AsVersions numbers SameFirst (version_tuple numbers v) (version_tuple numbers l)
      × IsAtLeast numbers v l

  -- Items of a list, or a part of a text; nothing else has anything in it.
  abbrev pub Contains : Json N → Json N → Type 0
  Contains (arr xs) l = Exists (λ x. json_eq num_eq x l ≡ true) (to_list xs)
  Contains (scalar (string s)) l = contains_text s (display numbers l) ≡ true
  Contains (scalar null) l = ⊥
  Contains (scalar (bool b)) l = ⊥
  Contains (scalar (number n)) l = ⊥
  Contains (obj fs) l = ⊥

  abbrev pub IsPresent : Json N → Type 0
  IsPresent v =
      (v ≢ scalar null)
      × (v ≢ scalar (bool false))
      × (v ≢ scalar (string []))
      × (v ≢ arr nil)
      × (v ≢ obj end)

  compatible_iff :
      {P : Type 0} (a b : Option (List ℕ)) (ge : Bool)
      → (ge ≡ true) ↔ P
      → (compatible numbers a b ge ≡ true) ↔ (AsVersions numbers SameFirst a b × P)
  compatible_iff none b ge i = (λ h. cc, λ e. absurd e.0)
  compatible_iff (some a) none ge i = (λ h. cc, λ e. absurd e.0)
  compatible_iff (some []) (some []) ge i = (λ h. cc, λ e. absurd e.0)
  compatible_iff (some (m ∷ a)) (some []) ge i = (λ h. cc, λ e. absurd e.0)
  compatible_iff (some []) (some (n ∷ [])) ge i = (λ h. cc, λ e. absurd e.0)
  compatible_iff (some (m ∷ a)) (some (n ∷ [])) ge i = (λ h. cc, λ e. absurd e.0)
  compatible_iff (some []) (some (n ∷ k ∷ b)) ge i = (λ h. cc, λ e. absurd e.0)
  compatible_iff (some (m ∷ a)) (some (n ∷ k ∷ b)) ge i = both_iff (n == m) ge (==_iff n m) i

  by_test_iff :
      {P : Type 0} (path op : Text) (v l : Json N) (b : Bool)
      → (b ≡ true) ↔ P
      → (by_test numbers path op v l (some b) ≡ met) ↔ P
  by_test_iff path op v l true i = (λ h. i.0 refl, λ p. refl)
  by_test_iff path op v l false i = (λ h. cc, λ p. cc (i.1 p))

  present_iff : (v : Json N) → (present numbers v ≡ true) ↔ IsPresent v
  present_iff (scalar null) = (λ h. cc, λ n. absurd (n.0 refl))
  present_iff (scalar (bool true)) = (λ h. (λ e. cc, λ e. cc, λ e. cc, λ e. cc, λ e. cc), λ n. refl)
  present_iff (scalar (bool false)) = (λ h. cc, λ n. absurd (n.1 refl))
  present_iff (scalar (number n)) = (λ h. (λ e. cc, λ e. cc, λ e. cc, λ e. cc, λ e. cc), λ n. refl)
  present_iff (scalar (string [])) = (λ h. cc, λ n. absurd (n.2 refl))
  present_iff (scalar (string (c ∷ s))) =
      (λ h. (λ e. cc, λ e. cc, λ e. cc, λ e. cc, λ e. cc), λ n. refl)
  present_iff (arr nil) = (λ h. cc, λ n. absurd (n.3 refl))
  present_iff (arr (cons x xs)) = (λ h. (λ e. cc, λ e. cc, λ e. cc, λ e. cc, λ e. cc), λ n. refl)
  present_iff (obj end) = (λ h. cc, λ n. absurd (n.4 refl))
  present_iff (obj (field k v fs)) = (λ h. (λ e. cc, λ e. cc, λ e. cc, λ e. cc, λ e. cc), λ n. refl)

  holds_in_iff :
      (raw path : Text) (v l : Json N)
      → (by_value numbers
            (record { raw = raw; path = path; op = some (text "in"); literal = some l })
            (some v)
          ≡ met)
        ↔ Contains v l
  holds_in_iff raw path (arr xs) l =
      by_test_iff path (text "in") (arr xs) l _
        (any_iff (λ x. json_eq num_eq x l) (λ x. iff_self) (to_list xs))
  holds_in_iff raw path (scalar (string s)) l =
      by_test_iff path (text "in") (scalar (string s)) l _ iff_self
  holds_in_iff raw path (scalar null) l = (λ h. cc, λ e. absurd e)
  holds_in_iff raw path (scalar (bool b)) l = (λ h. cc, λ e. absurd e)
  holds_in_iff raw path (scalar (number n)) l = (λ h. cc, λ e. absurd e)
  holds_in_iff raw path (obj fs) l = (λ h. cc, λ e. absurd e)

  IsPresent-met_iff :
      (raw path : Text) (v : Json N)
      → (by_value numbers (record { raw = raw; path = path; op = none; literal = none }) (some v)
          ≡ met)
        ↔ IsPresent v
  IsPresent-met_iff raw path v = iff_trans (branch (present numbers v)) (present_iff v)
    where
      branch : (b : Bool) → ((if b then met else failed (text "empty " ++ path)) ≡ met) ↔ (b ≡ true)
      branch true = (λ h. refl, λ h. refl)
      branch false = (λ h. cc, λ h. cc)

abbrev pub asks : {N : Type 0} → Text → Text → Text → Json N → Predicate N
asks raw path op literal = record { raw = raw; path = path; op = some op; literal = some literal }

abbrev pub asks_presence : {N : Type 0} → Text → Text → Predicate N
asks_presence raw path = record { raw = raw; path = path; op = none; literal = none }

module _ {N : Type 0} (numbers : Numbers N) (caps : Json N) (path : Text) (v : Json N)
    (e : resolve numbers caps path ≡ some v) where
  at :
      {P : Type 0} (p : Predicate N)
      → p.path ≡ path
      → (by_value numbers p (some v) ≡ met) ↔ P
      → (by_value numbers p (resolve numbers caps p.path) ≡ met) ↔ P
  at {P} p same i =
      subst (λ o. (by_value numbers p o ≡ met) ↔ P) (sym (ap (resolve numbers caps) same ∙ e)) i

  -- A predicate is met by what the capabilities have at its path exactly as its operator says: with
  -- `==` and `!=` the printed value is, or is not, the printed literal; with `>=`, `>`, `<=` and `<`
  -- two numbers are in that order, and two other values are if both read as versions, the first of
  -- which is older, or not, at the first part that differs, missing parts counting as 0; with `~=` the
  -- value is at least the literal, both read as versions with the same first part, and the literal has
  -- a second part; with `in` the list has an item equal to the literal, or the text has the printed
  -- literal in it; and without an operator, the value is neither null, false nor empty.
  pub evaluate_iff :
      (raw : Text) (l : Json N)
      → ((evaluate numbers (asks raw path (text "==") l) caps ≡ met)
          ↔ (display numbers v ≡ display numbers l))
        × ((evaluate numbers (asks raw path (text "!=") l) caps ≡ met)
            ↔ (display numbers v ≢ display numbers l))
        × ((evaluate numbers (asks raw path (text ">=") l) caps ≡ met) ↔ IsAtLeast numbers v l)
        × ((evaluate numbers (asks raw path (text ">") l) caps ≡ met) ↔ IsMore numbers v l)
        × ((evaluate numbers (asks raw path (text "<=") l) caps ≡ met) ↔ IsAtMost numbers v l)
        × ((evaluate numbers (asks raw path (text "<") l) caps ≡ met) ↔ IsLess numbers v l)
        × ((evaluate numbers (asks raw path (text "~=") l) caps ≡ met) ↔ IsCompatible numbers v l)
        × ((evaluate numbers (asks raw path (text "in") l) caps ≡ met) ↔ Contains numbers v l)
        × ((evaluate numbers (asks_presence raw path) caps ≡ met) ↔ IsPresent numbers v)
  unfolding evaluate
  evaluate_iff raw l = (
    at (asks raw path (text "==") l) refl (
        by_test_iff numbers path (text "==") v l _
          (text_eq_iff (display numbers v) (display numbers l))),
    at (asks raw path (text "!=") l) refl (
        by_test_iff numbers path (text "!=") v l _ (
          not_iff (text_eq (display numbers v) (display numbers l))
            (text_eq_iff (display numbers v) (display numbers l)))),
    at (asks raw path (text ">=") l) refl
        (by_test_iff numbers path (text ">=") v l _ (IsAtLeast-iff numbers v l)),
    at (asks raw path (text ">") l) refl
        (by_test_iff numbers path (text ">") v l _ (IsMore-iff numbers v l)),
    at (asks raw path (text "<=") l) refl
        (by_test_iff numbers path (text "<=") v l _ (IsAtMost-iff numbers v l)),
    at (asks raw path (text "<") l) refl
        (by_test_iff numbers path (text "<") v l _ (IsLess-iff numbers v l)),
    at (asks raw path (text "~=") l) refl (
        by_test_iff numbers path (text "~=") v l _ (
          compatible_iff numbers (version_tuple numbers v) (version_tuple numbers l) _
            (IsAtLeast-iff numbers v l))),
    at (asks raw path (text "in") l) refl (holds_in_iff numbers raw path v l),
    at (asks_presence raw path) refl (IsPresent-met_iff numbers raw path v),
  )
