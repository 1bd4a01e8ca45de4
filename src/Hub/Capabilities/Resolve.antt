-- ===== src/Hub/Capabilities/Resolve.antt =====
-- crates/fabric-hub/src/capabilities.rs: the value that a path of a predicate stands for, and the
-- comparison of values as numbers or versions.
use forgewire_fabric.Prelude.{
  ℕ, ◌-◌, ◌^◌, Bool, true, false, not, ◌||◌, Option, none, some, List, [], ◌∷◌, map, Text, text,
  text_eq, split, trim, drop_while, drop_end_while, is_whitespace, is_empty, any, filter, ltb, ◌==◌,
  if◌then◌else◌,
}
use forgewire_fabric.Prelude.Digits.{is_digit, parse_digits}
use forgewire_fabric.Prelude.Json.{
  null, bool, number, string, Json, scalar, arr, obj, get_field, to_list,
}
use forgewire_fabric.Hub.Capabilities.{Numbers, find_op}

abbrev pub as_str : {N : Type 0} → Json N → Option Text
as_str (scalar (string s)) = some s
as_str v = none

abbrev is_text : Text → Option Text → Bool
is_text part none = false
is_text part (some s) = text_eq s part

-- `split_whitespace().next().unwrap_or("")`
abbrev take_word : Text → Text
take_word [] = []
take_word (c ∷ s) = let rest = take_word s in if is_whitespace c then [] else c ∷ rest

abbrev first_word : Text → Text
first_word s = take_word (drop_while is_whitespace s)

abbrev version_in : Text → Text
version_in tail =
    drop_end_while (λ c. c == b',' || (c == b';' || c == b')'))
      (first_word (drop_while (λ c. c == b':' || c == b'-') tail))

module _ {N : Type 0} (numbers : Numbers N) where
  open numbers use {num_ltb, num_leb, to_string, to_lowercase}

  abbrev label_value : Option (Text × Text) → Option (Json N)
  label_value none = none
  label_value (some (before, tail)) =
      if is_empty (version_in tail)
      then some (scalar (bool true))
      else some (scalar (string (version_in tail)))

  abbrev next : (Json N → Option (Json N)) → Option (Json N) → Option (Json N)
  next more none = none
  next more (some v) = more v

  abbrev resolve_parts : List Text → Json N → Option (Json N)
  resolve_parts [] current = some current
  resolve_parts (part ∷ parts) (obj fs) = next (resolve_parts parts) (get_field part fs)
  resolve_parts (part ∷ parts) (arr xs) =
      some (scalar (bool (any (λ v. is_text part (as_str v)) (to_list xs))))
  resolve_parts (part ∷ parts) (scalar (string label)) =
      label_value (find_op (to_lowercase part) (to_lowercase label))
  resolve_parts (part ∷ parts) (scalar null) = none
  resolve_parts (part ∷ parts) (scalar (bool b)) = none
  resolve_parts (part ∷ parts) (scalar (number n)) = none

  unfoldable pub resolve : Json N → Text → Option (Json N)
  resolve caps path = resolve_parts (filter (λ part. not (is_empty part)) (split b'.' path)) caps

  abbrev or_print : Option Text → Json N → Text
  or_print none v = to_string v
  or_print (some s) v = s

  abbrev pub display : Json N → Text
  display v = or_print (as_str v) v

  -- Every part of a version, or nothing.
  abbrev all_some : List (Option ℕ) → Option (List ℕ)
  all_some [] = some []
  all_some (none ∷ os) = none
  all_some (some n ∷ os) = elim (all_some os) [ none ↦ none | some ns ↦ some (n ∷ ns) ]

  unfoldable pub version_tuple : Json N → Option (List ℕ)
  version_tuple value =
      if is_empty (trim (display value))
      then none
      else all_some (
          map (λ part. parse_digits (2 ^ 64 - 1) (filter is_digit part))
            (split b'.' (display value)))

  -- `a.resize(width, 0)` of both to the larger width, and their order as lists
  abbrev pub versions_ltb : List ℕ → List ℕ → Bool
  versions_ltb [] [] = false
  versions_ltb [] (n ∷ b) = if n == 0 then versions_ltb [] b else true
  versions_ltb (m ∷ a) [] = if m == 0 then versions_ltb a [] else false
  versions_ltb (m ∷ a) (n ∷ b) =
      if ltb m n then true else if ltb n m then false else versions_ltb a b

  abbrev by_op {ℓ} : {A : Type ℓ} → Text → A → A → A → A → A → A
  by_op op ge gt le lt other =
      if text_eq op (text ">=")
      then ge
      else if text_eq op (text ">")
      then gt
      else if text_eq op (text "<=")
      then le
      else if text_eq op (text "<")
      then lt
      else other

  abbrev pub compare_versions : Text → Option (List ℕ) → Option (List ℕ) → Option Bool
  compare_versions op none b = none
  compare_versions op (some a) none = none
  compare_versions op (some a) (some b) = some (
      by_op op (not (versions_ltb a b)) (versions_ltb b a) (not (versions_ltb b a))
        (versions_ltb a b) false)

  abbrev pub as_number : Json N → Option N
  as_number (scalar (number n)) = some n
  as_number v = none

  abbrev pub compare_numbers : Text → Option N → Option N → Option Bool → Option Bool
  compare_numbers op (some a) (some b) versions =
      some (by_op op (num_leb b a) (num_ltb b a) (num_leb a b) (num_ltb a b) false)
  compare_numbers op (some a) none versions = versions
  compare_numbers op none b versions = versions

  unfoldable pub compare_ordered : Json N → Json N → Text → Option Bool
  compare_ordered value literal op =
      compare_numbers op (as_number value) (as_number literal)
        (compare_versions op (version_tuple value) (version_tuple literal))
