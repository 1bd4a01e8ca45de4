-- ===== src/Hub/Capabilities/Matching.antt =====
-- crates/fabric-hub/src/capabilities.rs: whether capabilities meet what a task requires.
pub mod Panics
pub mod Versions
pub mod Orders
pub mod Meaning
use forgewire_fabric.Prelude.{
  ℕ, ◌≡◌, Bool, true, false, not, ◌&&◌, ◌||◌, Option, none, some, List, [], ◌∷◌, ◌++◌, map, Text,
  text, text_eq, contains_text, is_empty, any, length, leb, ◌==◌, if◌then◌else◌,
}
use forgewire_fabric.Prelude.Json.{
  Scalar, null, bool, number, string, Json, scalar, arr, obj, Items, nil, cons, Fields, end, field,
  to_list, json_eq,
}
use forgewire_fabric.Hub.Capabilities.{Predicate, Numbers, Parsed, panicked, refused, parsed, parse}
use forgewire_fabric.Hub.Capabilities.Resolve.{
  as_str, resolve, display, version_tuple, compare_ordered,
}

-- What comes of a predicate: a panic, the reason of a failure, or nothing.
pub data Outcome : Type 0 where
  panic : Outcome
  failed : Text → Outcome
  met : Outcome

module _ {N : Type 0} (numbers : Numbers N) where
  open numbers use {num_eq}

  -- Whether a value counts as there.
  abbrev pub present : Json N → Bool
  present (scalar null) = false
  present (scalar (bool b)) = b
  present (scalar (number n)) = true
  present (scalar (string s)) = not (is_empty s)
  present (arr nil) = false
  present (arr (cons x xs)) = true
  present (obj end) = false
  present (obj (field k v fs)) = true

  abbrev pub is_true : Option Bool → Bool
  is_true (some b) = b
  is_true none = false

  abbrev pub head_is : ℕ → List ℕ → Bool
  head_is n [] = false
  head_is n (m ∷ a) = n == m

  -- `a[0] == b[0] && compare_ordered(..)` for versions of which the second has two parts
  abbrev pub compatible : Option (List ℕ) → Option (List ℕ) → Bool → Bool
  compatible none b ge = false
  compatible (some a) none ge = false
  compatible (some a) (some []) ge = false
  compatible (some a) (some (n ∷ [])) ge = false
  compatible (some a) (some (n ∷ m ∷ b)) ge = head_is n a && ge

  -- The test of an operator, or the reason why it does not apply.
  abbrev holds_in : Text → Json N → Json N → Option Bool
  holds_in path (arr xs) literal = some (any (λ x. json_eq num_eq x literal) (to_list xs))
  holds_in path (scalar (string s)) literal = some (contains_text s (display numbers literal))
  holds_in path (scalar null) literal = none
  holds_in path (scalar (bool b)) literal = none
  holds_in path (scalar (number n)) literal = none
  holds_in path (obj fs) literal = none

  abbrev holds : Text → Text → Json N → Json N → Option Bool
  holds path op value literal =
      if text_eq op (text "in")
      then holds_in path value literal
      else if text_eq op (text "==")
      then some (text_eq (display numbers value) (display numbers literal))
      else if text_eq op (text "!=")
      then some (not (text_eq (display numbers value) (display numbers literal)))
      else if text_eq op (text "~=")
      then some (
          compatible (version_tuple numbers value) (version_tuple numbers literal)
            (is_true (compare_ordered numbers value literal (text ">="))))
      else some (is_true (compare_ordered numbers value literal op))

  abbrev failure : Text → Text → Json N → Json N → Text
  failure path op value literal =
      path
      ++ b'='
        ∷ (display numbers value
            ++ b' ' ∷ (op ++ b' ' ∷ (display numbers literal ++ text " failed")))

  abbrev pub by_test : Text → Text → Json N → Json N → Option Bool → Outcome
  by_test path op value literal none = failed (path ++ text " not iterable")
  by_test path op value literal (some true) = met
  by_test path op value literal (some false) = failed (failure path op value literal)

  -- An operator comes with a literal; `expect` panics without one.
  abbrev by_literal : Text → Text → Json N → Option (Json N) → Outcome
  by_literal path op value none = panic
  by_literal path op value (some literal) =
      by_test path op value literal (holds path op value literal)

  abbrev by_operator : Text → Option Text → Json N → Option (Json N) → Outcome
  by_operator path none value literal =
      if present value then met else failed (text "empty " ++ path)
  by_operator path (some op) value literal = by_literal path op value literal

  abbrev by_value : Predicate N → Option (Json N) → Outcome
  by_value p none = failed (text "missing " ++ p.path)
  by_value p (some value) = by_operator p.path p.op value p.literal

  unfoldable pub evaluate : Predicate N → Json N → Outcome
  evaluate p caps = by_value p (resolve numbers caps p.path)

  abbrev pub of_parsed : Parsed numbers → Json N → Outcome
  of_parsed panicked caps = panic
  of_parsed (refused reason) caps = failed reason
  of_parsed (parsed p) caps = evaluate p caps

  unfoldable pub outcome : Text → Json N → Outcome
  unfolding evaluate
  outcome raw caps = of_parsed (parse numbers raw) caps

  -- The loop over the predicates that are strings: nothing if it panics, or the reasons.
  abbrev pub add_reason : Outcome → Option (List Text) → Option (List Text)
  add_reason panic later = none
  add_reason met later = later
  add_reason (failed reason) none = none
  add_reason (failed reason) (some missing) = some (reason ∷ missing)

  abbrev pub add_text : Option Text → Json N → Option (List Text) → Option (List Text)
  add_text none caps later = later
  add_text (some raw) caps later = add_reason (outcome raw caps) later

  unfoldable pub collect_missing : List (Json N) → Json N → Option (List Text)
  collect_missing [] caps = some []
  collect_missing (v ∷ vs) caps = add_text (as_str v) caps (collect_missing vs caps)

  abbrev pub required_items : Json N → List (Json N)
  required_items (arr xs) = to_list xs
  required_items (scalar s) = []
  required_items (obj fs) = []

  abbrev pub with_verdict : Option (List Text) → Option (Bool × List Text)
  with_verdict none = none
  with_verdict (some missing) = some (is_empty missing, missing)

  unfoldable pub match_required : Json N → Json N → Option (Bool × List Text)
  unfolding collect_missing
  match_required required caps = with_verdict (collect_missing (required_items required) caps)
