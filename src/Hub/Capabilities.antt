-- ===== src/Hub/Capabilities.antt =====
-- crates/fabric-hub/src/capabilities.rs: the predicates that a task puts on the capabilities of a
-- runner. A slice out of bounds panics, which is the absence of a result here. Numbers of JSON, the
-- lower case of Unicode and serde_json's print of a value are parameters.
pub mod Resolve
pub mod Matching
mod Tests
use forgewire_fabric.Prelude.{
  ℕ, zero, suc, ◌+◌, ◌-◌, ◌==◌, Bool, true, false, not, ◌&&◌, ◌||◌, Option, none, some, List, [],
  ◌∷◌, ◌++◌, Text, text, text_eq, starts_with, strip_prefix, ends_with, contains_char, drop, take,
  length, trim, is_empty, if◌then◌else◌,
}
use forgewire_fabric.Prelude.Int.{ℤ}
use forgewire_fabric.Prelude.Digits.{parse_i64}
use forgewire_fabric.Prelude.Json.{Json, number, string, scalar}

pub record Predicate (N : Type 0) : Type 0 where
  pub raw : Text
  pub path : Text
  pub op : Option Text
  pub literal : Option (Json N)

-- Numbers: of an `i64`, of a text of an `f64` (not a number gives null), and their order.
pub record Numbers (N : Type 0) : Type 0 where
  pub from_i64 : ℤ → N
  pub parse_f64 : Text → Option (Json N)
  pub num_eq : N → N → Bool
  pub num_ltb : N → N → Bool
  pub num_leb : N → N → Bool
  pub to_string : Json N → Text
  pub to_lowercase : Text → Text

-- `text.find(op)`, as the texts before and after the first occurrence
abbrev in_rest : ℕ → Option (Text × Text) → Option (Text × Text)
in_rest c none = none
in_rest c (some (before, after)) = some (c ∷ before, after)

abbrev found_first : Option Text → Option (Text × Text) → Option (Text × Text)
found_first none later = later
found_first (some after) later = some ([], after)

abbrev pub find_op : Text → Text → Option (Text × Text)
find_op op [] = found_first (strip_prefix [] op) none
find_op op (c ∷ s) =
    let later = find_op op s in found_first (strip_prefix (c ∷ s) op) (in_rest c later)

-- `text.matches('.').count()`
abbrev pub count_char : ℕ → Text → ℕ
count_char d [] = 0
count_char d (c ∷ s) = let rest = count_char d s in if c == d then rest + 1 else rest

abbrev pub quoted_by : ℕ → Text → Bool
quoted_by q s = starts_with s (q ∷ []) && ends_with s (q ∷ [])

-- `&trimmed[1..trimmed.len().saturating_sub(1)]`, which panics on a text of one character.
abbrev pub inner : Text → Option Text
inner [] = some []
inner (c ∷ []) = none
inner (c ∷ d ∷ s) = some (take (length (d ∷ s) - 1) (d ∷ s))

unfoldable pub unquoted : Text → Option Text
unquoted trimmed =
    if quoted_by b'"' trimmed || quoted_by b'\'' trimmed then inner trimmed else some trimmed

module _ {N : Type 0} (numbers : Numbers N) where
  open numbers use {from_i64, parse_f64}

  abbrev or_number : Option (Json N) → Text → Json N
  or_number none s = scalar (string s)
  or_number (some v) s = v

  abbrev or_float : Option ℤ → Text → Json N
  or_float (some n) s = scalar (number (from_i64 n))
  or_float none s = if count_char b'.' s == 1 then or_number (parse_f64 s) s else scalar (string s)

  abbrev pub literal_of : Option Text → Option (Json N)
  literal_of none = none
  literal_of (some s) = some (or_float (parse_i64 s) s)

  unfoldable pub parse_literal : Text → Option (Json N)
  parse_literal token = literal_of (unquoted (trim token))

  abbrev with_literal : Text → Text → Text → Option (Json N) → Option (Predicate N)
  with_literal raw path op none = none
  with_literal raw path op (some v) =
      some (record { raw = raw; path = path; op = some op; literal = some v })

  abbrev pub operators : List Text
  operators =
      text "=="
      ∷ text "!="
      ∷ text ">="
      ∷ text "<="
      ∷ text ">"
      ∷ text "<"
      ∷ text "~="
      ∷ text " in "
      ∷ []

  abbrev split_by : Text → Text → Text × Text → Option (Predicate N)
  split_by raw op (before, after) =
      if text_eq op (text " in ")
      then with_literal raw (trim after) (text "in") (parse_literal (trim before))
      else with_literal raw (trim before) op (parse_literal (trim after))

  abbrev by_op : Text → Text → Option (Text × Text) → Option (Predicate N) → Option (Predicate N)
  by_op raw op none later = later
  by_op raw op (some sides) later = split_by raw op sides

  abbrev pub by_operators : List Text → Text → Option (Predicate N)
  by_operators [] raw = some (record { raw = raw; path = raw; op = none; literal = none })
  by_operators (op ∷ ops) raw =
      let later = by_operators ops raw in by_op raw op (find_op op raw) later

  -- What comes of parsing: a panic, an error or a predicate.
  pub data Parsed : Type 0 where
    panicked : Parsed
    refused : Text → Parsed
    parsed : Predicate N → Parsed

  abbrev parsed_of : Option (Predicate N) → Parsed
  parsed_of none = panicked
  parsed_of (some p) = parsed p

  unfoldable pub parse : Text → Parsed
  parse expr =
      if is_empty (trim expr)
      then refused (text "empty capability predicate")
      else parsed_of (by_operators operators (trim expr))
