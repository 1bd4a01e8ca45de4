-- ===== src/Settings/Validation.antt =====
-- crates/fabric-settings/src/lib.rs: what the schema says of a path, and the checks of values by it.
use forgewire_fabric.Prelude.{
  Bool, true, false, not, ◌&&◌, ◌||◌, Option, none, some, List, [], ◌∷◌, ◌++◌, Text, text, text_eq,
  split, contains_text, is_empty, any, if◌then◌else◌,
}
use forgewire_fabric.Prelude.Results.{Result, err, okay, and_then, ok_or}
use forgewire_fabric.Prelude.Json.{
  bool, number, string, Json, scalar, arr, obj, Fields, end, field, get_field, to_list, json_eq,
}
use forgewire_fabric.Settings.{
  SettingsError, unknown_key, type_mismatch, root_not_object, value_type, member, through,
}

-- What the source asks of the numbers of serde_json.
pub record Numbers (N : Type 0) : Type 0 where
  pub num_eq : N → N → Bool
  pub is_integer : N → Bool
  pub num_ltb : N → N → Bool
  pub num_leb : N → N → Bool

-- The two documents that are compiled in, or the errors of their parse.
pub record Documents (N : Type 0) : Type 0 where
  pub defaults : Result SettingsError (Json N)
  pub schema : Result SettingsError (Json N)

abbrev pub joined_path : Text → Text → Text
joined_path prefix key = if is_empty prefix then key else prefix ++ b'.' ∷ key

module _ {N : Type 0} (numbers : Numbers N) (documents : Documents N) where
  open numbers use {num_eq, is_integer, num_ltb, num_leb}

  abbrev descend : Text → List Text → Json N → Result SettingsError (Json N)
  descend key [] node = okay node
  descend key (segment ∷ segments) node =
      and_then
        (ok_or (unknown_key key) (through (member segment) (member (text "properties") node)))
        (descend key segments)

  unfoldable pub schema_for_path : Text → Result SettingsError (Json N)
  schema_for_path key = and_then documents.schema (descend key (split b'.' key))

  abbrev is_whole : Json N → Bool
  is_whole (scalar (number n)) = is_integer n
  is_whole v = false

  abbrev is_string : Text → Json N → Bool
  is_string s (scalar (string t)) = text_eq t s
  is_string s v = false

  abbrev says : Text → Option (Json N) → Bool
  says s none = false
  says s (some v) = is_string s v

  abbrev is_kind : Json N → Json N → Bool
  is_kind actual kind =
      is_string (value_type actual) kind || (is_string (text "integer") kind && is_whole actual)

  abbrev any_kind : Json N → Json N → Bool
  any_kind actual (arr kinds) = any (is_kind actual) (to_list kinds)
  any_kind actual (scalar s) = false
  any_kind actual (obj fs) = false

  abbrev is_compatible : Json N → Option (Json N) → Bool
  is_compatible actual none = false
  is_compatible actual (some types) = is_kind actual types || any_kind actual types

  abbrev differs_from : Json N → Option (Json N) → Bool
  differs_from actual none = false
  differs_from actual (some constant) = not (json_eq num_eq constant actual)

  abbrev is_missing_in : Json N → Option (Json N) → Bool
  is_missing_in actual (some (arr values)) =
      not (any (λ v. json_eq num_eq v actual) (to_list values))
  is_missing_in actual none = false
  is_missing_in actual (some (scalar s)) = false
  is_missing_in actual (some (obj fs)) = false

  -- A test of a number against a bound of the schema that is a number.
  abbrev against : (N → N → Bool) → Json N → Option (Json N) → Bool
  against test (scalar (number n)) (some (scalar (number m))) = test n m
  against test actual bound = false

  abbrev repeats : List (Json N) → List (Json N) → Bool
  repeats before [] = false
  repeats before (v ∷ vs) = any (λ w. json_eq num_eq w v) before || repeats (before ++ v ∷ []) vs

  abbrev is_true : Option (Json N) → Bool
  is_true (some (scalar (bool b))) = b
  is_true o = false

  abbrev lacks_text : Json N → Bool
  lacks_text (scalar (string s)) = is_empty s
  lacks_text v = true

  abbrev of_items : (List (Json N) → Bool) → Json N → Bool
  of_items test (arr xs) = test (to_list xs)
  of_items test (scalar s) = false
  of_items test (obj fs) = false

  abbrev is_no_uri : Json N → Bool
  is_no_uri (scalar (string s)) = not (contains_text s (text "://"))
  is_no_uri v = false

  -- The checks of a value in order, each with what it expects and what it reports to have found.
  abbrev pub faults : Json N → Json N → List (Bool × Text × Text)
  faults node actual =
      let found = value_type actual in
      (not (is_compatible actual (member (text "type") node)), text "schema-declared type", found)
      ∷ (differs_from actual (member (text "const") node), text "schema constant", found)
      ∷ (is_missing_in actual (member (text "enum") node), text "allowed enum value", found)
      ∷ (
        against num_ltb actual (member (text "minimum") node)
            || against (λ n m. num_ltb m n) actual (member (text "maximum") node),
        text "number within schema bounds",
        text "number",
      )
      ∷ (
        against num_leb actual (member (text "exclusiveMinimum") node),
        text "number above schema minimum",
        text "number",
      )
      ∷ (
        is_true (member (text "uniqueItems") node) && of_items (repeats []) actual,
        text "unique array values",
        text "array",
      )
      ∷ (
        says (text "string") (through (member (text "type")) (member (text "items") node))
            && of_items (any lacks_text) actual,
        text "non-empty string array",
        text "array",
      )
      ∷ (
        says (text "uri") (member (text "format") node) && is_no_uri actual,
        text "URI",
        text "string",
      )
      ∷ []

  abbrev pub first_fault : Text → List (Bool × Text × Text) → Result SettingsError (Unit {0})
  first_fault key [] = okay tt
  first_fault key ((true, expected, actual) ∷ rest) = err (type_mismatch key expected actual)
  first_fault key ((false, expected, actual) ∷ rest) = first_fault key rest

  unfoldable pub validate_value : Text → Json N → Result SettingsError (Unit {0})
  validate_value key actual =
      and_then (schema_for_path key) (λ node. first_fault key (faults node actual))

  unfoldable mutual
    pub validate_overlay : Json N → Json N → Text → Result SettingsError (Unit {0})
    validate_overlay (obj defaults) (obj entries) prefix = validate_entries defaults entries prefix
    validate_overlay (scalar s) overlay prefix = err root_not_object
    validate_overlay (arr xs) overlay prefix = err root_not_object
    validate_overlay (obj defaults) (scalar s) prefix = err root_not_object
    validate_overlay (obj defaults) (arr xs) prefix = err root_not_object

    pub validate_entries : Fields N → Fields N → Text → Result SettingsError (Unit {0})
    validate_entries defaults end prefix = okay tt
    validate_entries defaults (field key value rest) prefix =
        and_then (validate_entry (get_field key defaults) value (joined_path prefix key))
          (λ u. validate_entries defaults rest prefix)

    pub validate_entry : Option (Json N) → Json N → Text → Result SettingsError (Unit {0})
    validate_entry none value path = err (unknown_key path)
    validate_entry (some (obj expected)) (obj entries) path = validate_entries expected entries path
    validate_entry (some (obj expected)) (scalar s) path = validate_value path (scalar s)
    validate_entry (some (obj expected)) (arr xs) path = validate_value path (arr xs)
    validate_entry (some (scalar s)) value path = validate_value path value
    validate_entry (some (arr xs)) value path = validate_value path value

  -- The paths of the schema that have a flag, in the order of its maps.
  abbrev mutual
    pub walk : Text → Text → Json N → List Text
    walk flag prefix (scalar s) = []
    walk flag prefix (arr xs) = []
    walk flag prefix (obj fs) =
        if is_true (get_field flag fs) && not (is_empty prefix)
        then prefix ∷ walk_properties flag prefix fs
        else walk_properties flag prefix fs

    pub walk_properties : Text → Text → Fields N → List Text
    walk_properties flag prefix end = []
    walk_properties flag prefix (field k v fs) =
        let later = walk_properties flag prefix fs in
        let here = walk_children flag prefix v in
        if text_eq k (text "properties") then here else later

    pub walk_children : Text → Text → Json N → List Text
    walk_children flag prefix (scalar s) = []
    walk_children flag prefix (arr xs) = []
    walk_children flag prefix (obj fs) = walk_each flag prefix fs

    pub walk_each : Text → Text → Fields N → List Text
    walk_each flag prefix end = []
    walk_each flag prefix (field key child fs) =
        walk flag (joined_path prefix key) child ++ walk_each flag prefix fs

  unfoldable pub schema_paths : Text → Result SettingsError (List Text)
  schema_paths flag = and_then documents.schema (λ root. okay (walk flag [] root))

  abbrev pub sensitive_paths : Result SettingsError (List Text)
  sensitive_paths = schema_paths (text "x-sensitive")

  abbrev pub read_only_paths : Result SettingsError (List Text)
  read_only_paths = schema_paths (text "readOnly")
