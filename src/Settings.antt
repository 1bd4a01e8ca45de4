-- ===== src/Settings.antt =====
-- crates/fabric-settings/src/lib.rs: settings as JSON documents, which overlay one another, and the
-- paths into them. A value is an object, whose keys are all different, or not.
pub mod Validation
pub mod Snapshot
pub mod Layers
pub mod Tiers
pub mod Redaction
pub mod Changes
mod Tests
use forgewire_fabric.Prelude.{
  Bool, true, false, not, ◌&&◌, ◌||◌, Option, none, some, List, [], ◌∷◌, Text, text, text_eq, split,
  trim, is_empty, if◌then◌else◌,
}
use forgewire_fabric.Prelude.Results.{Result, err, okay, and_then}
use forgewire_fabric.Prelude.Json.{
  Scalar, null, bool, number, string, Json, scalar, arr, obj, Fields, end, field, get_field,
  insert_field, string_value,
}

pub data SettingsError : Type 0 where
  invalid_json : Text → SettingsError
  unknown_key : Text → SettingsError
  read_only : Text → SettingsError
  type_mismatch : Text → Text → Text → SettingsError
  root_not_object : SettingsError

abbrev pub mode_path : List Text
mode_path = text "history" ∷ text "mode" ∷ []

module _ {N : Type 0} where
  abbrev pub value_type : Json N → Text
  value_type (scalar null) = text "null"
  value_type (scalar (bool b)) = text "boolean"
  value_type (scalar (number n)) = text "number"
  value_type (scalar (string s)) = text "string"
  value_type (arr xs) = text "array"
  value_type (obj fs) = text "object"

  -- `value.get(key)`
  abbrev pub member : Text → Json N → Option (Json N)
  member key (obj fs) = get_field key fs
  member key (scalar s) = none
  member key (arr xs) = none

  abbrev pub through : (Json N → Option (Json N)) → Option (Json N) → Option (Json N)
  through more none = none
  through more (some v) = more v

  unfoldable pub lookup : List Text → Json N → Option (Json N)
  lookup [] root = some root
  lookup (k ∷ ks) root = through (lookup ks) (member k root)

  unfoldable pub pointer : Json N → Text → Option (Json N)
  unfolding lookup
  pointer root key = lookup (split b'.' key) root

  -- What is at a key, or nothing, overlaid by a value.
  unfoldable mutual
    pub merge_value : Option (Json N) → Json N → Json N
    merge_value base (scalar s) = scalar s
    merge_value base (arr xs) = arr xs
    merge_value none (obj overlay) = obj overlay
    merge_value (some (obj base)) (obj overlay) = obj (merge_fields base overlay)
    merge_value (some (scalar s)) (obj overlay) = obj overlay
    merge_value (some (arr xs)) (obj overlay) = obj overlay

    pub merge_fields : Fields N → Fields N → Fields N
    merge_fields base end = base
    merge_fields base (field k v rest) =
        merge_fields (insert_field k (merge_value (get_field k base) v) base) rest

  abbrev pub merge : Json N → Json N → Json N
  merge base overlay = merge_value (some base) overlay

  abbrev or_empty : Option (Json N) → Json N
  or_empty none = obj end
  or_empty (some v) = v

  abbrev with_field :
      Text → Fields N → Result SettingsError (Json N) → Result SettingsError (Json N)
  with_field k fs (err e) = err e
  with_field k fs (okay v) = okay (obj (insert_field k v fs))

  -- The value is set below objects, which are made where they are missing.
  abbrev set_in : Text → Text → List Text → Json N → Json N → Result SettingsError (Json N)
  set_in key last [] value (obj fs) = okay (obj (insert_field last value fs))
  set_in key last (k ∷ ks) value (obj fs) =
      with_field last fs (set_in key k ks value (or_empty (get_field last fs)))
  set_in key last ks value (scalar s) =
      err (type_mismatch key (text "object") (value_type (scalar s)))
  set_in key last ks value (arr xs) = err (type_mismatch key (text "object") (value_type (arr xs)))

  abbrev set_segments : Text → List Text → Json N → Json N → Result SettingsError (Json N)
  set_segments key [] value root = err (unknown_key key)
  set_segments key (k ∷ ks) value (obj fs) = set_in key k ks value (obj fs)
  set_segments key (k ∷ ks) value (scalar s) = err root_not_object
  set_segments key (k ∷ ks) value (arr xs) = err root_not_object

  unfoldable pub set_pointer : Json N → Text → Json N → Result SettingsError (Json N)
  set_pointer root key value = set_segments key (split b'.' key) value root

  abbrev remove_field : Text → Fields N → Fields N
  remove_field k end = end
  remove_field k (field j v fs) =
      let rest = remove_field k fs in if text_eq j k then rest else field j v rest

  abbrev pub replaced : Text → Fields N → Option (Json N) → (Json N → Json N) → Json N
  replaced k fs none f = obj fs
  replaced k fs (some v) f = obj (insert_field k (f v) fs)

  abbrev remove_in : Text → List Text → Json N → Json N
  remove_in last [] (obj fs) = obj (remove_field last fs)
  remove_in last (k ∷ ks) (obj fs) = replaced last fs (get_field last fs) (remove_in k ks)
  remove_in last ks (scalar s) = scalar s
  remove_in last ks (arr xs) = arr xs

  abbrev remove_segments : List Text → Json N → Json N
  remove_segments [] root = root
  remove_segments (k ∷ ks) root = remove_in k ks root

  unfoldable pub remove_pointer : Json N → Text → Json N
  remove_pointer root key = remove_segments (split b'.' key) root

  -- Assignment through `IndexMut`, which makes objects of nulls and panics on other values.
  abbrev pub or_null : Option (Json N) → Json N
  or_null none = scalar null
  or_null (some v) = v

  abbrev pub put_back : Text → Fields N → Option (Json N) → Option (Json N)
  put_back k fs none = none
  put_back k fs (some v) = some (obj (insert_field k v fs))

  unfoldable pub assign : List Text → Json N → Json N → Option (Json N)
  assign [] value root = some value
  assign (k ∷ ks) value (obj fs) = put_back k fs (assign ks value (or_null (get_field k fs)))
  assign (k ∷ ks) value (scalar null) = put_back k end (assign ks value (scalar null))
  assign (k ∷ ks) value (scalar (bool b)) = none
  assign (k ∷ ks) value (scalar (number n)) = none
  assign (k ∷ ks) value (scalar (string s)) = none
  assign (k ∷ ks) value (arr xs) = none

  abbrev says_text : Option (Json N) → Bool
  says_text none = false
  says_text (some (scalar (string s))) = not (is_empty (trim s))
  says_text (some v) = false

  abbrev says_true : Option (Json N) → Bool
  says_true none = false
  says_true (some (scalar (bool b))) = b
  says_true (some v) = false

  abbrev pub history_mode : Json N → Json N
  history_mode settings =
      let db = text "external_db" in
      string_value (
        if says_true (lookup (text "history" ∷ db ∷ text "provision" ∷ []) settings)
        then text "fabric-managed"
        else if says_text (lookup (text "history" ∷ db ∷ text "dsn" ∷ []) settings)
        then text "external"
        else text "thin")

  unfoldable pub derive_read_only : Json N → Option (Json N)
  unfolding lookup assign
  derive_read_only settings = assign mode_path (history_mode settings) settings
