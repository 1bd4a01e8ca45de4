-- ===== src/Lanes/Redact.antt =====
-- crates/fabric-compute-lanes/src/redact.rs: the redaction of a free-form field. The environment
-- is a function from names of variables.
use forgewire_fabric.Prelude.{
  ℕ, zero, suc, ◌+◌, ◌-◌, Bool, true, false, not, ◌&&◌, ◌||◌, Option, none, some, List, [], ◌∷◌,
  ◌++◌, map, Text, text, ltb, leb, ◌==◌, if◌then◌else◌, any, first_some, char_len, byte_len,
  starts_with, contains_char, contains_text, to_ascii_lowercase, decimal, trim,
}
use forgewire_fabric.Prelude.Utf8.{as_bytes}

abbrev pub max_field_len : ℕ
max_field_len = 128

abbrev pub token_run_len : ℕ
token_run_len = 24

pub data RedactionOutcome : Type 0 where
  clean : Text → RedactionOutcome
  redacted : Text → Text → RedactionOutcome

abbrev pub value_of : RedactionOutcome → Text
value_of (clean v) = v
value_of (redacted v reason) = v

abbrev pub was_redacted : RedactionOutcome → Bool
was_redacted (clean v) = false
was_redacted (redacted v reason) = true

-- `char::is_control`
abbrev pub is_control : ℕ → Bool
is_control c = ltb c 0x20 || (leb 0x7F c && leb c 0x9F)

-- A byte position is a boundary at the end of the text and at the start of a character.
abbrev pub is_char_boundary : Text → ℕ → Bool
is_char_boundary s zero = true
is_char_boundary [] (suc n) = false
is_char_boundary (c ∷ s) (suc n) =
    leb (char_len c) (suc n) && is_char_boundary s (suc n - char_len c)

-- The loop `while end > 0 && !is_char_boundary(end)`.
unfoldable pub boundary_before : Text → ℕ → ℕ
boundary_before s zero = zero
boundary_before s (suc n) =
    let rest = boundary_before s n in if is_char_boundary s (suc n) then suc n else rest

-- `&value[..end]`
abbrev pub slice_to : Text → ℕ → Text
slice_to [] end = []
slice_to (c ∷ s) end =
    let rest = slice_to s (end - char_len c) in if leb (char_len c) end then c ∷ rest else []

unfoldable pub truncate : Text → Text
unfolding boundary_before
truncate value =
    if leb (byte_len value) max_field_len
    then value
    else slice_to value (boundary_before value max_field_len) ++ text "…"

abbrev pub is_ascii_alphabetic : ℕ → Bool
is_ascii_alphabetic b = (leb b'A' b && leb b b'Z') || (leb b'a' b && leb b b'z')

abbrev pub is_ascii_digit : ℕ → Bool
is_ascii_digit b = leb b'0' b && leb b b'9'

-- A letter, a colon and a slash or a backslash somewhere among the bytes.
abbrev pub has_drive : List ℕ → Bool
has_drive [] = false
has_drive (a ∷ []) = false
has_drive (a ∷ b ∷ []) = false
has_drive (a ∷ b ∷ c ∷ bytes) =
    (is_ascii_alphabetic a && b == b':' && (c == b'\\' || c == b'/')) || has_drive (b ∷ c ∷ bytes)

abbrev pub second_slash : Text → Bool
second_slash [] = false
second_slash (c ∷ s) = c == b'/' && contains_char b'/' s

abbrev pub home_markers : List Text
home_markers =
    text "/home/" ∷ text "/Users/" ∷ text "\\Users\\" ∷ text "%USERPROFILE%" ∷ text "~/" ∷ []

unfoldable pub looks_like_path : Text → Option Text
looks_like_path value =
    if starts_with value (text "\\\\")
    then some (text "contained a UNC path")
    else if has_drive (as_bytes value)
    then some (text "contained a Windows filesystem path")
    else if second_slash value
    then some (text "contained a Unix filesystem path")
    else first_some
        (λ marker.
          if contains_text value marker
          then some (text "contained a home-directory path marker (" ++ marker ++ text ")")
          else none)
        home_markers

abbrev pub current_user : (Text → Option Text) → Text
current_user env = elim (env (text "USERNAME")) [
  | some user ↦ user
  | none ↦ elim (env (text "USER")) [ some user ↦ user | none ↦ [] ]
]

unfoldable pub contains_current_username : (Text → Option Text) → Text → Bool
contains_current_username env value =
    let user = current_user env in
    if ltb (byte_len user) 4
    then false
    else contains_text (to_ascii_lowercase value) (to_ascii_lowercase user)

abbrev pub is_token_char : ℕ → Bool
is_token_char c = is_ascii_alphabetic c || is_ascii_digit c || c == b'_' || c == b'+' || c == b'='

-- The variables of the loop in `long_opaque_run`.
pub record Run : Type 0 where
  pub current : ℕ
  pub longest : ℕ
  pub has_digit : Bool
  pub has_alpha : Bool
  pub run_had_both : Bool

abbrev pub count_char : Run → ℕ → Run
count_char r c =
    let has_digit = r.has_digit || is_ascii_digit c in
    let has_alpha = r.has_alpha || (not (is_ascii_digit c) && is_ascii_alphabetic c) in
    let current = r.current + 1 in
    let longer = ltb r.longest current && has_digit && has_alpha in
    record {
      current = current;
      longest = if longer then current else r.longest;
      has_digit = has_digit;
      has_alpha = has_alpha;
      run_had_both = if longer then true else r.run_had_both;
    }

abbrev pub break_run : Run → Run
break_run r = record {
  current = 0;
  longest = r.longest;
  has_digit = false;
  has_alpha = false;
  run_had_both = r.run_had_both;
}

abbrev pub run_over : Run → Text → Run
run_over r [] = r
run_over r (c ∷ s) = run_over (if is_token_char c then count_char r c else break_run r) s

abbrev pub no_run : Run
no_run = record {
  current = 0;
  longest = 0;
  has_digit = false;
  has_alpha = false;
  run_had_both = false;
}

unfoldable pub long_opaque_run : Text → Option ℕ
long_opaque_run value =
    let r = run_over no_run value in
    if r.run_had_both && leb token_run_len r.longest then some r.longest else none

abbrev pub blank_control : ℕ → ℕ
blank_control c = if is_control c then b' ' else c

abbrev pub or_opaque : Text → Option ℕ → RedactionOutcome
or_opaque value (some run) =
    redacted (text "[redacted-token]") (
      text "contained a " ++ decimal run ++ text "-character opaque run (possible token or serial)")
or_opaque value none =
    if ltb max_field_len (byte_len value)
    then redacted (truncate value) (text "exceeded 128 characters")
    else clean value

abbrev pub or_path : (Text → Option Text) → Text → Option Text → RedactionOutcome
or_path env value (some reason) = redacted (text "[redacted-path]") reason
or_path env value none =
    if contains_current_username env value
    then redacted (text "[redacted-user]") (text "contained the current username")
    else or_opaque value (long_opaque_run value)

unfoldable pub redact_field : (Text → Option Text) → Text → RedactionOutcome
unfolding truncate looks_like_path contains_current_username long_opaque_run
redact_field env value =
    if any is_control value
    then redacted (truncate (trim (map blank_control value))) (text "contained control characters")
    else or_path env value (looks_like_path value)
