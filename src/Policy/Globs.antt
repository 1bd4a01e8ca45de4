-- ===== src/Policy/Globs.antt =====
-- The glob helpers at the end of crates/fabric-policy/src/lib.rs.
pub mod Plain
pub mod Stars
pub mod Scopes
use forgewire_fabric.Prelude.{
  Bool, true, false, not, ◌&&◌, ◌||◌, Option, none, some, List, [], ◌∷◌, ◌++◌, Text, text, text_eq,
  starts_with, ends_with, strip_prefix, strip_suffix, contains_char, split, trim_end_matches,
  if◌then◌else◌,
}

abbrev pub star : Text
star = b'*' ∷ []

abbrev pub stars : Text
stars = b'*' ∷ b'*' ∷ []

abbrev pub slash_stars : Text
slash_stars = b'/' ∷ b'*' ∷ b'*' ∷ []

unfoldable pub segment_match : Text → Text → Bool
segment_match pattern value =
    if text_eq pattern star || text_eq pattern stars
    then true
    else if not (contains_char b'*' pattern)
    then text_eq pattern value
    else elim (strip_prefix pattern star) [
      | some suffix ↦ ends_with value suffix
      | none ↦ elim (strip_suffix pattern star) [
        | some prefix ↦ starts_with value prefix
        | none ↦ false
      ]
    ]

unfoldable pub glob_parts_match : List Text → List Text → Bool
glob_parts_match [] val = true
glob_parts_match (p ∷ pat) [] = text_eq p stars
glob_parts_match (p ∷ pat) (v ∷ val) =
    let rest = glob_parts_match pat val in
    if text_eq p stars then true else segment_match p v && rest

unfoldable pub glob_match : Text → Text → Bool
glob_match pattern value =
    if text_eq pattern stars
    then true
    else let pat = trim_end_matches pattern slash_stars in
      if not (contains_char b'*' pat)
      then text_eq value pat || starts_with value (pat ++ b'/' ∷ [])
      else glob_parts_match (split b'/' pat) (split b'/' value)

-- `trim_end_matches("/**").trim_end_matches('*')`
abbrev pub trim_wildcards : Text → Text
trim_wildcards a = trim_end_matches (trim_end_matches a slash_stars) star

unfoldable pub scopes_overlap : Text → Text → Bool
scopes_overlap a b =
    let a' = trim_wildcards a in let b' = trim_wildcards b in starts_with a' b' || starts_with b' a'
