-- ===== src/Policy/Globs/Plain.antt =====
-- Globs that name a directory, and what lies below a matched path.
use mathlib.Core.List.{reverse, reverse-append, reverse-reverse}
use forgewire_fabric.Prelude.{
  ℕ, zero, suc, ◌≡◌, refl, ap, ◌∙◌, ◌↔◌, ◌⊎◌, inl, inr, Bool, true, false, not, ◌||◌, List, [], ◌∷◌,
  ◌++◌, arith, Text, Without, Without-reverse, contains_none, IsPrefix, text_eq, text_eq_iff,
  starts_with, starts_with_iff, starts_with-append, contains_char, split, split-append,
  strip_repeatedly, trim_end_matches, length, ◌==◌, if◌then◌else◌, or_iff, Bool-cases,
}
use forgewire_fabric.Policy.Globs.{stars, slash_stars, glob_parts_match, glob_match}

abbrev pub is_star : ℕ → Bool
is_star c = c == b'*'

-- The directory itself, or a path below it.
abbrev pub IsWithin : Text → Text → Type 0
IsWithin d v = (v ≡ d) ⊎ IsPrefix (d ++ b'/' ∷ []) v

strip_bare :
    (fuel : ℕ) (r : Text) → Without is_star r → strip_repeatedly fuel r (reverse slash_stars) ≡ r
strip_bare zero r h = refl
strip_bare (suc fuel) [] h = refl
strip_bare (suc fuel) (c ∷ r) h = ground arith

trim-bare : (d : Text) → Without is_star d → trim_end_matches d slash_stars ≡ d
trim-bare d h =
    ap reverse (strip_bare (length (reverse d)) (reverse d) (Without-reverse is_star d h))
    ∙ reverse-reverse d

pub trim-tree : (d : Text) → Without is_star d → trim_end_matches (d ++ slash_stars) slash_stars ≡ d
trim-tree d h =
    ap (λ r. reverse (strip_repeatedly (length r) r (reverse slash_stars)))
      (reverse-append d slash_stars)
    ∙ ap reverse
        (strip_bare (suc (suc (length (reverse d)))) (reverse d) (Without-reverse is_star d h))
    ∙ reverse-reverse d

bare-ne-stars : (d : Text) → Without is_star d → text_eq d stars ≡ false
bare-ne-stars [] h = refl
bare-ne-stars (c ∷ d) h = ground arith

tree-ne-stars : (d : Text) → Without is_star d → text_eq (d ++ slash_stars) stars ≡ false
tree-ne-stars [] h = refl
tree-ne-stars (c ∷ d) h = ground arith

IsWithin-iff :
    (d v : Text) → ((text_eq v d || starts_with v (d ++ b'/' ∷ [])) ≡ true) ↔ IsWithin d v
IsWithin-iff d v = or_iff _ _ (text_eq_iff v d) (starts_with_iff v (d ++ b'/' ∷ []))

match-bare :
    (pattern d v : Text)
    → text_eq pattern stars ≡ false
    → trim_end_matches pattern slash_stars ≡ d
    → Without is_star d
    → glob_match pattern v ≡ (text_eq v d || starts_with v (d ++ b'/' ∷ []))
unfolding glob_match
match-bare pattern d v ne trimmed h = rw (ne, trimmed, contains_none b'*' d h)

-- A glob without a star matches the directory that it names and all below it, and nothing else; with
-- `/**` behind it, it matches the same.
pub glob_match_directory :
    (d v : Text)
    → Without is_star d
    → ((glob_match d v ≡ true) ↔ IsWithin d v)
      × ((glob_match (d ++ slash_stars) v ≡ true) ↔ IsWithin d v)
glob_match_directory d v h = (
  rw (match-bare d d v (bare-ne-stars d h) (trim-bare d h) h) (IsWithin-iff d v),
  rw (match-bare (d ++ slash_stars) d v (tree-ne-stars d h) (trim-tree d h) h) (IsWithin-iff d v),
)

parts_descend :
    (pat val more : List Text)
    → glob_parts_match pat val ≡ true
    → glob_parts_match pat (val ++ more) ≡ true
unfolding glob_parts_match
parts_descend [] val more h = refl
parts_descend (p ∷ pat) [] [] h = h
parts_descend (p ∷ pat) [] (m ∷ more) h = ground arith
parts_descend (p ∷ pat) (v ∷ val) more h = ground (arith, parts_descend pat val more)

starts_descend : (v p w : Text) → starts_with v p ≡ true → starts_with (v ++ w) p ≡ true
starts_descend v [] w h = starts_with-append [] (v ++ w)
starts_descend [] (d ∷ p) w h = cc
starts_descend (c ∷ v) (d ∷ p) w h = ground (arith, starts_descend v p w)

below : (d w : Text) → starts_with (d ++ b'/' ∷ w) (d ++ b'/' ∷ []) ≡ true
below [] w = starts_with-append [] w
below (c ∷ d) w = ground (arith, below d w)

directory_descend :
    (d v w : Text)
    → (text_eq v d || starts_with v (d ++ b'/' ∷ [])) ≡ true
    → (text_eq (v ++ b'/' ∷ w) d || starts_with (v ++ b'/' ∷ w) (d ++ b'/' ∷ [])) ≡ true
directory_descend d v w h = elim (Bool-cases (text_eq v d)) [
  | inl same ↦ let e : v ≡ d = (text_eq_iff v d).0 same in rw e (ground (arith, below d w))
  | inr differs ↦ ground (arith, starts_descend v (d ++ b'/' ∷ []) (b'/' ∷ w))
]

-- `glob_match` after its first test.
rest_match : Text → Text → Bool
rest_match pat value =
    if not (contains_char b'*' pat)
    then text_eq value pat || starts_with value (pat ++ b'/' ∷ [])
    else glob_parts_match (split b'/' pat) (split b'/' value)

rest_descend : (pat v w : Text) → rest_match pat v ≡ true → rest_match pat (v ++ b'/' ∷ w) ≡ true
unfolding rest_match
rest_descend pat v w h = elim (Bool-cases (contains_char b'*' pat)) [
  | inl starred ↦
      rw (starred, split-append b'/' v w)
        (parts_descend (split b'/' pat) (split b'/' v) (split b'/' w) (rw starred at h))
  | inr plain ↦ rw plain (directory_descend pat v w (rw plain at h))
]

-- Whatever glob matches a path matches everything below that path, so a forbidden directory is
-- forbidden with all that it holds.
pub glob_match-descend :
    (pattern v w : Text) → glob_match pattern v ≡ true → glob_match pattern (v ++ b'/' ∷ w) ≡ true
unfolding glob_match rest_match
glob_match-descend pattern v w h = elim (Bool-cases (text_eq pattern stars)) [
  | inl all_paths ↦ rw all_paths
  | inr other ↦ rw other (rest_descend (trim_end_matches pattern slash_stars) v w (rw other at h))
]
