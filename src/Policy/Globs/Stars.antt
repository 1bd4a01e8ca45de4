-- ===== src/Policy/Globs/Stars.antt =====
-- Stars inside a path segment, which the glob helpers do not know.
use forgewire_fabric.Prelude.{
  ◌≡◌, refl, true, false, ◌||◌, none, List, [], ◌∷◌, ◌++◌, arith, Text, All, text_eq, starts_with,
  ends_with, strip_prefix, contains_char, split, trim_end_matches,
}
use mathlib.Core.List.{reverse}
use forgewire_fabric.Policy.Globs.{
  star, stars, slash_stars, segment_match, glob_parts_match, glob_match,
}

-- A star inside the segment, with neither end a star.
pub record HasInnerStar (segment : Text) : Type 0 where
  pub starred : contains_char b'*' segment ≡ true
  pub bare_start : starts_with segment star ≡ false
  pub bare_end : ends_with segment star ≡ false

strip_none : (s : Text) → starts_with s star ≡ false → strip_prefix s star ≡ none
strip_none [] h = refl
strip_none (c ∷ s) h = ground arith

ne_star : (s : Text) → starts_with s star ≡ false → (text_eq s star || text_eq s stars) ≡ false
ne_star [] h = refl
ne_star (c ∷ s) h = ground arith

-- A segment with a star inside it matches no value at all, itself included.
pub segment_match-inner :
    (segment value : Text) → HasInnerStar segment → segment_match segment value ≡ false
unfolding segment_match
segment_match-inner segment value h =
    let first = strip_none segment h.bare_start in
    let last = strip_none (reverse segment) h.bare_end in
    rw (ne_star segment h.bare_start, h.starred, first, last)

parts_inner :
    (pre post val : List Text) (segment : Text)
    → All (λ p. text_eq p stars ≡ false) pre
    → HasInnerStar segment
    → glob_parts_match (pre ++ segment ∷ post) val ≡ false
unfolding glob_parts_match
parts_inner [] post [] segment plain inner = ground (arith, ne_star segment inner.bare_start)
parts_inner [] post (v ∷ val) segment plain inner =
    ground (arith, ne_star segment inner.bare_start, segment_match-inner segment v inner)
parts_inner (p ∷ pre) post [] segment plain inner = plain.0
parts_inner (p ∷ pre) post (v ∷ val) segment plain inner =
    ground (arith, parts_inner pre post val segment plain.1 inner)

-- A glob one of whose segments has a star inside, with no `**` segment before it, matches no path: a
-- policy that forbids or blocks by such a glob forbids and blocks nothing.
pub glob_match-inner_star :
    (pattern : Text) (pre post : List Text) (segment value : Text)
    → split b'/' (trim_end_matches pattern slash_stars) ≡ pre ++ segment ∷ post
    → text_eq pattern stars ≡ false
    → contains_char b'*' (trim_end_matches pattern slash_stars) ≡ true
    → All (λ p. text_eq p stars ≡ false) pre
    → HasInnerStar segment
    → glob_match pattern value ≡ false
unfolding glob_match
glob_match-inner_star pattern pre post segment value parts ne starred plain inner =
    rw (ne, starred, parts) (parts_inner pre post (split b'/' value) segment plain inner)
