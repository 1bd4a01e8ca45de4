-- ===== src/Policy/Globs/Scopes.antt =====
-- When two scopes are taken to overlap.
use mathlib.Core.Path.{subst, subst₂}
use mathlib.Core.List.{reverse, reverse-append, reverse-reverse, append_assoc, append-nil}
use forgewire_fabric.Prelude.{
  ℕ, zero, suc, ◌≡◌, ◌≢◌, refl, ap, sym, ◌∙◌, inl, inr, true, false, ◌||◌, List, [], ◌∷◌, ◌++◌,
  arith, Text, Without, Without-reverse, starts_with, starts_with-append, split, strip_repeatedly,
  trim_end_matches, length,
}
use forgewire_fabric.Policy.Globs.{
  star, slash_stars, glob_parts_match, glob_match, trim_wildcards, scopes_overlap,
}
use forgewire_fabric.Policy.Globs.Plain.{is_star, IsWithin, trim-tree}

strip_star_bare : (fuel : ℕ) (r : Text) → Without is_star r → strip_repeatedly fuel r star ≡ r
strip_star_bare zero r h = refl
strip_star_bare (suc fuel) [] h = refl
strip_star_bare (suc fuel) (c ∷ r) h = ground arith

trim_star-bare : (d : Text) → Without is_star d → trim_end_matches d star ≡ d
trim_star-bare d h =
    ap reverse (strip_star_bare (length (reverse d)) (reverse d) (Without-reverse is_star d h))
    ∙ reverse-reverse d

trim_wildcards-tree : (d : Text) → Without is_star d → trim_wildcards (d ++ slash_stars) ≡ d
trim_wildcards-tree d h = ap (λ t. trim_end_matches t star) (trim-tree d h) ∙ trim_star-bare d h

-- Two prefixes of one text are prefixes one of the other.
comparable :
    (v p q : Text)
    → starts_with v p ≡ true
    → starts_with v q ≡ true
    → (starts_with p q || starts_with q p) ≡ true
comparable v [] [] h k = refl
comparable v [] (d ∷ q) h k = refl
comparable v (c ∷ p) [] h k = refl
comparable [] (c ∷ p) (d ∷ q) h k = cc
comparable (x ∷ v) (c ∷ p) (d ∷ q) h k = ground (arith, comparable v p q)

within-starts : (d v : Text) → IsWithin d v → starts_with v d ≡ true
within-starts d v (inl e) =
    subst (λ t. starts_with t d ≡ true) (append-nil d ∙ sym e) (starts_with-append d [])
within-starts d v (inr (rest, e)) =
    subst (λ t. starts_with t d ≡ true) (sym (e ∙ append_assoc d (b'/' ∷ []) rest))
      (starts_with-append d (b'/' ∷ rest))

-- If some path lies within two directories, the scopes of the two are taken to overlap.
pub scopes_overlap_complete :
    (d e v : Text)
    → Without is_star d
    → Without is_star e
    → IsWithin d v
    → IsWithin e v
    → scopes_overlap (d ++ slash_stars) (e ++ slash_stars) ≡ true
unfolding scopes_overlap
scopes_overlap_complete d e v hd he in_d in_e =
    let d_part : trim_wildcards (d ++ slash_stars) ≡ d = trim_wildcards-tree d hd in
    let e_part : trim_wildcards (e ++ slash_stars) ≡ e = trim_wildcards-tree e he in
    subst₂ (λ x y. (starts_with x y || starts_with y x) ≡ true) (sym d_part) (sym e_part)
      (comparable v d e (within-starts d v in_d) (within-starts e v in_e))

abbrev pub anywhere : Text → Text
anywhere d = b'*' ∷ b'*' ∷ b'/' ∷ d

strip_anywhere :
    (fuel : ℕ) (p r rest : Text)
    → Without is_star r
    → r ≢ []
    → strip_repeatedly fuel (r ++ rest) (b'*' ∷ p) ≡ r ++ rest
strip_anywhere zero p r rest h ne = refl
strip_anywhere (suc fuel) p [] rest h ne = absurd (ne refl)
strip_anywhere (suc fuel) p (c ∷ r) rest h ne = ground arith

reverse_nonempty : (d : Text) → d ≢ [] → reverse d ≢ []
reverse_nonempty d h e = h (sym (reverse-reverse d) ∙ ap reverse e)

abbrev any_start : Text
any_start = b'*' ∷ b'*' ∷ b'/' ∷ []

trim-anywhere :
    (p d : Text)
    → Without is_star d
    → d ≢ []
    → reverse (strip_repeatedly (length (reverse (anywhere d))) (reverse (anywhere d)) (b'*' ∷ p))
      ≡ anywhere d
trim-anywhere p d h ne =
    let turned : reverse (anywhere d) ≡ reverse d ++ reverse any_start =
      reverse-append any_start d in
    let fuel = length (reverse d ++ reverse any_start) in
    ap (λ r. reverse (strip_repeatedly (length r) r (b'*' ∷ p))) turned
    ∙ ap reverse (
        strip_anywhere fuel p (reverse d) (reverse any_start) (Without-reverse is_star d h)
          (reverse_nonempty d ne))
    ∙ ap reverse (sym turned)
    ∙ reverse-reverse (anywhere d)

starless_ne : (d rest : Text) → Without is_star d → d ≢ [] → starts_with d (b'*' ∷ rest) ≡ false
starless_ne [] rest h ne = absurd (ne refl)
starless_ne (c ∷ d) rest h ne = ground arith

starless_start : (d rest : Text) → Without is_star d → d ≢ [] → starts_with (b'*' ∷ rest) d ≡ false
starless_start [] rest h ne = absurd (ne refl)
starless_start (c ∷ d) rest h ne = ground arith

anywhere_matches :
    (d : Text) → Without is_star d → d ≢ [] → (v : Text) → glob_match (anywhere d) v ≡ true
unfolding glob_match
anywhere_matches d h ne v =
    let same : trim_end_matches (anywhere d) slash_stars ≡ anywhere d =
      trim-anywhere (b'*' ∷ b'/' ∷ []) d h ne in
    rw same (go (split b'/' v))
  where
    go : (val : List Text) → glob_parts_match (split b'/' (anywhere d)) val ≡ true
    go [] = unfold glob_parts_match in refl
    go (x ∷ val) = unfold glob_parts_match in refl

-- A scope `**/d` matches every path, yet it is not taken to overlap the directory `d`: a policy that
-- forbids `d` lets it pass.
pub anywhere_escapes :
    (d : Text)
    → Without is_star d
    → d ≢ []
    → ((v : Text) → glob_match (anywhere d) v ≡ true)
      × (scopes_overlap (anywhere d) (d ++ slash_stars) ≡ false)
unfolding scopes_overlap
anywhere_escapes d h ne =
    let same : trim_wildcards (anywhere d) ≡ anywhere d =
      ap (λ t. trim_end_matches t star) (trim-anywhere (b'*' ∷ b'/' ∷ []) d h ne)
      ∙ trim-anywhere [] d h ne in
    (
      anywhere_matches d h ne,
      subst₂ (λ x y. (starts_with x y || starts_with y x) ≡ false) (sym same)
          (sym (trim_wildcards-tree d h))
          (rw (starless_start d (b'*' ∷ b'/' ∷ d) h ne, starless_ne d (b'*' ∷ b'/' ∷ d) h ne)),
    )
