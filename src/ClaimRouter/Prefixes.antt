-- ===== src/ClaimRouter/Prefixes.antt =====
-- What `RunnerView::from_raw` makes of the scope prefixes that a runner sends.
use mathlib.Core.Path.{ap₂}
use mathlib.Core.List.{reverse, reverse-append, reverse-reverse, map}
use forgewire_fabric.Prelude.{
  ℕ, ◌≡◌, refl, ap, ◌∙◌, Bool, false, not, List, [], ◌∷◌, ◌++◌, Option, arith, Text, All, Without,
  Without-append, Without-reverse, replace_char, filter, is_empty,
}
use forgewire_fabric.ClaimRouter.{pop_slashes, normalise_prefix, from_raw, is_slash, is_backslash}

-- Does the text not end in a slash? Told on the reversed text.
abbrev pub EndsBare : Text → Type 0
EndsBare r = elim r [ [] ↦ Unit | c ∷ _ ↦ is_slash c ≡ false ]

-- A normalised prefix: a text that does not end in a slash, then one slash; no backslash.
abbrev pub IsNormalised : Text → Type 0
IsNormalised p = (d : Text) × (p ≡ d ++ b'/' ∷ []) × EndsBare (reverse d) × Without is_backslash d

pop_slashes-EndsBare : (s : Text) → EndsBare (pop_slashes s)
unfolding pop_slashes
pop_slashes-EndsBare [] = tt
pop_slashes-EndsBare (c ∷ s) = ground (arith, pop_slashes-EndsBare s)

pop_slashes-Without : (f : ℕ → Bool) (s : Text) → Without f s → Without f (pop_slashes s)
unfolding pop_slashes
pop_slashes-Without f [] h = tt
pop_slashes-Without f (c ∷ s) h = ground (arith, pop_slashes-Without f s h.1)

pop_slashes-bare : (s : Text) → EndsBare s → pop_slashes s ≡ s
unfolding pop_slashes
pop_slashes-bare [] h = refl
pop_slashes-bare (c ∷ s) h = ground arith

replace-Without : (s : Text) → Without is_backslash (replace_char 0x5c b'/' s)
replace-Without [] = tt
replace-Without (c ∷ s) = (ground arith, replace-Without s)

replace-same : (s : Text) → Without is_backslash s → replace_char 0x5c b'/' s ≡ s
replace-same [] h = refl
replace-same (c ∷ s) h = rw (h.0, replace-same s h.1)

normalise_prefix-IsNormalised : (p : Text) → IsNormalised (normalise_prefix p)
unfolding normalise_prefix
normalise_prefix-IsNormalised p =
    let r = reverse (replace_char 0x5c b'/' p) in
    (
      reverse (pop_slashes r),
      refl,
      rw reverse-reverse (pop_slashes-EndsBare r),
      Without-reverse is_backslash (pop_slashes r)
          (pop_slashes-Without is_backslash r (Without-reverse is_backslash _ (replace-Without p))),
    )

map-IsNormalised : (ps : List Text) → All IsNormalised (map normalise_prefix ps)
map-IsNormalised [] = tt
map-IsNormalised (p ∷ ps) = (normalise_prefix-IsNormalised p, map-IsNormalised ps)

-- Every scope prefix that `from_raw` keeps ends in exactly one slash and holds no backslash.
pub from_raw-IsNormalised :
    (prefixes tools tags : List Text) (tenant workspace commit : Option Text)
    → All IsNormalised (from_raw prefixes tools tags tenant workspace commit).scope_prefixes
unfolding from_raw
from_raw-IsNormalised prefixes tools tags tenant workspace commit =
    map-IsNormalised (filter (λ p. not (is_empty p)) prefixes)

normalise-directory :
    (d : Text)
    → EndsBare (reverse d)
    → Without is_backslash d
    → normalise_prefix (d ++ b'/' ∷ []) ≡ d ++ b'/' ∷ []
unfolding normalise_prefix
normalise-directory d bare clean =
    ap (λ q. reverse (pop_slashes (reverse q)) ++ b'/' ∷ [])
      (replace-same (d ++ b'/' ∷ []) (Without-append is_backslash d (b'/' ∷ []) clean (refl, tt)))
    ∙ ap (λ q. reverse (pop_slashes q) ++ b'/' ∷ []) (reverse-append d (b'/' ∷ []))
    ∙ ap (λ q. reverse q ++ b'/' ∷ []) (pop_slashes-bare (reverse d) bare)
    ∙ ap (λ q. q ++ b'/' ∷ []) (reverse-reverse d)

normalise-same : (p : Text) → IsNormalised p → normalise_prefix p ≡ p
normalise-same p (d, e, bare, clean) = rw e (normalise-directory d bare clean)

nonempty : (p : Text) → IsNormalised p → is_empty p ≡ false
nonempty p ([], e, bare, clean) = rw e
nonempty p (c ∷ d, e, bare, clean) = rw e

filter-keep :
    (p : Text) (ps : List Text)
    → is_empty p ≡ false
    → filter (λ q. not (is_empty q)) (p ∷ ps) ≡ p ∷ filter (λ q. not (is_empty q)) ps
filter-keep p ps h = ground arith

renormalise :
    (ps : List Text)
    → All IsNormalised ps
    → map normalise_prefix (filter (λ p. not (is_empty p)) ps) ≡ ps
renormalise [] h = refl
renormalise (p ∷ ps) h =
    ap (map normalise_prefix) (filter-keep p ps (nonempty p h.0))
    ∙ ap₂ (λ q qs. q ∷ qs) (normalise-same p h.0) (renormalise ps h.1)

-- A view that has been made once is unchanged when its fields are sent through `from_raw` again.
pub from_raw_idem :
    (prefixes tools tags : List Text) (tenant workspace commit : Option Text)
    → let view = from_raw prefixes tools tags tenant workspace commit in
      from_raw view.scope_prefixes view.tools view.tags view.tenant view.workspace_root
        view.last_known_commit
      ≡ view
unfolding from_raw
from_raw_idem prefixes tools tags tenant workspace commit =
    ap
      (λ ps. record {
        scope_prefixes = ps;
        tools = tools;
        tags = tags;
        tenant = tenant;
        workspace_root = workspace;
        last_known_commit = commit;
      })
      (renormalise _ (map-IsNormalised (filter (λ p. not (is_empty p)) prefixes)))
