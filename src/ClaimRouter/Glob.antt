-- ===== src/ClaimRouter/Glob.antt =====
-- The static prefix of a glob: the directory part of what precedes its first wildcard.
use forgewire_fabric.Prelude.{
  ℕ, suc, ◌≡◌, refl, ap, sym, ◌∙◌, Bool, true, false, ◌⊎◌, inl, inr, none, some, [], ◌∷◌, ◌++◌,
  arith, Text, Without, find_char, rfind_char, replace_char, length, take, drop, take-append-drop,
  any, Bool-cases, Option-cases,
}
use mathlib.Core.Path.{subst}
use forgewire_fabric.ClaimRouter.{
  is_wildcard, is_slash, is_backslash, slashed, wildcard_cut, directory_of, glob_static_prefix,
}

-- Empty, or beginning with a character that passes.
abbrev pub BeginsWith : (ℕ → Bool) → Text → Type 0
BeginsWith f [] = Unit
BeginsWith f (c ∷ s) = f c ≡ true

cut_at : (ℕ → Bool) → Text → ℕ
cut_at f s = elim (find_char f s) [ none ↦ length s | some i ↦ i ]

cut-cons : (f : ℕ → Bool) (c : ℕ) (s : Text) → f c ≡ false → cut_at f (c ∷ s) ≡ suc (cut_at f s)
unfolding cut_at
cut-cons f c s h = ground arith

cut-cons_hit : (f : ℕ → Bool) (c : ℕ) (s : Text) → f c ≡ true → cut_at f (c ∷ s) ≡ 0
unfolding cut_at
cut-cons_hit f c s h = ground arith

cut_splits :
    (f : ℕ → Bool) (s : Text) → Without f (take (cut_at f s) s) × BeginsWith f (drop (cut_at f s) s)
cut_splits f [] = unfold cut_at in (tt, tt)
cut_splits f (c ∷ s) = elim (Bool-cases (f c)) [
  | inl hit ↦ rw (cut-cons_hit f c s hit) (tt, hit)
  | inr miss ↦ let ih = cut_splits f s in rw (cut-cons f c s miss) ((miss, ih.0), ih.1)
]

rfind_none : (f : ℕ → Bool) (s : Text) → rfind_char f s ≡ none → Without f s
rfind_none f [] h = tt
rfind_none f (c ∷ s) h = (ground arith, rfind_none f s (ground arith))

-- A directory prefix is empty or ends in a slash.
abbrev pub IsDirectory : Text → Type 0
IsDirectory p = (p ≡ []) ⊎ ((d : Text) × (p ≡ d ++ b'/' ∷ []))

IsDirectory-directory_of : (s : Text) → IsDirectory (directory_of s)
unfolding directory_of
IsDirectory-directory_of s = elim (Option-cases (rfind_char is_slash s)) [
  | inl missing ↦ inl (ground arith)
  | inr (i, found) ↦ inr (take i s, ground arith)
]

directory_none : (s : Text) → rfind_char is_slash s ≡ none → directory_of s ≡ []
unfolding directory_of
directory_none s h = ground arith

directory-cons :
    (c : ℕ) (s : Text) {i : ℕ}
    → rfind_char is_slash s ≡ some i
    → directory_of (c ∷ s) ≡ c ∷ directory_of s
unfolding directory_of
directory-cons c s h = ground arith

directory-cons_slash :
    (s : Text) → rfind_char is_slash s ≡ none → directory_of (b'/' ∷ s) ≡ b'/' ∷ []
unfolding directory_of
directory-cons_slash s h = ground arith

directory_splits : (s : Text) → (rest : Text) × (s ≡ directory_of s ++ rest) × Without is_slash rest
directory_splits [] = ([], unfold directory_of in refl, tt)
directory_splits (c ∷ s) = elim (Option-cases (rfind_char is_slash s)) [
  | inl missing ↦ last (Bool-cases (is_slash c)) missing
  | inr (i, found) ↦
      let ih = directory_splits s in
      (ih.0, rw (directory-cons c s found) (ap (λ l. c ∷ l) ih.1), ih.2)
]
  where
    last :
        (is_slash c ≡ true) ⊎ (is_slash c ≡ false)
        → rfind_char is_slash s ≡ none
        → (rest : Text) × (c ∷ s ≡ directory_of (c ∷ s) ++ rest) × Without is_slash rest
    last (inl slash) missing =
        let e : c ≡ b'/' = ground arith in
        (s, rw (e, directory-cons_slash s missing), rfind_none is_slash s missing)
    last (inr other) missing =
        let e : directory_of (c ∷ s) ≡ [] = directory_none (c ∷ s) (ground arith) in
        (c ∷ s, rw e, (other, rfind_none is_slash s missing))

-- With no backslash the replacement changes nothing, so the borrowed text will do.
replace_none : (s : Text) → any is_backslash s ≡ false → replace_char 0x5c b'/' s ≡ s
replace_none [] h = refl
replace_none (c ∷ s) h =
    let e : is_backslash c ≡ false = ground arith in
    let ih = replace_none s (ground arith) in rw e (ap (λ l. c ∷ l) ih)

slashed-eq-replace : (glob : Text) → slashed glob ≡ replace_char 0x5c b'/' glob
unfolding slashed
slashed-eq-replace glob = elim (Bool-cases (any is_backslash glob)) [
  | inl some_there ↦ rw some_there
  | inr none_there ↦ rw none_there (sym (replace_none glob none_there))
]

-- The static prefix of a glob, with backslashes read as slashes, is what precedes the last slash
-- before the first wildcard, that slash included: the text is the prefix, then a segment with no
-- slash, then nothing or a wildcard, and no wildcard stands before that.
pub glob_static_prefix_splits :
    (glob : Text)
    → (segment rest : Text) × (replace_char 0x5c b'/' glob
        ≡ glob_static_prefix glob ++ segment ++ rest)
      × IsDirectory (glob_static_prefix glob)
      × Without is_slash segment
      × Without is_wildcard (glob_static_prefix glob ++ segment)
      × BeginsWith is_wildcard rest
unfolding glob_static_prefix cut_at
glob_static_prefix_splits glob =
    let norm = slashed glob in
    let head = take (wildcard_cut norm) norm in
    let parts = directory_splits head in
    let cut = cut_splits is_wildcard norm in
    (
      parts.0,
      drop (wildcard_cut norm) norm,
      sym (slashed-eq-replace glob)
          ∙ sym (take-append-drop (wildcard_cut norm) norm)
          ∙ ap (λ l. l ++ drop (wildcard_cut norm) norm) parts.1,
      IsDirectory-directory_of head,
      parts.2,
      subst (Without is_wildcard) parts.1 cut.0,
      cut.1,
    )
