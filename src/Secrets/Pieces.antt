-- ===== src/Secrets/Pieces.antt =====
-- crates/fabric-secrets/src/lib.rs, redact_text: what is left of a secret's value between markers.
use forgewire_fabric.Prelude.{
  ℕ, zero, suc, ◌<◌, ◌≡◌, ◌≢◌, refl, sym, ap, ◌∙◌, inl, inr, true, false, Bool-cases, Option-cases,
  none, some, List, [], ◌∷◌, ◌++◌, arith, Text, ◌==◌, ==_iff, is_empty, length, length-append,
  strip_prefix, starts_with, contains_text, All,
}
use forgewire_fabric.Prelude.Results.{okay}
use forgewire_fabric.Secrets.{
  Crypto, open_envelope, replace_from, replace_text, marker, redact_text,
}

-- The first piece, and the others each behind the text `v`.
abbrev pub joined : Text → Text → List Text → Text
joined v p [] = p
joined v p (q ∷ qs) = p ++ (v ++ joined v q qs)

strip_prefix_sound : (s p rest : Text) → strip_prefix s p ≡ some rest → s ≡ p ++ rest
strip_prefix_sound s [] rest h = ground arith
strip_prefix_sound [] (d ∷ p) rest h = cc
strip_prefix_sound (c ∷ s) (d ∷ p) rest h = elim (Bool-cases (c == d)) [
  | inl e ↦ strip_cons e (strip_prefix_sound s p rest (ground (arith, e)))
  | inr e ↦ ground (arith, e)
]
  where
    strip_cons : (c == d) ≡ true → s ≡ p ++ rest → c ∷ s ≡ d ∷ (p ++ rest)
    strip_cons e k = rw ((==_iff c d).0 e) (ap (λ t. d ∷ t) k)

strip_none : (s p : Text) → strip_prefix s p ≡ none → starts_with s p ≡ false
strip_none s [] h = cc
strip_none [] (d ∷ p) h = refl
strip_none (c ∷ s) (d ∷ p) h = elim (Bool-cases (c == d)) [
  | inl e ↦ rw e (strip_none s p (ground (arith, e)))
  | inr e ↦ rw e refl
]

starts_with_longer : (s t p : Text) → starts_with s p ≡ true → starts_with (s ++ t) p ≡ true
starts_with_longer s t [] h = refl
starts_with_longer [] t (d ∷ p) h = cc
starts_with_longer (c ∷ s) t (d ∷ p) h = ground (arith, starts_with_longer s t p)

-- `s` cut at the places where `v` is replaced by `m`.
abbrev IsCut : Text → Text → Text → Text → Text → List Text → Type 0
IsCut v m s out p ps =
    (s ≡ joined v p ps)
    × (out ≡ joined m p ps)
    × (contains_text p v ≡ false)
    × All (λ q. contains_text q v ≡ false) ps

abbrev pub Cuts : Text → Text → Text → Text → Type 0
Cuts v m s out = (p : Text) × (ps : List Text) × IsCut v m s out p ps

joined_cons :
    (v : Text) (c : ℕ) (p : Text) (ps : List Text) → joined v (c ∷ p) ps ≡ c ∷ joined v p ps
joined_cons v c p [] = refl
joined_cons v c p (q ∷ qs) = refl

joined_starts :
    (v p : Text) (ps : List Text) → starts_with p v ≡ true → starts_with (joined v p ps) v ≡ true
joined_starts v p [] h = h
joined_starts v p (q ∷ qs) h = starts_with_longer p (v ++ joined v q qs) v h

true-false : true ≡ false → ⊥
true-false h = cc

module _ (v m : Text) (nonempty : v ≢ []) where
  nothing_starts : starts_with [] v ≡ false
  nothing_starts = elim (Bool-cases (starts_with [] v)) [
    | inl h ↦ absurd (nonempty (empty_pattern v h))
    | inr h ↦ h
  ]
    where
      empty_pattern : (p : Text) → starts_with [] p ≡ true → p ≡ []
      empty_pattern [] h = refl
      empty_pattern (d ∷ p) h = cc

  nothing_contains : contains_text [] v ≡ false
  nothing_contains = nothing_starts

  keep :
      (c : ℕ) (s out : Text)
      → starts_with (c ∷ s) v ≡ false
      → Cuts v m s out
      → Cuts v m (c ∷ s) (c ∷ out)
  keep c s out h (p, ps, (e, f, clean, all_clean)) =
      let not_at_start : starts_with (c ∷ p) v ≡ false = elim (Bool-cases (starts_with (c ∷ p) v)) [
        | inr t ↦ t
        | inl t ↦ absurd (
            true-false (
              sym (joined_starts v (c ∷ p) ps t)
              ∙ ap (λ u. starts_with u v) (joined_cons v c p ps ∙ ap (λ u. c ∷ u) (sym e))
              ∙ h))
      ] in
      (
        c ∷ p,
        ps,
        (
          ap (λ t. c ∷ t) e ∙ sym (joined_cons v c p ps),
          ap (λ t. c ∷ t) f ∙ sym (joined_cons m c p ps),
          rw (not_at_start, clean) refl,
          all_clean,
        ),
      )

  take_off : (s rest out : Text) → s ≡ v ++ rest → Cuts v m rest out → Cuts v m s (m ++ out)
  take_off s rest out h (p, ps, (e, f, clean, all_clean)) = (
    [],
    p ∷ ps,
    (h ∙ ap (λ t. v ++ t) e, ap (λ t. m ++ t) f, nothing_contains, (clean, all_clean)),
  )

  longer_than_rest : (s rest : Text) → s ≡ v ++ rest → length rest < length s
  longer_than_rest s rest h = omega (arith, ap length h, length-append v rest, positive v nonempty)
    where
      positive : (t : Text) → t ≢ [] → 0 < length t
      positive [] k = absurd (k refl)
      positive (c ∷ t) k = omega arith

  step_on :
      (fuel : ℕ)
      → ((u : Text) → length u < fuel → Cuts v m u (replace_from fuel u v m))
      → (t : Text) → length t < suc fuel
      → starts_with t v ≡ false
      → Cuts v m t (elim t [ [] ↦ [] | c ∷ rest ↦ c ∷ replace_from fuel rest v m ])
  step_on fuel shorter [] k n = ([], [], (refl, refl, nothing_contains, tt))
  step_on fuel shorter (c ∷ t) k n =
      keep c t (replace_from fuel t v m) n (shorter t (omega (arith, k)))

  replace_from-Cuts : (fuel : ℕ) (s : Text) → length s < fuel → Cuts v m s (replace_from fuel s v m)
  unfolding replace_from
  replace_from-Cuts zero s h = absurd (omega (arith, h))
  replace_from-Cuts (suc fuel) s h = elim (Option-cases (strip_prefix s v)) [
    | inr (rest, e) ↦
        let shorter = longer_than_rest s rest (strip_prefix_sound s v rest e) in
        rw (replace_from, e)
          (take_off s rest (replace_from fuel rest v m) (strip_prefix_sound s v rest e)
            (replace_from-Cuts fuel rest (omega (arith, shorter, h))))
    | inl e ↦
        rw (replace_from, e)
          (step_on fuel (λ u k. replace_from-Cuts fuel u k) s h (strip_none s v e))
  ]

-- Text is redacted of a secret that opens to a value which is not empty by cutting it into pieces
-- that do not contain the value: the value stood between them, the marker stands there now.
pub redact_text-Cuts :
    (crypto : Crypto) (name envelope value s : Text)
    → open_envelope crypto name envelope ≡ okay value
    → value ≢ []
    → (out : Text) × (redact_text crypto s ((name, envelope) ∷ []) ≡ okay out)
      × Cuts value (marker name) s out
unfolding redact_text
redact_text-Cuts crypto name envelope value s opened nonempty = (
  replace_text s value (marker name),
  rw (redact_text, opened, filled value nonempty) refl,
  replace_from-Cuts value (marker name) nonempty (suc (length s)) s (omega arith),
)
  where
    filled : (t : Text) → t ≢ [] → is_empty t ≡ false
    filled [] h = absurd (h refl)
    filled (c ∷ t) h = refl
