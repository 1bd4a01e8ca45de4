-- ===== src/Lanes/Hidden.antt =====
-- crates/fabric-compute-lanes/src/redact.rs, redact_field: what a control character hides.
use mathlib.Core.List.{reverse, reverse-append, map-append}
use forgewire_fabric.Prelude.{
  ℕ, ◌≤◌, ◌≡◌, ◌⊎◌, refl, ap, ◌∙◌, inl, inr, Bool, true, false, Bool-cases, Option, [], ◌∷◌, ◌++◌,
  map, arith, Text, text, leb, any, byte_len, drop_while, drop_end_while, is_whitespace, trim,
}
use forgewire_fabric.Lanes.Redact.{
  value_of, max_field_len, is_control, blank_control, truncate, redact_field,
}

module _ (f : ℕ → Bool) (c : ℕ) (dropped : f c ≡ true) where
  drop_while-append :
      (s : Text)
      → (drop_while f (s ++ c ∷ []) ≡ drop_while f s ++ c ∷ [])
        ⊎ ((drop_while f (s ++ c ∷ []) ≡ []) × (drop_while f s ≡ []))
  drop_while-append [] = inr (ground (arith, dropped), refl)
  drop_while-append (d ∷ s) = elim (Bool-cases (f d)) [
    | inl e ↦ rw (drop_while, e) (drop_while-append s)
    | inr e ↦ inl (rw (drop_while, e) refl)
  ]

  drop_end_while-append : (s : Text) → drop_end_while f (s ++ c ∷ []) ≡ drop_end_while f s
  drop_end_while-append s =
      rw (reverse-append s (c ∷ [])) (ap (reverse {A = ℕ}) (drops (reverse s)))
    where
      drops : (t : Text) → drop_while f (c ∷ t) ≡ drop_while f t
      drops t = rw (drop_while, dropped) refl

trim-append : (s : Text) (c : ℕ) → is_whitespace c ≡ true → trim (s ++ c ∷ []) ≡ trim s
trim-append s c h = elim (drop_while-append is_whitespace c h s) [
  | inl e ↦ rw e (drop_end_while-append is_whitespace c h (drop_while is_whitespace s))
  | inr e ↦ rw (e.0, e.1) refl
]

blank_plain : (s : Text) → any is_control s ≡ false → map blank_control s ≡ s
blank_plain [] h = refl
blank_plain (c ∷ s) h =
    let k : is_control c ≡ false = ground arith in
    rw (blank_control, k, blank_plain s (ground arith)) refl

control_somewhere : (s t : Text) → any is_control t ≡ true → any is_control (s ++ t) ≡ true
control_somewhere [] t h = h
control_somewhere (c ∷ s) t h = ground (arith, control_somewhere s t h)

-- A field of up to 128 bytes without control characters and without space at its ends passes
-- unchanged if a line feed is put behind it, whatever path, user name or token it holds.
pub redact_field_hidden :
    (env : Text → Option Text) (value : Text)
    → any is_control value ≡ false
    → trim value ≡ value
    → byte_len value ≤ 128
    → value_of (redact_field env (value ++ text "\n")) ≡ value
unfolding redact_field truncate
redact_field_hidden env value plain trimmed short =
    let blanked : map blank_control (value ++ text "\n") ≡ value ++ text " " =
      map-append blank_control value (text "\n")
      ∙ ap (λ t. t ++ text " ") (blank_plain value plain) in
    let left : trim (map blank_control (value ++ text "\n")) ≡ value =
      ap trim blanked ∙ trim-append value b' ' refl ∙ trimmed in
    let fits : leb (byte_len value) max_field_len ≡ true = ground (arith, short) in
    rw (redact_field, control_somewhere value (text "\n") refl, left, truncate, fits) refl
