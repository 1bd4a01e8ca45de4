-- ===== src/Lanes/Clean.antt =====
-- crates/fabric-compute-lanes/src/redact.rs, redact_field: how long a field can be, which fields
-- pass unchanged, and what a control character hides.
use forgewire_fabric.Prelude.{
  ℕ, zero, suc, ◌+◌, ◌-◌, ◌≤◌, ◌≡◌, sym, ap, ◌∙◌, inl, inr, Bool, true, false, Bool-cases, Option,
  none, some, [], ◌∷◌, ◌++◌, map, arith, Text, text, ltb, leb, if◌then◌else◌, any, char_len,
  byte_len, trim,
}
use forgewire_fabric.Lanes.Redact.{
  RedactionOutcome, clean, redacted, value_of, max_field_len, is_control, blank_control,
  is_char_boundary, slice_to, boundary_before, truncate, looks_like_path, contains_current_username,
  long_opaque_run, redact_field, or_path, or_opaque,
}

byte_len-append : (s t : Text) → byte_len (s ++ t) ≡ byte_len s + byte_len t
byte_len-append [] t = omega arith
byte_len-append (c ∷ s) t = omega (arith, byte_len-append s t)

slice_bound : (s : Text) (end : ℕ) → byte_len (slice_to s end) ≤ end
slice_bound [] end = omega arith
slice_bound (c ∷ s) end = elim (Bool-cases (leb (char_len c) end)) [
  | inl e ↦ (let rest = slice_bound s (end - char_len c) in rw (slice_to, e) (ground (arith, rest)))
  | inr e ↦ rw (slice_to, e) (omega arith)
]

boundary_bound : (s : Text) (n : ℕ) → boundary_before s n ≤ n
unfolding boundary_before
boundary_bound s zero = omega arith
boundary_bound s (suc n) = elim (Bool-cases (is_char_boundary s (suc n))) [
  | inl e ↦ rw (boundary_before, e) (omega arith)
  | inr e ↦ rw (boundary_before, e) (omega (arith, boundary_bound s n))
]

cut_bound : (s : Text) (n : ℕ) → byte_len (slice_to s (boundary_before s n) ++ text "…") ≤ n + 3
cut_bound s n = omega (
  arith,
  byte_len-append (slice_to s (boundary_before s n)) (text "…"),
  slice_bound s (boundary_before s n),
  boundary_bound s n,
)

truncate_bound : (s : Text) → byte_len (truncate s) ≤ 131
unfolding truncate
truncate_bound s = elim (Bool-cases (leb (byte_len s) max_field_len)) [
  | inl e ↦ rw (truncate, e) (ground arith)
  | inr e ↦ rw (truncate, e) (cut_bound s 128)
]

or_opaque_bound : (value : Text) (o : Option ℕ) → byte_len (value_of (or_opaque value o)) ≤ 131
or_opaque_bound value (some run) = ground arith
or_opaque_bound value none = elim (Bool-cases (ltb max_field_len (byte_len value))) [
  | inl e ↦ rw (or_opaque, e) (truncate_bound value)
  | inr e ↦ rw (or_opaque, e) (ground arith)
]

or_path_bound :
    (env : Text → Option Text) (value : Text) (o : Option Text)
    → byte_len (value_of (or_path env value o)) ≤ 131
or_path_bound env value (some reason) = ground arith
or_path_bound env value none = elim (Bool-cases (contains_current_username env value)) [
  | inl e ↦ rw (or_path, e) (ground arith)
  | inr e ↦ rw (or_path, e) (or_opaque_bound value (long_opaque_run value))
]

-- Whatever a probe reports, an advertised field has at most 131 bytes.
pub redact_field_bounded :
    (env : Text → Option Text) (value : Text) → byte_len (value_of (redact_field env value)) ≤ 131
unfolding redact_field
redact_field_bounded env value = elim (Bool-cases (any is_control value)) [
  | inl e ↦ rw (redact_field, e) (truncate_bound (trim (map blank_control value)))
  | inr e ↦ rw (redact_field, e) (or_path_bound env value (looks_like_path value))
]

-- A field that passes is unchanged.
pub clean_same :
    (env : Text → Option Text) (value v : Text) → redact_field env value ≡ clean v → v ≡ value
unfolding redact_field
clean_same env value v h = of_control (any is_control value) h
  where
    redacted_clean : (a b : Text) → redacted a b ≡ clean v → ⊥
    redacted_clean a b k = cc

    of_length :
        (b : Bool)
        → (if b then redacted (truncate value) (text "exceeded 128 characters") else clean value)
          ≡ clean v
        → v ≡ value
    of_length true k = cc
    of_length false k = sym (ap value_of k)

    of_opaque : (o : Option ℕ) → or_opaque value o ≡ clean v → v ≡ value
    of_opaque (some run) k = cc
    of_opaque none k = of_length (ltb max_field_len (byte_len value)) k

    by_user : Bool → RedactionOutcome
    by_user b =
        if b
        then redacted (text "[redacted-user]") (text "contained the current username")
        else or_opaque value (long_opaque_run value)

    of_path : (o : Option Text) → or_path env value o ≡ clean v → v ≡ value
    of_path (some reason) k = cc
    of_path none k = elim (Bool-cases (contains_current_username env value)) [
      | inl e ↦ absurd (redacted_clean _ _ (sym (ap by_user e) ∙ k))
      | inr e ↦ of_opaque (long_opaque_run value) (sym (ap by_user e) ∙ k)
    ]

    of_control :
        (b : Bool)
        → (if b
            then redacted
                (truncate (trim (map blank_control value)))
                (text "contained control characters")
            else or_path env value (looks_like_path value))
          ≡ clean v
        → v ≡ value
    of_control true k = cc
    of_control false k = of_path (looks_like_path value) k
