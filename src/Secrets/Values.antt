-- ===== src/Secrets/Values.antt =====
-- crates/fabric-secrets/src/lib.rs, redact_value: the strings of a JSON value, at any depth.
use forgewire_fabric.Prelude.{inl, inr, ◌≡◌, refl, sym, ap, ◌∙◌, List, [], ◌∷◌, ◌++◌, map, Text}
use forgewire_fabric.Prelude.Results.{
  Result, Result-cases, okay-injective, err-okay, okay, and_then,
}
use forgewire_fabric.Prelude.Json.{
  null, bool, number, string, Json, scalar, arr, obj, Items, nil, cons, Fields, end, field,
}
use forgewire_fabric.Secrets.{
  SecretError, Crypto, open_all, sort_values, redact_with, visit, visit_items, visit_fields,
  redact_text, redact_value,
}
use mathlib.Core.List.{map-append}

abbrev mutual
  pub strings_of : {N : Type 0} → Json N → List Text
  strings_of (scalar (string s)) = s ∷ []
  strings_of (scalar v) = []
  strings_of (arr xs) = strings_in xs
  strings_of (obj fs) = strings_under fs

  pub strings_in : {N : Type 0} → Items N → List Text
  strings_in nil = []
  strings_in (cons x xs) = strings_of x ++ strings_in xs

  pub strings_under : {N : Type 0} → Fields N → List Text
  strings_under end = []
  strings_under (field k v fs) = strings_of v ++ strings_under fs

module _ {N : Type 0} (secrets : List (Text × Text)) where
  mutual
    unfolding visit visit_items visit_fields

    visit-strings :
        (j : Json N) → strings_of (visit secrets j) ≡ map (redact_with secrets) (strings_of j)
    visit-strings (scalar null) = refl
    visit-strings (scalar (bool b)) = refl
    visit-strings (scalar (number n)) = refl
    visit-strings (scalar (string s)) = refl
    visit-strings (arr xs) = visit_items-strings xs
    visit-strings (obj fs) = visit_fields-strings fs

    visit_items-strings :
        (xs : Items N)
        → strings_in (visit_items secrets xs) ≡ map (redact_with secrets) (strings_in xs)
    visit_items-strings nil = refl
    visit_items-strings (cons x xs) =
        rw (visit-strings x, visit_items-strings xs)
          (sym (map-append (redact_with secrets) (strings_of x) (strings_in xs)))

    visit_fields-strings :
        (fs : Fields N)
        → strings_under (visit_fields secrets fs) ≡ map (redact_with secrets) (strings_under fs)
    visit_fields-strings end = refl
    visit_fields-strings (field k v fs) =
        rw (visit-strings v, visit_fields-strings fs)
          (sym (map-append (redact_with secrets) (strings_of v) (strings_under fs)))

module _ (crypto : Crypto) (envelopes : List (Text × Text)) where
  redacted_texts :
      (values : List (Text × Text))
      → open_all crypto envelopes ≡ okay values
      → (l : List Text)
      → map (λ s. redact_text crypto s envelopes) l
        ≡ map okay (map (redact_with (sort_values values)) l)
  unfolding redact_text
  redacted_texts values h [] = refl
  redacted_texts values h (s ∷ l) = rw (redact_text, h, redacted_texts values h l) refl

module _ (crypto : Crypto) (envelopes : List (Text × Text)) {N : Type 0} where
  -- The strings of a redacted value are, one by one and in order, what redact_text makes of the
  -- strings of the value.
  pub redact_value-strings :
      (value out : Json N)
      → redact_value crypto value envelopes ≡ okay out
      → map (λ s. redact_text crypto s envelopes) (strings_of value) ≡ map okay (strings_of out)
  unfolding redact_value
  redact_value-strings value out h = elim (Result-cases (open_all crypto envelopes)) [
    | inl (e, k) ↦ absurd (err-okay e out (sym (ap (λ o. and_then o wrap) k) ∙ h))
    | inr (values, k) ↦
        let same : visit (sort_values values) value ≡ out =
          okay-injective _ out (sym (ap (λ o. and_then o wrap) k) ∙ h) in
        redacted_texts crypto envelopes values k (strings_of value)
        ∙ ap (map okay) (sym (visit-strings (sort_values values) value) ∙ ap strings_of same)
  ]
    where
      wrap : List (Text × Text) → Result SecretError (Json N)
      wrap values = okay (visit (sort_values values) value)
