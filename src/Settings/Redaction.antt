-- ===== src/Settings/Redaction.antt =====
-- crates/fabric-settings/src/lib.rs: the redaction of sensitive settings.
use mathlib.Core.Path.{subst}
use forgewire_fabric.Prelude.{
  ◌≡◌, refl, sym, ap, ◌∙◌, ◌⊎◌, inl, inr, Option, none, some, List, [], ◌∷◌, Text, text_eq,
  text_eq_self, text_eq_sound, split, All, Bool-cases, if◌then◌else◌,
}
use forgewire_fabric.Prelude.Results.{Result, okay, and_then, and_then-okay, okay-injective}
use forgewire_fabric.Prelude.Json.{
  null, bool, number, string, Json, scalar, arr, obj, Fields, get_field, insert_field,
}
use forgewire_fabric.Settings.{SettingsError, through, lookup, pointer, replaced}
use forgewire_fabric.Settings.Validation.{Numbers, Documents, sensitive_paths}
use forgewire_fabric.Settings.Snapshot.{is_null, redacted, SettingsSnapshot}
use forgewire_fabric.Settings.Layers.{get-insert_field}

module _ {N : Type 0} where
  abbrev pub mark : Json N → Json N
  mark v = if is_null v then v else redacted

  -- `pointer_mut` and the assignment, if there is a slot.
  abbrev pub update : List Text → Json N → Json N
  update [] root = mark root
  update (k ∷ ks) (obj fs) = replaced k fs (get_field k fs) (update ks)
  update (k ∷ ks) (scalar s) = scalar s
  update (k ∷ ks) (arr xs) = arr xs

  unfoldable pub redact_all : List Text → Json N → Json N
  redact_all [] value = value
  redact_all (path ∷ paths) value = redact_all paths (update (split b'.' path) value)

module _ {N : Type 0} (numbers : Numbers N) (documents : Documents N) where
  unfoldable pub redact_value : Json N → Result SettingsError (Json N)
  redact_value value =
      and_then (sensitive_paths numbers documents) (λ paths. okay (redact_all paths value))

  unfoldable pub redacted_effective : SettingsSnapshot N → Result SettingsError (Json N)
  unfolding redact_value
  redacted_effective x = redact_value x.effective

  -- The snapshot that `serialize` writes in place of another.
  unfoldable pub safe : SettingsSnapshot N → Result SettingsError (SettingsSnapshot N)
  unfolding redact_value
  safe x = and_then (redact_value x.defaults) (λ defaults. and_then (redact_value x.hub) (λ hub.
      and_then (redact_value x.repo) (λ repo. and_then (redact_value x.effective) (λ effective.
        okay (record {
          revision = x.revision;
          defaults = defaults;
          hub = hub;
          repo = repo;
          effective = effective;
        })))))

module _ {N : Type 0} where
  -- Nothing but null or the marker.
  abbrev pub IsHidden : Option (Json N) → Type 0
  IsHidden none = Unit
  IsHidden (some v) = (v ≡ scalar null) ⊎ (v ≡ redacted)

  abbrev HidesAt : List Text → Json N → Type 0
  HidesAt ks v = IsHidden (lookup ks v)

  pub mark-IsHidden : (v : Json N) → IsHidden (some (mark v))
  mark-IsHidden (scalar null) = inl refl
  mark-IsHidden (scalar (bool b)) = inr refl
  mark-IsHidden (scalar (number n)) = inr refl
  mark-IsHidden (scalar (string s)) = inr refl
  mark-IsHidden (arr xs) = inr refl
  mark-IsHidden (obj fs) = inr refl

  found_field :
      (k : Text) (ks : List Text) (w : Json N) (fs : Fields N)
      → lookup (k ∷ ks) (obj (insert_field k w fs)) ≡ lookup ks w
  unfolding lookup
  found_field k ks w fs = rw (get-insert_field k k w fs, text_eq_self k) refl

  -- A path is hidden once it has been updated.
  update_hides : (ks : List Text) (v : Json N) → HidesAt ks (update ks v)
  unfolding lookup
  update_hides [] v = mark-IsHidden v
  update_hides (k ∷ ks) (scalar s) = tt
  update_hides (k ∷ ks) (arr xs) = tt
  update_hides (k ∷ ks) (obj fs) = at (get_field k fs) refl (update_hides ks)
    where
      at :
          (o : Option (Json N))
          → get_field k fs ≡ o
          → ((v : Json N) → HidesAt ks (update ks v))
          → HidesAt (k ∷ ks) (replaced k fs o (update ks))
      at none e more = subst (λ o. IsHidden (through (lookup ks) o)) (sym e) tt
      at (some v) e more = subst IsHidden (sym (found_field k ks (update ks v) fs)) (more v)

  -- What is hidden stays so when another path is updated.
  update_keeps : (js ks : List Text) (v : Json N) → HidesAt js v → HidesAt js (update ks v)
  unfolding lookup
  update_keeps [] [] v h = mark-IsHidden v
  update_keeps [] (k ∷ ks) (scalar s) h = h
  update_keeps [] (k ∷ ks) (arr xs) h = h
  update_keeps [] (k ∷ ks) (obj fs) (inl h) = cc
  update_keeps [] (k ∷ ks) (obj fs) (inr h) = cc
  update_keeps (j ∷ js) [] (scalar null) h = tt
  update_keeps (j ∷ js) [] (scalar (bool b)) h = tt
  update_keeps (j ∷ js) [] (scalar (number b)) h = tt
  update_keeps (j ∷ js) [] (scalar (string b)) h = tt
  update_keeps (j ∷ js) [] (arr xs) h = tt
  update_keeps (j ∷ js) [] (obj fs) h = tt
  update_keeps (j ∷ js) (k ∷ ks) (scalar s) h = h
  update_keeps (j ∷ js) (k ∷ ks) (arr xs) h = h
  update_keeps (j ∷ js) (k ∷ ks) (obj fs) h = at (get_field k fs) refl (update_keeps js ks)
    where
      at :
          (o : Option (Json N))
          → get_field k fs ≡ o
          → ((v : Json N) → HidesAt js v → HidesAt js (update ks v))
          → HidesAt (j ∷ js) (replaced k fs o (update ks))
      at none e more = h
      at (some v) e more =
          subst (λ o. IsHidden (through (lookup js) o))
            (sym (get-insert_field k j (update ks v) fs))
            (elim (Bool-cases (text_eq k j)) [
              | inl m ↦
                  subst
                    (λ b.
                      IsHidden
                        (through (lookup js) (if b then some (update ks v) else get_field j fs)))
                    (sym m)
                    (more v (
                      subst (λ o. IsHidden (through (lookup js) o))
                        (ap (λ i. get_field i fs) (sym (text_eq_sound k j m)) ∙ e) h))
              | inr m ↦
                  subst
                    (λ b.
                      IsHidden
                        (through (lookup js) (if b then some (update ks v) else get_field j fs)))
                    (sym m) h
            ])

  redact_all_keeps :
      (paths : List Text) (js : List Text) (v : Json N)
      → HidesAt js v
      → HidesAt js (redact_all paths v)
  unfolding redact_all
  redact_all_keeps [] js v h = h
  redact_all_keeps (p ∷ paths) js v h =
      redact_all_keeps paths js (update (split b'.' p) v) (update_keeps js (split b'.' p) v h)

  -- Keys that a value shows nothing of but null or the marker.
  abbrev pub Hides : List Text → Json N → Type 0
  Hides paths v = All (λ p. IsHidden (pointer v p)) paths

  redact_all-Hides : (paths : List Text) (v : Json N) → Hides paths (redact_all paths v)
  unfolding redact_all pointer
  redact_all-Hides [] v = tt
  redact_all-Hides (p ∷ paths) v = (
    redact_all_keeps paths (split b'.' p) (update (split b'.' p) v) (update_hides (split b'.' p) v),
    redact_all-Hides paths (update (split b'.' p) v),
  )

redact_value-Hides :
    {N : Type 0} (numbers : Numbers N) (documents : Documents N) (value shown : Json N)
    (paths : List Text)
    → sensitive_paths numbers documents ≡ okay paths
    → redact_value numbers documents value ≡ okay shown
    → Hides paths shown
unfolding redact_value
redact_value-Hides numbers documents value shown paths p h =
    subst (Hides paths)
      (okay-injective (redact_all paths value) shown
        (sym (ap (λ o. and_then o (λ paths. okay (redact_all paths value))) p) ∙ h))
      (redact_all-Hides paths value)

-- Whichever settings the schema marks as sensitive, a serialized snapshot shows nothing of them but
-- null or the marker, in any of its four documents.
pub safe-Hides :
    {N : Type 0} (numbers : Numbers N) (documents : Documents N) (x shown : SettingsSnapshot N)
    (paths : List Text)
    → sensitive_paths numbers documents ≡ okay paths
    → safe numbers documents x ≡ okay shown
    → Hides paths shown.defaults
      × Hides paths shown.hub
      × Hides paths shown.repo
      × Hides paths shown.effective
unfolding safe
safe-Hides numbers documents x shown paths p h =
    let (defaults, d, h1) = and_then-okay (redact_value numbers documents x.defaults) _ shown h in
    let (hub, b, h2) = and_then-okay (redact_value numbers documents x.hub) _ shown h1 in
    let (repo, r, h3) = and_then-okay (redact_value numbers documents x.repo) _ shown h2 in
    let (effective, e, h4) =
      and_then-okay (redact_value numbers documents x.effective) _ shown h3 in
    let same = okay-injective _ shown h4 in
    subst
      (λ y.
        Hides paths y.defaults × Hides paths y.hub × Hides paths y.repo × Hides paths y.effective)
      same
      (
        redact_value-Hides numbers documents x.defaults defaults paths p d,
        redact_value-Hides numbers documents x.hub hub paths p b,
        redact_value-Hides numbers documents x.repo repo paths p r,
        redact_value-Hides numbers documents x.effective effective paths p e,
      )
