-- ===== src/Hub/Mutation/Ready.antt =====
-- crates/fabric-hub/src/routes/settings.rs: what is prepared for a change.
use forgewire_fabric.Prelude.{
  some-injective, ◌≡◌, refl, sym, ap, ◌∙◌, Option, none, some, List, [], Text, text,
}
use forgewire_fabric.Prelude.Int.{ℤ}
use forgewire_fabric.Prelude.Results.{Result, okay, and_then, and_then-okay, okay-injective}
use forgewire_fabric.Prelude.Json.{Json, obj, end}
use forgewire_fabric.Settings.{SettingsError}
use forgewire_fabric.Settings.Validation.{
  Numbers, Documents, walk, schema_paths, sensitive_paths, read_only_paths, validate_overlay,
}
use forgewire_fabric.Settings.Snapshot.{
  SettingsSnapshot, new_snapshot, set_hub, reset_hub, snapshot_of,
}
use forgewire_fabric.Settings.Changes.{Imported, import_hub}
use forgewire_fabric.Settings.Redaction.{safe, redact_value, redact_all}
use forgewire_fabric.Hub.Mutation.{
  SettingsDocument, Prepared, change_of, with_import, with_next, with_current, prepare,
}

module _ {N : Type 0} (numbers : Numbers N) (documents : Documents N) where
  -- Where the schema can be read, a snapshot can be shown.
  unfoldable pub CanShow : SettingsSnapshot N → Type 0
  CanShow x = (shown : SettingsSnapshot N) × (safe numbers documents x ≡ okay shown)

  shows :
      (x : SettingsSnapshot N) (paths : List Text)
      → sensitive_paths numbers documents ≡ okay paths
      → CanShow x
  unfolding CanShow safe redact_value
  shows x paths p = (
    record {
      revision = x.revision;
      defaults = redact_all paths x.defaults;
      hub = redact_all paths x.hub;
      repo = redact_all paths x.repo;
      effective = redact_all paths x.effective;
    },
    rw p refl,
  )

  pub safe_hub :
      (x shown : SettingsSnapshot N)
      → safe numbers documents x ≡ okay shown
      → redact_value numbers documents x.hub ≡ okay shown.hub
  unfolding safe
  safe_hub x shown h =
      let (defaults, d, h1) = and_then-okay (redact_value numbers documents x.defaults) _ shown h in
      let (hub, b, h2) = and_then-okay (redact_value numbers documents x.hub) _ shown h1 in
      let (repo, r, h3) = and_then-okay (redact_value numbers documents x.repo) _ shown h2 in
      let (effective, e, h4) =
        and_then-okay (redact_value numbers documents x.effective) _ shown h3 in
      b ∙ ap (λ y. okay y.hub) (okay-injective _ shown h4)

  schema_read :
      {A : Type 0} (f : List Text → Result SettingsError A) (a : A)
      → and_then (read_only_paths numbers documents) f ≡ okay a
      → (paths : List Text) × (sensitive_paths numbers documents ≡ okay paths)
  unfolding schema_paths
  schema_read f a h =
      let (paths, p, h1) = and_then-okay (read_only_paths numbers documents) f a h in
      let (root, s, h2) = and_then-okay documents.schema _ paths p in
      let flag = text "x-sensitive" in
      (
        walk numbers documents flag [] root,
        ap (λ o. and_then o (λ node. okay (walk numbers documents flag [] node))) s,
      )

  change_read :
      (x : SettingsSnapshot N) (key : Text) (value : Option (Json N))
      (o : Option (SettingsSnapshot N))
      → change_of numbers documents x key value ≡ okay o
      → (paths : List Text) × (sensitive_paths numbers documents ≡ okay paths)
  unfolding set_hub reset_hub
  change_read x key none o h = schema_read _ o h
  change_read x key (some v) o h = schema_read _ o h

  -- What is prepared from a document keeps its value, and can be shown.
  unfoldable pub IsReady : Json N → Prepared N → Type 0
  IsReady value p = (p.current.hub ≡ value) × CanShow p.next

  import_ready :
      (current next : SettingsSnapshot N) (i : Imported N) (p : Prepared N)
      → with_import numbers documents current next i ≡ okay (some p)
      → (current ≡ p.current) × (next ≡ p.next)
  import_ready current next none p h = cc
  import_ready current next (some (again, changes)) p h =
      let same = some-injective (okay-injective _ _ h) in
      (ap (λ q. q.current) same, ap (λ q. q.next) same)

  next_ready :
      (current : SettingsSnapshot N) (o : Option (SettingsSnapshot N)) (p : Prepared N)
      → with_next numbers documents current o ≡ okay (some p)
      → current ≡ p.current
  next_ready current none p h = cc
  next_ready current (some next) p h =
      let (i, e, h1) =
        and_then-okay (import_hub numbers documents current next.hub)
          (with_import numbers documents current next) (some p) h in
      (import_ready current next i p h1).0

  made_hub :
      (revision : ℤ) (defaults hub repo : Json N) (effective : Option (Json N))
      (x : SettingsSnapshot N)
      → snapshot_of revision defaults hub repo effective ≡ some x
      → x.hub ≡ hub
  made_hub revision defaults hub repo none x h = cc
  made_hub revision defaults hub repo (some e) x h = sym (ap (λ y. y.hub) (some-injective h))

  new_snapshot-hub :
      (revision : ℤ) (hub repo : Json N) (x : SettingsSnapshot N)
      → new_snapshot numbers documents revision hub repo ≡ okay (some x)
      → x.hub ≡ hub
  unfolding new_snapshot
  new_snapshot-hub revision hub repo x h =
      let (defaults, read, h1) = and_then-okay documents.defaults _ (some x) h in
      let (u, checked, h2) =
        and_then-okay (validate_overlay numbers documents defaults hub []) _ (some x) h1 in
      let (v, checked', h3) =
        and_then-okay (validate_overlay numbers documents defaults repo []) _ (some x) h2 in
      made_hub revision defaults hub repo _ x (okay-injective _ _ h3)

  current-IsReady :
      (key : Text) (value : Option (Json N)) (o : Option (SettingsSnapshot N)) (hub : Json N)
      (p : Prepared N)
      → ((x : SettingsSnapshot N) → o ≡ some x → x.hub ≡ hub)
      → with_current numbers documents key value o ≡ okay (some p)
      → IsReady hub p
  unfolding IsReady
  current-IsReady key value none hub p made h = cc
  current-IsReady key value (some current) hub p made h =
      let (o, c, h1) =
        and_then-okay (change_of numbers documents current key value)
          (with_next numbers documents current) (some p) h in
      let (paths, read) = change_read current key value o c in
      (
        ap (λ x. x.hub) (sym (next_ready current o p h1)) ∙ made current refl,
        shows p.next paths read,
      )

  pub prepare-IsReady :
      (d : SettingsDocument N) (key : Text) (value : Option (Json N)) (p : Prepared N)
      → prepare numbers documents d key value ≡ okay (some p)
      → IsReady d.value p
  unfolding prepare
  prepare-IsReady d key value p h =
      let (o, n, h1) =
        and_then-okay (new_snapshot numbers documents d.revision d.value (obj end))
          (with_current numbers documents key value) (some p) h in
      current-IsReady key value o d.value p
        (λ x e. new_snapshot-hub d.revision d.value (obj end) x (n ∙ ap okay e)) h1
