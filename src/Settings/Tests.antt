-- ===== src/Settings/Tests.antt =====
-- A small schema with its defaults, of the shape of the files under crates/fabric-settings.
use forgewire_fabric.Prelude.{All, List, ◌≡◌, refl, ◌&&◌, true, false, some, [], ◌∷◌, Text, text}
use forgewire_fabric.Prelude.Int.{ℤ, pos, ltb_ℤ, leb_ℤ}
use forgewire_fabric.Prelude.Results.{err, okay}
use forgewire_fabric.Prelude.Json.{
  Json, null, bool, number, scalar, arr, obj, nil, cons, end, field, string_value,
}
use forgewire_fabric.Settings.{
  type_mismatch, read_only, lookup, pointer, merge_value, merge_fields, assign, derive_read_only,
}
use forgewire_fabric.Settings.Validation.{
  Numbers, Documents, schema_for_path, validate_value, validate_overlay, validate_entries,
  validate_entry, schema_paths, sensitive_paths,
}
use forgewire_fabric.Settings.Snapshot.{
  SettingsSnapshot, redacted, new_snapshot, get_setting, set_hub,
}
use forgewire_fabric.Settings.Tiers.{tiered, effective_tiers}
use forgewire_fabric.Settings.Changes.{
  SettingsChange, diff, import_hub, Reports, import_hub-Reports,
}
use forgewire_fabric.Settings.Redaction.{redact_all, redact_value, safe, Hides, safe-Hides}

abbrev numbers : Numbers ℤ
numbers = record {
  num_eq = λ a b. leb_ℤ a b && leb_ℤ b a;
  is_integer = λ n. true;
  num_ltb = ltb_ℤ;
  num_leb = leb_ℤ;
}

abbrev one : Text → Json ℤ → Json ℤ
one k v = obj (field k v end)

abbrev two : Text → Json ℤ → Text → Json ℤ → Json ℤ
two k v l w = obj (field k v (field l w end))

abbrev heartbeat : ℤ → Json ℤ
heartbeat n = one (text "runner") (one (text "heartbeat_seconds") (scalar (number n)))

abbrev no_dsn : Json ℤ
no_dsn = two (text "dsn") (scalar null) (text "provision") (scalar (bool false))

abbrev defaults : Json ℤ
defaults =
    two (text "history")
      (two (text "external_db") no_dsn (text "mode") (string_value (text "thin"))) (text "runner")
      (one (text "heartbeat_seconds") (scalar (number (pos 10))))

abbrev typed : Text → Json ℤ
typed kind = one (text "type") (string_value kind)

abbrev below : Json ℤ → Json ℤ
below properties = two (text "properties") properties (text "type") (string_value (text "object"))

abbrev dsn_schema : Json ℤ
dsn_schema =
    two (text "type")
      (arr (cons (string_value (text "string")) (cons (string_value (text "null")) nil)))
      (text "x-sensitive") (scalar (bool true))

abbrev mode_schema : Json ℤ
mode_schema =
    two (text "readOnly") (scalar (bool true)) (text "type") (string_value (text "string"))

abbrev seconds_schema : Json ℤ
seconds_schema =
    two (text "minimum") (scalar (number (pos 2))) (text "type") (string_value (text "integer"))

abbrev schema : Json ℤ
schema = below (
    two (text "history")
      (below (
        two (text "external_db")
          (below (two (text "dsn") dsn_schema (text "provision") (typed (text "boolean"))))
          (text "mode") mode_schema))
      (text "runner") (below (one (text "heartbeat_seconds") seconds_schema)))

abbrev documents : Documents ℤ
documents = record { defaults = okay defaults; schema = okay schema }

abbrev with_dsn : Json ℤ → Json ℤ
with_dsn v = one (text "history") (one (text "external_db") (one (text "dsn") v))

abbrev hub : Json ℤ
hub = with_dsn (string_value (text "postgres://u:p@db"))

abbrev effective : Json ℤ → Text → ℤ → Json ℤ
effective dsn mode n =
    two (text "history")
      (two (text "external_db") (two (text "dsn") dsn (text "provision") (scalar (bool false)))
        (text "mode") (string_value mode))
      (text "runner") (one (text "heartbeat_seconds") (scalar (number n)))

abbrev snapshot : SettingsSnapshot ℤ
snapshot = record {
  revision = pos 4;
  defaults = defaults;
  hub = hub;
  repo = heartbeat (pos 5);
  effective = effective (string_value (text "postgres://u:p@db")) (text "external") (pos 5);
}

abbrev hidden : SettingsSnapshot ℤ
hidden = record snapshot {
  hub = with_dsn redacted;
  effective = effective redacted (text "external") (pos 5);
}

made : new_snapshot numbers documents (pos 4) hub (heartbeat (pos 5)) ≡ okay (some snapshot)
unfolding new_snapshot validate_overlay validate_entries validate_entry validate_value
    schema_for_path lookup merge_value merge_fields derive_read_only assign
made = refl

too_fast :
    set_hub numbers documents snapshot (text "runner.heartbeat_seconds") (scalar (number (pos 1)))
    ≡ err (
        type_mismatch
          (text "runner.heartbeat_seconds")
          (text "number within schema bounds")
          (text "number"))
unfolding set_hub schema_paths pointer lookup validate_value schema_for_path
too_fast = refl

derived :
    set_hub numbers documents snapshot (text "history.mode") (string_value (text "thin"))
    ≡ err (read_only (text "history.mode"))
unfolding set_hub schema_paths
derived = refl

shown : safe numbers documents snapshot ≡ okay hidden
unfolding safe redact_value redact_all schema_paths
shown = refl

effective_tiers_example :
    lookup (text "runner" ∷ text "heartbeat_seconds" ∷ []) snapshot.effective
    ≡ tiered
        (text "runner" ∷ text "heartbeat_seconds" ∷ [])
        snapshot.defaults
        hub
        (heartbeat (pos 5))
unfolding lookup
effective_tiers_example =
    effective_tiers numbers documents (pos 4) hub (heartbeat (pos 5)) snapshot
      (text "runner" ∷ text "heartbeat_seconds" ∷ []) made refl
      (((tt, refl, tt), refl, tt), refl, tt) (((tt, refl, tt), refl, tt)) tt tt

the_dsn : sensitive_paths numbers documents ≡ okay (text "history.external_db.dsn" ∷ [])
unfolding schema_paths
the_dsn = refl

safe-Hides_example :
    Hides (text "history.external_db.dsn" ∷ []) hidden.defaults
    × Hides (text "history.external_db.dsn" ∷ []) hidden.hub
    × Hides (text "history.external_db.dsn" ∷ []) hidden.repo
    × Hides (text "history.external_db.dsn" ∷ []) hidden.effective
safe-Hides_example =
    safe-Hides numbers documents snapshot hidden (text "history.external_db.dsn" ∷ []) the_dsn shown

-- Below a key that is not marked itself, a sensitive value is shown.
leaks :
    get_setting numbers documents snapshot (text "history.external_db") false
    ≡ okay (
        two
          (text "dsn")
          (string_value (text "postgres://u:p@db"))
          (text "provision")
          (scalar (bool false)))
unfolding get_setting schema_paths pointer lookup
leaks = refl

abbrev next : SettingsSnapshot ℤ
next = record {
  revision = pos 5;
  defaults = defaults;
  hub = with_dsn (string_value (text "sqlite://new"));
  repo = heartbeat (pos 5);
  effective = effective (string_value (text "sqlite://new")) (text "external") (pos 5);
}

abbrev changes : List (SettingsChange ℤ)
changes = record { key = text "history.external_db.dsn"; before = redacted; after = redacted } ∷ []

imported :
    import_hub numbers documents snapshot (with_dsn (string_value (text "sqlite://new")))
    ≡ okay (some (next, changes))
unfolding import_hub diff new_snapshot validate_overlay validate_entries validate_entry
    validate_value schema_for_path schema_paths lookup merge_value merge_fields derive_read_only
    assign
imported = refl

import_hub-Reports_example :
    All (Reports numbers documents (text "history.external_db.dsn" ∷ [])) changes
import_hub-Reports_example =
    import_hub-Reports numbers documents snapshot next
      (with_dsn (string_value (text "sqlite://new"))) (text "history.external_db.dsn" ∷ []) changes
      the_dsn imported
