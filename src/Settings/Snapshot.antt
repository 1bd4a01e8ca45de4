-- ===== src/Settings/Snapshot.antt =====
-- crates/fabric-settings/src/lib.rs: snapshots of the settings in three tiers. A snapshot that is
-- none stands for a panic, of an assignment below a value that is neither an object nor null.
use forgewire_fabric.Prelude.{
  Bool, true, false, Option, none, some, List, [], Text, text, text_eq, any, if◌then◌else◌,
}
use forgewire_fabric.Prelude.Int.{ℤ, suc_i64}
use forgewire_fabric.Prelude.Results.{Result, err, okay, and_then, ok_or}
use forgewire_fabric.Prelude.Json.{null, Json, scalar, string_value}
use forgewire_fabric.Settings.{
  SettingsError, unknown_key, read_only, pointer, merge, set_pointer, remove_pointer,
  derive_read_only,
}
use forgewire_fabric.Settings.Validation.{
  Numbers, Documents, validate_value, validate_overlay, sensitive_paths, read_only_paths,
}

pub record SettingsSnapshot (N : Type 0) : Type 0 where
  pub revision : ℤ
  pub defaults : Json N
  pub hub : Json N
  pub repo : Json N
  pub effective : Json N

module _ {N : Type 0} where
  abbrev pub is_null : Json N → Bool
  is_null (scalar null) = true
  is_null v = false

  abbrev pub redacted : Json N
  redacted = string_value (text "[REDACTED]")

  abbrev pub snapshot_of :
      ℤ → Json N → Json N → Json N → Option (Json N) → Option (SettingsSnapshot N)
  snapshot_of revision defaults hub repo none = none
  snapshot_of revision defaults hub repo (some effective) = some (record {
    revision = revision;
    defaults = defaults;
    hub = hub;
    repo = repo;
    effective = effective;
  })

module _ {N : Type 0} (numbers : Numbers N) (documents : Documents N) where
  abbrev pub Attempt : Type 0
  Attempt = Result SettingsError (Option (SettingsSnapshot N))

  unfoldable pub new_snapshot : ℤ → Json N → Json N → Attempt
  new_snapshot revision hub repo = and_then documents.defaults (λ defaults.
      and_then (validate_overlay numbers documents defaults hub []) (λ u.
        and_then (validate_overlay numbers documents defaults repo []) (λ v. okay (
          snapshot_of revision defaults hub repo
            (derive_read_only (merge (merge defaults hub) repo))))))

  abbrev pub is_in : Text → List Text → Bool
  is_in key = any (λ path. text_eq path key)

  unfoldable pub get_setting : SettingsSnapshot N → Text → Bool → Result SettingsError (Json N)
  get_setting x key show_sensitive =
      and_then (ok_or (unknown_key key) (pointer x.effective key)) (λ value.
        if show_sensitive
        then okay value
        else and_then (sensitive_paths numbers documents)
            (λ paths. okay (if is_in key paths then redacted else value)))

  unfoldable pub set_hub : SettingsSnapshot N → Text → Json N → Attempt
  set_hub x key value = and_then (read_only_paths numbers documents) (λ paths.
      if is_in key paths
      then err (read_only key)
      else and_then (ok_or (unknown_key key) (pointer x.defaults key)) (λ expected.
        and_then (validate_value numbers documents key value) (λ u.
          and_then (set_pointer x.hub key value)
            (λ hub. new_snapshot (suc_i64 x.revision) hub x.repo))))

  unfoldable pub reset_hub : SettingsSnapshot N → Text → Attempt
  reset_hub x key = and_then (read_only_paths numbers documents) (λ paths.
      if is_in key paths
      then err (read_only key)
      else and_then (ok_or (unknown_key key) (pointer x.defaults key))
          (λ expected. new_snapshot (suc_i64 x.revision) (remove_pointer x.hub key) x.repo))
