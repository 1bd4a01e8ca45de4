-- ===== src/Hub/Mutation.antt =====
-- crates/fabric-hub/src/routes/settings.rs: a change of a setting by a client, over the store of the
-- settings and the audit log.
pub mod Ready
pub mod Atomic
mod Tests
use forgewire_fabric.Prelude.{
  ℕ, ◌≡◌, ◌&&◌, Bool, true, false, Option, none, some, List, Text, text, ◌++◌, ◌==◌, if◌then◌else◌,
}
use forgewire_fabric.Prelude.Int.{ℤ, pos, negsuc}
use forgewire_fabric.Prelude.Results.{Result, err, okay, and_then}
use forgewire_fabric.Prelude.Json.{Json, obj, end}
use forgewire_fabric.Hub.Store.{StoreError, conflict, store_text}
use forgewire_fabric.Settings.{
  SettingsError, invalid_json, unknown_key, read_only, type_mismatch, root_not_object,
}
use forgewire_fabric.Settings.Validation.{Numbers, Documents}
use forgewire_fabric.Settings.Snapshot.{SettingsSnapshot, new_snapshot, set_hub, reset_hub}
use forgewire_fabric.Settings.Changes.{SettingsChange, Imported, import_hub}
use forgewire_fabric.Settings.Redaction.{safe}

pub record SettingsDocument (N : Type 0) : Type 0 where
  pub revision : ℤ
  pub value : Json N

-- A status code with a message.
abbrev pub Failure : Type 0
Failure = ℕ × Text

abbrev pub store_error : StoreError → Failure
store_error (conflict message) = (409, message)
store_error e = (500, store_text e)

abbrev pub settings_text : SettingsError → Text
settings_text (invalid_json e) = text "settings document is invalid JSON: " ++ e
settings_text (unknown_key key) = text "unknown settings key: " ++ key
settings_text (read_only key) = text "settings key is read-only: " ++ key
settings_text (type_mismatch key expected actual) =
    text "settings value for "
    ++ (key ++ (text " has type " ++ (actual ++ (text "; expected " ++ expected))))
settings_text root_not_object = text "settings root must be an object"

abbrev pub settings_error : SettingsError → Failure
settings_error e = (400, settings_text e)

abbrev pub eq_ℤ : ℤ → ℤ → Bool
eq_ℤ (pos m) (pos n) = m == n
eq_ℤ (pos m) (negsuc n) = false
eq_ℤ (negsuc m) (pos n) = false
eq_ℤ (negsuc m) (negsuc n) = m == n

-- The store, the audit log and the clock, in a world that a call changes. The entry of the audit log
-- is given by its actor, revision and changes.
pub record Calls (W N : Type 0) : Type 0 where
  pub get_document : W → Result StoreError (SettingsDocument N) × W
  pub put_document : ℤ → Json N → Text → Text → W → Result StoreError (SettingsDocument N) × W
  pub append_audit : Text → ℤ → List (SettingsChange N) → W → Result Text (Unit {0}) × W
  pub utc_now : W → Text

-- The snapshots before and after a change, with the changes between them.
pub record Prepared (N : Type 0) : Type 0 where
  pub current : SettingsSnapshot N
  pub next : SettingsSnapshot N
  pub changes : List (SettingsChange N)

abbrev pub compensation_failed : Failure
compensation_failed = (503, text "settings audit and compensation failed")

-- What a route answers, or none if it panics, and the world after it.
abbrev pub Answer : Type 0 → Type 0 → Type 0
Answer W N = Option (Result Failure (SettingsSnapshot N)) × W

module _ {N : Type 0} (numbers : Numbers N) (documents : Documents N) where
  abbrev pub change_of :
      SettingsSnapshot N
      → Text
      → Option (Json N)
      → Result SettingsError (Option (SettingsSnapshot N))
  change_of current key none = reset_hub numbers documents current key
  change_of current key (some value) = set_hub numbers documents current key value

  abbrev pub with_import :
      SettingsSnapshot N
      → SettingsSnapshot N
      → Imported N
      → Result SettingsError (Option (Prepared N))
  with_import current next none = okay none
  with_import current next (some (again, changes)) =
      okay (some (record { current = current; next = next; changes = changes }))

  abbrev pub with_next :
      SettingsSnapshot N → Option (SettingsSnapshot N) → Result SettingsError (Option (Prepared N))
  with_next current none = okay none
  with_next current (some next) =
      and_then (import_hub numbers documents current next.hub) (with_import current next)

  abbrev pub with_current :
      Text
      → Option (Json N)
      → Option (SettingsSnapshot N)
      → Result SettingsError (Option (Prepared N))
  with_current key value none = okay none
  with_current key value (some current) = and_then (change_of current key value) (with_next current)

  -- What happens between the read of the document and its write.
  unfoldable pub prepare :
      SettingsDocument N → Text → Option (Json N) → Result SettingsError (Option (Prepared N))
  prepare document key value =
      and_then (new_snapshot numbers documents document.revision document.value (obj end))
        (with_current key value)

  module _ {W : Type 0} (calls : Calls W N) where
    open calls use {get_document, put_document, append_audit, utc_now}

    abbrev pub after_rollback : Result StoreError (SettingsDocument N) × W → Answer W N
    after_rollback (err e, w) = (some (err compensation_failed), w)
    after_rollback (okay d, w) =
        (some (err (503, text "settings change was rolled back because audit recording failed")), w)

    abbrev pub body_of :
        Result SettingsError (SettingsSnapshot N) → Result Failure (SettingsSnapshot N)
    body_of (err e) = err (500, settings_text e)
    body_of (okay shown) = okay shown

    abbrev pub after_audit : Prepared N → Result Text (Unit {0}) × W → Answer W N
    after_audit p (err e, w) =
        after_rollback
          (put_document p.next.revision p.current.hub (text "system:audit-rollback") (utc_now w) w)
    after_audit p (okay u, w) = (some (body_of (safe numbers documents p.next)), w)

    abbrev pub after_put :
        Text → Prepared N → Result StoreError (SettingsDocument N) × W → Answer W N
    after_put actor p (err e, w) = (some (err (store_error e)), w)
    after_put actor p (okay d, w) = after_audit p (append_audit actor p.next.revision p.changes w)

    abbrev pub after_prepare :
        Text → ℤ → Result SettingsError (Option (Prepared N)) → W → Answer W N
    after_prepare actor expected (err e) w = (some (err (settings_error e)), w)
    after_prepare actor expected (okay none) w = (none, w)
    after_prepare actor expected (okay (some p)) w =
        after_put actor p (put_document expected p.next.hub actor (utc_now w) w)

    abbrev pub after_get :
        Text → Text → ℤ → Option (Json N) → Result StoreError (SettingsDocument N) × W → Answer W N
    after_get actor key expected value (err e, w) = (some (err (store_error e)), w)
    after_get actor key expected value (okay document, w) =
        if eq_ℤ document.revision expected
        then after_prepare actor expected (prepare document key value) w
        else (some (err (409, text "settings revision changed; refresh and retry")), w)

    unfoldable pub mutate : Text → Text → ℤ → Option (Json N) → W → Answer W N
    unfolding prepare
    mutate actor key expected value w = after_get actor key expected value (get_document w)
