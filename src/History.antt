-- ===== src/History.antt =====
-- crates/fabric-history/src/lib.rs: the export of history records to a second database. The source
-- and the target of records are interfaces, whose calls pass on the state of the world they act in.
pub mod Monotone
pub mod Accounts
pub mod Coherent
pub mod Progress
mod Tests
use Prim.Native.String.{String}
use forgewire_fabric.Prelude.{
  ℕ, ◌+◌, Bool, true, false, Option, none, some, List, [], ◌∷◌, ◌++◌, Text, text, length, is_empty,
  if◌then◌else◌,
}
use forgewire_fabric.Prelude.Int.{ℤ, pos, leb_ℤ}
use forgewire_fabric.Prelude.Results.{Result, err, okay}
use forgewire_fabric.Prelude.TextMaps.{TextMap, get, insert}

pub data HistoryMode : Type 0 where
  thin : HistoryMode
  external : HistoryMode
  fabric_managed : HistoryMode

pub data HistoryError : Type 0 where
  configuration : Text → HistoryError
  source : Text → HistoryError
  target : Text → HistoryError

-- `error.to_string()`
abbrev pub error_text : HistoryError → Text
error_text (configuration e) = text "configuration: " ++ e
error_text (source e) = text "source: " ++ e
error_text (target e) = text "target: " ++ e

pub record HistoryConfig : Type 0 where
  pub mode : HistoryMode
  pub dsn : Option Text
  pub autodetect : Bool
  pub provision : Bool

abbrev is_some {ℓ} : {A : Type ℓ} → Option A → Bool
is_some none = false
is_some (some a) = true

abbrev validate_mode : HistoryMode → Option Text → Bool → Result HistoryError (Unit {0})
validate_mode thin dsn provision =
    if is_some dsn then err (configuration (text "thin mode must not use a DSN")) else okay tt
validate_mode external dsn provision =
    if is_some dsn
    then okay tt
    else err (configuration (text "external mode requires an operator DSN"))
validate_mode fabric_managed dsn provision =
    if provision
    then okay tt
    else err (configuration (text "fabric-managed mode requires explicit provision=true"))

unfoldable pub validate : HistoryConfig → Result HistoryError (Unit {0})
validate config = validate_mode config.mode config.dsn config.provision

-- The part of a record that the exporter reads; the rest of it goes to the target.
pub record HistoryRecord (P : Type 0) : Type 0 where
  pub stream : Text
  pub sequence : ℤ
  pub record_id : Text
  pub occurred_at_ms : ℤ
  pub payload : P

-- A call to the outside: its result and the world behind it.
abbrev pub Call : Type 0 → Type 0 → Type 0
Call W A = W → Result HistoryError A × W

-- `ExportSource` and `HistoryTarget`
pub record Backends (W P : Type 0) : Type 0 where
  pub streams : Call W (List Text)
  pub fetch_after : Text → ℤ → ℕ → Call W (List (HistoryRecord P))
  pub commit_watermark : Text → ℤ → Call W (Unit {0})
  pub ensure_schema : Call W (Unit {0})
  pub upsert : List (HistoryRecord P) → Call W (Unit {0})

pub data ExportHealth : Type 0 where
  disabled : ExportHealth
  healthy : ExportHealth
  degraded : ExportHealth

pub record ExportStatus : Type 0 where
  pub health : ExportHealth
  pub exported : ℕ
  pub watermarks : TextMap ℤ
  pub retry_after_ms : Option ℕ
  pub last_error : Option Text

-- The exporter without its source; whether it has a target.
pub record HistoryExporter : Type 0 where
  pub has_target : Bool
  pub watermarks : TextMap ℤ
  pub batch : ℕ
  pub retry_ms : ℕ

abbrev pub new_exporter : Bool → HistoryExporter
new_exporter has_target = record {
  has_target = has_target;
  watermarks = [];
  batch = 500;
  retry_ms = 30000;
}

abbrev retry_for : ExportHealth → ℕ → Option ℕ
retry_for degraded ms = some ms
retry_for healthy ms = none
retry_for disabled ms = none

abbrev pub status : HistoryExporter → ExportHealth → ℕ → Option Text → ExportStatus
status x health exported error = record {
  health = health;
  exported = exported;
  watermarks = x.watermarks;
  retry_after_ms = retry_for health x.retry_ms;
  last_error = error;
}

abbrev pub or_else : ℤ → Option ℤ → ℤ
or_else d none = d
or_else d (some n) = n

-- `*self.watermarks.get(&stream).unwrap_or(&0)`
abbrev pub watermark_of : Text → TextMap ℤ → ℤ
watermark_of stream marks = or_else (pos 0) (get stream marks)

abbrev pub max_ℤ : ℤ → ℤ → ℤ
max_ℤ a b = if leb_ℤ a b then b else a

-- `records.iter().map(|r| r.sequence).max().unwrap_or(after)`, behind the largest one so far
abbrev pub max_from : {P : Type 0} → ℤ → List (HistoryRecord P) → ℤ
max_from m [] = m
max_from m (r ∷ rs) = max_from (max_ℤ m r.sequence) rs

abbrev pub last_sequence : {P : Type 0} → ℤ → List (HistoryRecord P) → ℤ
last_sequence after [] = after
last_sequence after (r ∷ rs) = max_from r.sequence rs

-- One round of the loop over the streams: a status to return, or the state to go on with.
pub data Round (W : Type 0) : Type 0 where
  stopped : ExportStatus → HistoryExporter → W → Round W
  went : HistoryExporter → ℕ → W → Round W

-- What a tick returns: its status, the exporter and the world.
abbrev pub Ticked : Type 0 → Type 0
Ticked W = ExportStatus × HistoryExporter × W

abbrev pub resume : {W : Type 0} → Round W → (HistoryExporter → ℕ → W → Ticked W) → Ticked W
resume (stopped s x w) more = (s, x, w)
resume (went x exported w) more = more x exported w

module _ {W P : Type 0} (backends : Backends W P) where
  open backends use {streams, fetch_after, commit_watermark, ensure_schema, upsert}

  -- After the commit, after the upsert, and after the fetch.
  abbrev pub committed :
      HistoryExporter → ℕ → Text → ℤ → ℕ → Result HistoryError (Unit {0}) × W → Round W
  committed x exported stream mark count (err e, w) =
      stopped (status x degraded exported (some (text "source watermark commit failed"))) x w
  committed x exported stream mark count (okay u, w) =
      went (record x { watermarks = insert stream mark x.watermarks }) (exported + count) w

  abbrev pub upserted :
      HistoryExporter
      → ℕ
      → Text
      → List (HistoryRecord P)
      → Result HistoryError (Unit {0}) × W
      → Round W
  upserted x exported stream records (err e, w) =
      stopped (status x degraded exported (some (error_text e))) x w
  upserted x exported stream records (okay u, w) =
      let after = watermark_of stream x.watermarks in
      let watermark = last_sequence after records in
      committed x exported stream (max_ℤ watermark after) (length records)
        (commit_watermark stream watermark w)

  abbrev pub fetched :
      HistoryExporter → ℕ → Text → Result HistoryError (List (HistoryRecord P)) × W → Round W
  fetched x exported stream (err e, w) =
      stopped (status x degraded exported (some (error_text e))) x w
  fetched x exported stream (okay [], w) = went x exported w
  fetched x exported stream (okay (r ∷ rs), w) =
      upserted x exported stream (r ∷ rs) (upsert (r ∷ rs) w)

  unfoldable pub export_stream : HistoryExporter → ℕ → Text → W → Round W
  export_stream x exported stream w =
      fetched x exported stream (fetch_after stream (watermark_of stream x.watermarks) x.batch w)

  unfoldable pub export_streams : HistoryExporter → ℕ → List Text → W → Ticked W
  export_streams x exported [] w = (status x healthy exported none, x, w)
  export_streams x exported (stream ∷ rest) w =
      resume (export_stream x exported stream w)
        (λ x' exported' w'. export_streams x' exported' rest w')

  abbrev pub listed : HistoryExporter → Result HistoryError (List Text) × W → Ticked W
  listed x (err e, w) = (status x degraded 0 (some (error_text e)), x, w)
  listed x (okay names, w) = export_streams x 0 names w

  abbrev pub with_schema : HistoryExporter → Result HistoryError (Unit {0}) × W → Ticked W
  with_schema x (err e, w) = (status x degraded 0 (some (error_text e)), x, w)
  with_schema x (okay u, w) = listed x (streams w)

  unfoldable pub tick : HistoryExporter → W → Ticked W
  tick x w =
      if x.has_target then with_schema x (ensure_schema w) else (status x disabled 0 none, x, w)
