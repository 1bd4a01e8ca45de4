-- ===== src/History/Coherent.antt =====
-- crates/fabric-history/src/lib.rs: what the status of a tick says.
use forgewire_fabric.Prelude.{
  ℕ, ◌≡◌, refl, Bool, true, false, none, some, List, [], ◌∷◌, Text, if◌then◌else◌,
}
use forgewire_fabric.Prelude.Int.{ℤ}
use forgewire_fabric.Prelude.Results.{Result, err, okay}
use forgewire_fabric.History.{
  HistoryError, HistoryRecord, Backends, ExportHealth, disabled, healthy, degraded, ExportStatus,
  HistoryExporter, watermark_of, Round, stopped, went, status, Ticked, resume, export_stream,
  export_streams, tick, fetched, upserted, committed, with_schema, listed,
}

-- What a status says of itself: only a failure has an error and a time to retry after.
abbrev pub ReadsAs : ExportHealth → ExportStatus → HistoryExporter → Type 0
ReadsAs degraded s x = (s.retry_after_ms ≡ some x.retry_ms) × ((e : Text) × (s.last_error ≡ some e))
ReadsAs healthy s x = (s.retry_after_ms ≡ none) × (s.last_error ≡ none)
ReadsAs disabled s x =
    (s.retry_after_ms ≡ none) × (s.last_error ≡ none) × (s.exported ≡ 0) × (x.has_target ≡ false)

abbrev pub IsCoherent : ExportStatus → HistoryExporter → Type 0
IsCoherent s x = ReadsAs s.health s x × (s.watermarks ≡ x.watermarks)

module _ {W P : Type 0} (backends : Backends W P) where
  abbrev Coheres : Ticked W → Type 0
  Coheres t = IsCoherent t.0 t.1

  abbrev RoundCoheres : Round W → Type 0
  RoundCoheres (stopped s x w) = IsCoherent s x
  RoundCoheres (went x n w) = Unit

  failed : (x : HistoryExporter) (n : ℕ) (e : Text) → IsCoherent (status x degraded n (some e)) x
  failed x n e = ((refl, (e, refl)), refl)

  round :
      (x : HistoryExporter) (n : ℕ) (stream : Text)
      (r : Result HistoryError (List (HistoryRecord P)) × W)
      → RoundCoheres (fetched backends x n stream r)
  round x n stream (err e, w) = failed x n _
  round x n stream (okay [], w) = tt
  round x n stream (okay (r ∷ rs), w) = stored (backends.upsert (r ∷ rs) w)
    where
      noted :
          (mark : ℤ) (count : ℕ) (q : Result HistoryError (Unit {0}) × W)
          → RoundCoheres (committed backends x n stream mark count q)
      noted mark count (err e, w) = failed x n _
      noted mark count (okay u, w) = tt

      stored :
          (q : Result HistoryError (Unit {0}) × W)
          → RoundCoheres (upserted backends x n stream (r ∷ rs) q)
      stored (err e, w) = failed x n _
      stored (okay u, w) = noted _ _ (backends.commit_watermark stream _ w)

  resumed :
      (r : Round W) (more : HistoryExporter → ℕ → W → Ticked W)
      → RoundCoheres r
      → ((x : HistoryExporter) (n : ℕ) (w : W) → Coheres (more x n w))
      → Coheres (resume r more)
  resumed (stopped s x w) more h k = h
  resumed (went x n w) more h k = k x n w

  rounds :
      (names : List Text) (x : HistoryExporter) (n : ℕ) (w : W)
      → Coheres (export_streams backends x n names w)
  unfolding export_streams export_stream
  rounds [] x n w = ((refl, refl), refl)
  rounds (stream ∷ rest) x n w =
      resumed (export_stream backends x n stream w)
        (λ x' n' w'. export_streams backends x' n' rest w')
        (round x n stream
          (backends.fetch_after stream (watermark_of stream x.watermarks) x.batch w))
        (rounds rest)

  -- The status of a tick agrees with itself and with the exporter behind it: if it is degraded, it
  -- has an error and the time of the exporter to retry after; if it is healthy or disabled, it has
  -- neither; disabled it is only without a target, with nothing exported; and its watermarks are
  -- those of the exporter.
  pub tick-IsCoherent :
      (x : HistoryExporter) (w : W) → IsCoherent (tick backends x w).0 (tick backends x w).1
  unfolding tick
  tick-IsCoherent x w = by_target x.has_target refl
    where
      list : (r : Result HistoryError (List Text) × W) → Coheres (listed backends x r)
      list (err e, w) = failed x 0 _
      list (okay names, w) = rounds names x 0 w

      schema : (r : Result HistoryError (Unit {0}) × W) → Coheres (with_schema backends x r)
      schema (err e, w) = failed x 0 _
      schema (okay u, w) = list (backends.streams w)

      by_target :
          (b : Bool)
          → x.has_target ≡ b
          → Coheres (
              if b
              then with_schema backends x (backends.ensure_schema w)
              else (status x disabled 0 none, x, w))
      by_target true e = schema (backends.ensure_schema w)
      by_target false e = ((refl, refl, refl, e), refl)
