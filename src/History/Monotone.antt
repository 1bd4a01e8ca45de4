-- ===== src/History/Monotone.antt =====
-- crates/fabric-history/src/lib.rs: what every tick keeps, however the source and the target behave.
use mathlib.Core.Path.{subst}
use forgewire_fabric.Prelude.{
  ℕ, ◌≡◌, ◌⊎◌, inl, inr, Bool, true, false, none, some, List, [], ◌∷◌, arith, Text, length, text_eq,
  text_eq_sound, Bool-cases, if◌then◌else◌,
}
use forgewire_fabric.Prelude.Int.{ℤ, pos, leb_ℤ, ◌≤ℤ◌}
use forgewire_fabric.Prelude.Results.{Result, err, okay}
use forgewire_fabric.Prelude.TextMaps.{get, insert, get-insert}
use forgewire_fabric.History.{
  HistoryError, HistoryRecord, Backends, disabled, HistoryExporter, or_else, watermark_of, max_ℤ,
  last_sequence, Round, stopped, went, status, Ticked, resume, export_stream, export_streams, tick,
  fetched, upserted, committed, with_schema, listed,
}

abbrev pub exporter_of : {W : Type 0} → Round W → HistoryExporter
exporter_of (stopped s x w) = x
exporter_of (went x n w) = x

-- What holds of every round, and over rounds in a row, holds of a tick.
module _ {W P : Type 0} (backends : Backends W P) (R : HistoryExporter → HistoryExporter → Type 0)
    (same : (x : HistoryExporter) → R x x)
    (both : (x y z : HistoryExporter) → R x y → R y z → R x z)
    (round : (x : HistoryExporter) (n : ℕ) (stream : Text) (w : W)
      → R x (exporter_of (export_stream backends x n stream w))) where
  resumed :
      (x : HistoryExporter) (r : Round W) (more : HistoryExporter → ℕ → W → Ticked W)
      → R x (exporter_of r)
      → ((x' : HistoryExporter) (n : ℕ) (w : W) → R x' (more x' n w).1)
      → R x (resume r more).1
  resumed x (stopped s x' w) more h k = h
  resumed x (went x' n w) more h k = both x x' (more x' n w).1 h (k x' n w)

  pub over_streams :
      (x : HistoryExporter) (n : ℕ) (names : List Text) (w : W)
      → R x (export_streams backends x n names w).1
  unfolding export_streams
  over_streams x n [] w = same x
  over_streams x n (stream ∷ rest) w =
      resumed x (export_stream backends x n stream w)
        (λ x' n' w'. export_streams backends x' n' rest w') (round x n stream w)
        (λ x' n' w'. over_streams x' n' rest w')

  list :
      (x : HistoryExporter) (r : Result HistoryError (List Text) × W) → R x (listed backends x r).1
  list x (err e, w) = same x
  list x (okay names, w) = over_streams x 0 names w

  schema :
      (x : HistoryExporter) (r : Result HistoryError (Unit {0}) × W)
      → R x (with_schema backends x r).1
  schema x (err e, w) = same x
  schema x (okay u, w) = list x (backends.streams w)

  pub over_tick : (x : HistoryExporter) (w : W) → R x (tick backends x w).1
  unfolding tick
  over_tick x w = by_target x.has_target
    where
      by_target :
          (b : Bool)
          → R x
              (if b
                then with_schema backends x (backends.ensure_schema w)
                else (status x disabled 0 none, x, w)).1
      by_target true = schema x (backends.ensure_schema w)
      by_target false = same x

abbrev pub Rises : HistoryExporter → HistoryExporter → Type 0
Rises x y = (k : Text) → watermark_of k x.watermarks ≤ℤ watermark_of k y.watermarks

max_right : (a b : ℤ) → b ≤ℤ max_ℤ a b
max_right a b = elim (Bool-cases (leb_ℤ a b)) [
  | inl e ↦ rw e (ground arith)
  | inr e ↦ rw e (ground arith)
]

≤ℤ-refl : (a : ℤ) → a ≤ℤ a
≤ℤ-refl a = ground arith

≤ℤ-trans : (a b c : ℤ) → a ≤ℤ b → b ≤ℤ c → a ≤ℤ c
≤ℤ-trans a b c h k = ground arith

Rises-refl : (x : HistoryExporter) → Rises x x
Rises-refl x k = ≤ℤ-refl (watermark_of k x.watermarks)

pub Rises-trans : (x y z : HistoryExporter) → Rises x y → Rises y z → Rises x z
Rises-trans x y z h h' k =
    ≤ℤ-trans (watermark_of k x.watermarks) (watermark_of k y.watermarks)
      (watermark_of k z.watermarks) (h k) (h' k)

-- Writing a mark that is not below the one there lets no mark fall.
insert-Rises :
    (x : HistoryExporter) (stream : Text) (mark : ℤ)
    → watermark_of stream x.watermarks ≤ℤ mark
    → Rises x (record x { watermarks = insert stream mark x.watermarks })
insert-Rises x stream mark h k =
    rw (get-insert stream k mark x.watermarks) (by_key (Bool-cases (text_eq stream k)))
  where
    by_key :
        (text_eq stream k ≡ true) ⊎ (text_eq stream k ≡ false)
        → watermark_of k x.watermarks
          ≤ℤ or_else (pos 0) (if text_eq stream k then some mark else get k x.watermarks)
    by_key (inl e) =
        rw e (subst (λ j. watermark_of j x.watermarks ≤ℤ mark) (text_eq_sound stream k e) h)
    by_key (inr e) = rw e (≤ℤ-refl (watermark_of k x.watermarks))

module _ {W P : Type 0} (backends : Backends W P) where
  committed-Rises :
      (x : HistoryExporter) (n : ℕ) (stream : Text) (mark : ℤ) (count : ℕ)
      (r : Result HistoryError (Unit {0}) × W)
      → watermark_of stream x.watermarks ≤ℤ mark
      → Rises x (exporter_of (committed backends x n stream mark count r))
  committed-Rises x n stream mark count (err e, w) h = Rises-refl x
  committed-Rises x n stream mark count (okay u, w) h = insert-Rises x stream mark h

  upserted-Rises :
      (x : HistoryExporter) (n : ℕ) (stream : Text) (records : List (HistoryRecord P))
      (r : Result HistoryError (Unit {0}) × W)
      → Rises x (exporter_of (upserted backends x n stream records r))
  upserted-Rises x n stream records (err e, w) = Rises-refl x
  upserted-Rises x n stream records (okay u, w) =
      let after = watermark_of stream x.watermarks in
      let watermark = last_sequence after records in
      committed-Rises x n stream (max_ℤ watermark after) (length records)
        (backends.commit_watermark stream watermark w) (max_right watermark after)

  fetched-Rises :
      (x : HistoryExporter) (n : ℕ) (stream : Text)
      (r : Result HistoryError (List (HistoryRecord P)) × W)
      → Rises x (exporter_of (fetched backends x n stream r))
  fetched-Rises x n stream (err e, w) = Rises-refl x
  fetched-Rises x n stream (okay [], w) = Rises-refl x
  fetched-Rises x n stream (okay (r ∷ rs), w) =
      upserted-Rises x n stream (r ∷ rs) (backends.upsert (r ∷ rs) w)

  pub export_stream-Rises :
      (x : HistoryExporter) (n : ℕ) (stream : Text) (w : W)
      → Rises x (exporter_of (export_stream backends x n stream w))
  unfolding export_stream
  export_stream-Rises x n stream w =
      fetched-Rises x n stream
        (backends.fetch_after stream (watermark_of stream x.watermarks) x.batch w)

  pub over_streams-Rises :
      (x : HistoryExporter) (n : ℕ) (names : List Text) (w : W)
      → Rises x (export_streams backends x n names w).1
  over_streams-Rises = over_streams backends Rises Rises-refl Rises-trans export_stream-Rises

  -- No tick lowers the watermark of any stream, whatever the source and the target answer, where a
  -- stream without a watermark counts as 0.
  pub tick-Rises : (x : HistoryExporter) (w : W) → Rises x (tick backends x w).1
  tick-Rises = over_tick backends Rises Rises-refl Rises-trans export_stream-Rises
