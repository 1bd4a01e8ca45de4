-- ===== src/History/Tests.antt =====
-- Ticks against a source that always has one more record, and a target that takes everything.
use forgewire_fabric.Prelude.{ℕ, ◌+◌, ◌≡◌, refl, true, List, [], ◌∷◌, arith, Text, text}
use forgewire_fabric.Prelude.Int.{ℤ, pos, negsuc, ◌<ℤ◌}
use forgewire_fabric.Prelude.Results.{Result, okay}
use forgewire_fabric.History.{
  HistoryError, HistoryRecord, Backends, healthy, new_exporter, watermark_of, tick, export_streams,
  export_stream,
}
use forgewire_fabric.History.Accounts.{Accounts, tick-Accounts}
use forgewire_fabric.History.Coherent.{IsCoherent, tick-IsCoherent}
use forgewire_fabric.History.Progress.{IsReliable, tick_progresses}

abbrev later : ℤ → ℤ
later (pos n) = pos (n + 1)
later (negsuc n) = pos 0

later_is : (n : ℤ) → n <ℤ later n
later_is (pos n) = ground arith
later_is (negsuc n) = ground arith

abbrev record_behind : Text → ℤ → HistoryRecord (Unit {0})
record_behind stream after = record {
  stream = stream;
  sequence = later after;
  record_id = text "r";
  occurred_at_ms = pos 0;
  payload = tt;
}

-- The world counts the calls.
abbrev backends : Backends ℕ (Unit {0})
backends = record {
  streams = λ w. (okay (text "tasks" ∷ text "audit" ∷ []), w + 1);
  fetch_after = λ stream after n w. (okay (record_behind stream after ∷ []), w + 1);
  commit_watermark = λ stream mark w. (okay tt, w + 1);
  ensure_schema = λ w. (okay tt, w + 1);
  upsert = λ records w. (okay tt, w + 1);
}

reliable : IsReliable backends (text "tasks" ∷ text "audit" ∷ [])
reliable = record {
  schema = λ w. refl;
  lists = λ w. refl;
  gives = λ stream after n w. (record_behind stream after ∷ [], refl, (later_is after, tt));
  takes = λ records w. refl;
  notes = λ stream mark w. refl;
}

ticked :
    (tick backends (new_exporter true) 0).1.watermarks
    ≡ (text "audit", pos 1) ∷ (text "tasks", pos 1) ∷ []
unfolding tick export_streams export_stream
ticked = refl

always_more :
    (a : HistoryRecord (Unit {0}))
    → Path (Result HistoryError (List (HistoryRecord (Unit {0})))) (okay (a ∷ [])) (okay [])
    → ⊥
always_more a h = cc

tick_progresses_example :
    ((tick backends (new_exporter true) 0).0.health ≡ healthy)
    × (watermark_of (text "tasks") []
        <ℤ watermark_of (text "tasks") (tick backends (new_exporter true) 0).1.watermarks)
tick_progresses_example =
    tick_progresses backends (text "tasks" ∷ text "audit" ∷ []) (new_exporter true) 0 (text "tasks")
      reliable refl refl (λ w. always_more (record_behind (text "tasks") (pos 0)))

tick-Accounts_example :
    Accounts backends (new_exporter true) (tick backends (new_exporter true) 0).1
tick-Accounts_example = tick-Accounts backends (new_exporter true) 0

tick-IsCoherent_example :
    IsCoherent (tick backends (new_exporter true) 0).0 (tick backends (new_exporter true) 0).1
tick-IsCoherent_example = tick-IsCoherent backends (new_exporter true) 0
