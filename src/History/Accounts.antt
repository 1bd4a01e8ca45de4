-- ===== src/History/Accounts.antt =====
-- crates/fabric-history/src/lib.rs: why a watermark has moved.
use mathlib.Core.Path.{subst}
use forgewire_fabric.Prelude.{
  ℕ, ◌≡◌, refl, ap, ◌∙◌, ◌⊎◌, inl, inr, true, false, Option, some, List, [], ◌∷◌, Text, length,
  text_eq, text_eq_sound, Bool-cases, if◌then◌else◌,
}
use forgewire_fabric.Prelude.Int.{ℤ, pos}
use forgewire_fabric.Prelude.Results.{Result, err, okay}
use forgewire_fabric.Prelude.TextMaps.{get, insert, get-insert}
use forgewire_fabric.History.{
  HistoryError, HistoryRecord, Backends, HistoryExporter, or_else, watermark_of, max_ℤ,
  last_sequence, export_stream, tick, fetched, upserted, committed,
}
use forgewire_fabric.History.Monotone.{exporter_of, over_tick}

module _ {W P : Type 0} (backends : Backends W P) where
  open backends use {fetch_after, commit_watermark, upsert}

  -- A round of a stream at a watermark: the source gives out records behind it, then the target
  -- takes them, then their last sequence is committed to the source, each call in the world that the
  -- call before leaves.
  pub record IsExported (stream : Text) (batch : ℕ) (after mark : ℤ) : Type 0 where
    pub records : List (HistoryRecord P)
    pub asked : W
    pub took : W
    pub knew : W
    pub given : fetch_after stream after batch asked ≡ (okay records, took)
    pub taken : upsert records took ≡ (okay tt, knew)
    pub noted : (commit_watermark stream (last_sequence after records) knew).0 ≡ okay tt
    pub written : mark ≡ max_ℤ (last_sequence after records) after

  -- A chain of rounds from one watermark to another, of which 0 stands for none.
  pub data Advances (stream : Text) (batch : ℕ) (start : Option ℤ) : Option ℤ → Type 0 where
    stays : Advances stream batch start start
    exports :
        {m : Option ℤ} {mark : ℤ}
        → Advances stream batch start m
        → IsExported stream batch (or_else (pos 0) m) mark
        → Advances stream batch start (some mark)

  join_rounds :
      {stream : Text} {batch : ℕ} {a b c : Option ℤ}
      → Advances stream batch a b
      → Advances stream batch b c
      → Advances stream batch a c
  join_rounds h stays = h
  join_rounds h (exports k e) = exports (join_rounds h k) e

  abbrev pub Accounts : HistoryExporter → HistoryExporter → Type 0
  Accounts x y =
      (y.batch ≡ x.batch)
      × ((stream : Text)
          → Advances stream x.batch (get stream x.watermarks) (get stream y.watermarks))

  same-Accounts : (x : HistoryExporter) → Accounts x x
  same-Accounts x = (refl, λ k. stays)

  Accounts-trans : (x y z : HistoryExporter) → Accounts x y → Accounts y z → Accounts x z
  Accounts-trans x y z h k = (
    k.0 ∙ h.0,
    λ stream. join_rounds (h.1 stream) (
        subst (λ b. Advances stream b (get stream y.watermarks) (get stream z.watermarks)) h.0
          (k.1 stream)),
  )

  insert-Accounts :
      (x : HistoryExporter) (stream : Text) (mark : ℤ)
      → IsExported stream x.batch (watermark_of stream x.watermarks) mark
      → Accounts x (record x { watermarks = insert stream mark x.watermarks })
  insert-Accounts x stream mark e = (
    refl,
    λ k. rw (get-insert stream k mark x.watermarks) (by_key k (Bool-cases (text_eq stream k))),
  )
    where
      by_key :
          (k : Text)
          → (text_eq stream k ≡ true) ⊎ (text_eq stream k ≡ false)
          → Advances k x.batch
              (get k x.watermarks)
              (if text_eq stream k then some mark else get k x.watermarks)
      by_key k (inl h) = rw h (
          exports stays (
            subst (λ j. IsExported j x.batch (watermark_of j x.watermarks) mark)
              (text_eq_sound stream k h) e))
      by_key k (inr h) = rw h stays

  module _ (x : HistoryExporter) (n : ℕ) (stream : Text) where
    abbrev after : ℤ
    after = watermark_of stream x.watermarks

    committed-Accounts :
        (records : List (HistoryRecord P)) (asked took knew : W)
        (r : Result HistoryError (Unit {0}) × W)
        → fetch_after stream after x.batch asked ≡ (okay records, took)
        → upsert records took ≡ (okay tt, knew)
        → commit_watermark stream (last_sequence after records) knew ≡ r
        → Accounts x (
            exporter_of (
              committed backends x n stream
                (max_ℤ (last_sequence after records) after)
                (length records)
                r))
    committed-Accounts records asked took knew (err e, w) g t h = same-Accounts x
    committed-Accounts records asked took knew (okay u, w) g t h =
        insert-Accounts x stream (max_ℤ (last_sequence after records) after) (record {
          records = records;
          asked = asked;
          took = took;
          knew = knew;
          given = g;
          taken = t;
          noted = ap (λ r. r.0) h;
          written = refl;
        })

    upserted-Accounts :
        (records : List (HistoryRecord P)) (asked took : W) (r : Result HistoryError (Unit {0}) × W)
        → fetch_after stream after x.batch asked ≡ (okay records, took)
        → upsert records took ≡ r
        → Accounts x (exporter_of (upserted backends x n stream records r))
    upserted-Accounts records asked took (err e, w) g t = same-Accounts x
    upserted-Accounts records asked took (okay u, w) g t =
        committed-Accounts records asked took w _ g t refl

    fetched-Accounts :
        (asked : W) (r : Result HistoryError (List (HistoryRecord P)) × W)
        → fetch_after stream after x.batch asked ≡ r
        → Accounts x (exporter_of (fetched backends x n stream r))
    fetched-Accounts asked (err e, w) g = same-Accounts x
    fetched-Accounts asked (okay [], w) g = same-Accounts x
    fetched-Accounts asked (okay (r ∷ rs), w) g = upserted-Accounts (r ∷ rs) asked w _ g refl

    export_stream-Accounts :
        (w : W) → Accounts x (exporter_of (export_stream backends x n stream w))
    unfolding export_stream
    export_stream-Accounts w = fetched-Accounts w _ refl

  -- A tick keeps the batch size, and moves every watermark by a chain of rounds, perhaps of none, of
  -- which each begins at the watermark before it, or at 0 where there was none. In a round the source
  -- gives out a batch of records behind that watermark, then the target takes them, then their last
  -- sequence is committed to the source; the new watermark is the larger of this sequence and the
  -- watermark before.
  pub tick-Accounts : (x : HistoryExporter) (w : W) → Accounts x (tick backends x w).1
  tick-Accounts = over_tick backends Accounts same-Accounts Accounts-trans export_stream-Accounts
