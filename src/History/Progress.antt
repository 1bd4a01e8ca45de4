-- ===== src/History/Progress.antt =====
-- crates/fabric-history/src/lib.rs: ticks get on with the export where the source and the target
-- answer.
use mathlib.Core.Path.{subst}
use forgewire_fabric.Prelude.{
  ℕ, ◌+◌, ◌≡◌, ◌≢◌, refl, sym, ap, ◌∙◌, inl, inr, true, false, none, some, List, [], ◌∷◌, arith,
  Text, length, text_eq, text_eq_self, text_eq_sound, All, any, Bool-cases, if◌then◌else◌,
}
use forgewire_fabric.Prelude.Int.{ℤ, pos, leb_ℤ, ◌≤ℤ◌, ◌<ℤ◌}
use forgewire_fabric.Prelude.Results.{Result, okay}
use forgewire_fabric.Prelude.TextMaps.{get, insert, get-insert}
use forgewire_fabric.History.{
  HistoryError, HistoryRecord, Backends, healthy, HistoryExporter, or_else, watermark_of, max_ℤ,
  max_from, last_sequence, disabled, status, Round, went, resume, export_stream, export_streams,
  tick, fetched, upserted, committed, with_schema, listed,
}
use forgewire_fabric.History.Monotone.{over_streams-Rises}

max_left : (a b : ℤ) → a ≤ℤ max_ℤ a b
max_left a b = elim (Bool-cases (leb_ℤ a b)) [
  | inl e ↦ rw e (ground arith)
  | inr e ↦ rw e (ground arith)
]

<≤-trans : (a b c : ℤ) → a <ℤ b → b ≤ℤ c → a <ℤ c
<≤-trans a b c h k = ground arith

max_from_above :
    {P : Type 0} (after m : ℤ) (rs : List (HistoryRecord P)) → after <ℤ m → after <ℤ max_from m rs
max_from_above after m [] h = h
max_from_above after m (r ∷ rs) h =
    max_from_above after (max_ℤ m r.sequence) rs
      (<≤-trans after m (max_ℤ m r.sequence) h (max_left m r.sequence))

-- Every call succeeds, the streams listed are those named, and records are later than asked for.
pub record IsReliable {W P : Type 0} (backends : Backends W P) (names : List Text) : Type 0 where
  pub schema : (w : W) → (backends.ensure_schema w).0 ≡ okay tt
  pub lists : (w : W) → (backends.streams w).0 ≡ okay names
  pub gives :
      (stream : Text) (after : ℤ) (n : ℕ) (w : W)
      → (records : List (HistoryRecord P)) × ((backends.fetch_after stream after n w).0
          ≡ okay records)
        × All (λ r. after <ℤ r.sequence) records
  pub takes : (records : List (HistoryRecord P)) (w : W) → (backends.upsert records w).0 ≡ okay tt
  pub notes :
      (stream : Text) (mark : ℤ) (w : W) → (backends.commit_watermark stream mark w).0 ≡ okay tt

module _ {W P : Type 0} (backends : Backends W P) (names : List Text)
    (reliable : IsReliable backends names) where
  -- The source has records of a stream behind a watermark.
  abbrev pub HasMore : Text → ℤ → ℕ → Type 0
  HasMore stream after batch = (w : W) → (backends.fetch_after stream after batch w).0 ≢ okay []

  -- A round that went well.
  record WentOn (x : HistoryExporter) (stream : Text) (r : Round W) : Type 0 where
    next : HistoryExporter
    count : ℕ
    world : W
    is : r ≡ went next count world
    batch : next.batch ≡ x.batch
    others :
        (k : Text)
        → text_eq stream k ≡ false
        → watermark_of k next.watermarks ≡ watermark_of k x.watermarks
    rises :
        HasMore stream (watermark_of stream x.watermarks) x.batch
        → watermark_of stream x.watermarks <ℤ watermark_of stream next.watermarks

  round_with :
      (x : HistoryExporter) (n : ℕ) (stream : Text) (w : W)
      (f : Result HistoryError (List (HistoryRecord P)) × W) (records : List (HistoryRecord P))
      → backends.fetch_after stream (watermark_of stream x.watermarks) x.batch w ≡ f
      → f.0 ≡ okay records
      → All (λ r. watermark_of stream x.watermarks <ℤ r.sequence) records
      → WentOn x stream (fetched backends x n stream f)
  round_with x n stream w f [] is given later = record {
    next = x;
    count = n;
    world = f.1;
    is = ap (λ o. fetched backends x n stream (o, f.1)) given;
    batch = refl;
    others = λ k h. refl;
    rises = λ more. elim (more w (ap (λ g. g.0) is ∙ given)) [ ];
  }
  round_with x n stream w f (r ∷ rs) is given later =
      let after = watermark_of stream x.watermarks in
      let mark = last_sequence after (r ∷ rs) in
      let took = backends.upsert (r ∷ rs) f.1 in
      let noted = backends.commit_watermark stream mark took.1 in
      record {
        next = record x { watermarks = insert stream (max_ℤ mark after) x.watermarks };
        count = n + length (r ∷ rs);
        world = noted.1;
        is =
            ap (λ o. fetched backends x n stream (o, f.1)) given
            ∙ (ap (λ o. upserted backends x n stream (r ∷ rs) (o, took.1))
                  (reliable.takes (r ∷ rs) f.1)
                ∙ ap
                    (λ o.
                      committed backends x n stream (max_ℤ mark after) (length (r ∷ rs))
                        (o, noted.1))
                    (reliable.notes stream mark took.1));
        batch = refl;
        others = λ k h.
            ap (or_else (pos 0)) (get-insert stream k (max_ℤ mark after) x.watermarks)
            ∙ ap (λ b. or_else (pos 0) (if b then some (max_ℤ mark after) else get k x.watermarks))
                h;
        rises = λ more.
            subst (λ m. after <ℤ m)
              (sym (
                ap (or_else (pos 0)) (get-insert stream stream (max_ℤ mark after) x.watermarks)
                ∙ ap
                    (λ b.
                      or_else (pos 0)
                        (if b then some (max_ℤ mark after) else get stream x.watermarks))
                    (text_eq_self stream)))
              (<≤-trans after mark (max_ℤ mark after) (max_from_above after r.sequence rs later.0)
                (max_left mark after));
      }

  round_WentOn :
      (x : HistoryExporter) (n : ℕ) (stream : Text) (w : W)
      → WentOn x stream (export_stream backends x n stream w)
  unfolding export_stream
  round_WentOn x n stream w =
      let (records, given, later) =
        reliable.gives stream (watermark_of stream x.watermarks) x.batch w in
      round_with x n stream w
        (backends.fetch_after stream (watermark_of stream x.watermarks) x.batch w) records refl
        given later

  -- The rest of the loop behind a round that went well.
  continued :
      (x : HistoryExporter) (n : ℕ) (stream : Text) (rest : List Text) (w : W)
      (r : WentOn x stream (export_stream backends x n stream w))
      → export_streams backends x n (stream ∷ rest) w
        ≡ export_streams backends r.next r.count rest r.world
  unfolding export_streams
  continued x n stream rest w r =
      ap (λ o. resume o (λ x' n' w'. export_streams backends x' n' rest w')) r.is

  none_left :
      (x : HistoryExporter) (n : ℕ) (w : W)
      → export_streams backends x n [] w ≡ (status x healthy n none, x, w)
  unfolding export_streams
  none_left x n w = refl

  ends_healthy :
      (todo : List Text) (x : HistoryExporter) (n : ℕ) (w : W)
      → (export_streams backends x n todo w).0.health ≡ healthy
  ends_healthy [] x n w = ap (λ t. t.0.health) (none_left x n w)
  ends_healthy (stream ∷ rest) x n w =
      let r = round_WentOn x n stream w in
      ap (λ t. t.0.health) (continued x n stream rest w r)
      ∙ ends_healthy rest r.next r.count r.world

  rises_in :
      (k : Text) (todo : List Text) (x : HistoryExporter) (n : ℕ) (w : W)
      → any (λ s. text_eq s k) todo ≡ true
      → HasMore k (watermark_of k x.watermarks) x.batch
      → watermark_of k x.watermarks
        <ℤ watermark_of k (export_streams backends x n todo w).1.watermarks
  rises_in k [] x n w m more = cc
  rises_in k (stream ∷ rest) x n w m more =
      let r = round_WentOn x n stream w in
      subst (λ t. watermark_of k x.watermarks <ℤ watermark_of k t.1.watermarks)
        (sym (continued x n stream rest w r))
        (elim (Bool-cases (text_eq stream k)) [
          | inl e ↦
              let same = text_eq_sound stream k e in
              <≤-trans (watermark_of k x.watermarks) (watermark_of k r.next.watermarks)
                (watermark_of k (export_streams backends r.next r.count rest r.world).1.watermarks)
                (subst (λ j. watermark_of j x.watermarks <ℤ watermark_of j r.next.watermarks) same
                  (r.rises
                    (subst (λ j. HasMore j (watermark_of j x.watermarks) x.batch) (sym same) more)))
                (over_streams-Rises backends r.next r.count rest r.world k)
          | inr e ↦
              let kept = r.others k e in
              subst
                (λ m.
                  m
                  <ℤ watermark_of k
                      (export_streams backends r.next r.count rest r.world).1.watermarks)
                kept
                (rises_in k rest r.next r.count r.world (ground arith) (
                  subst (λ m. HasMore k m r.next.batch) (sym kept)
                    (subst (λ b. HasMore k (watermark_of k x.watermarks) b) (sym r.batch) more)))
        ])

  reliable_tick :
      (x : HistoryExporter) (w : W)
      → x.has_target ≡ true
      → tick backends x w
        ≡ export_streams backends x 0 names (backends.streams (backends.ensure_schema w).1).1
  unfolding tick
  reliable_tick x w target =
      let prepared = backends.ensure_schema w in
      let named = backends.streams prepared.1 in
      ap (λ b. if b then with_schema backends x prepared else (status x disabled 0 none, x, w))
        target
      ∙ (ap (λ o. with_schema backends x (o, prepared.1)) (reliable.schema w)
          ∙ ap (λ o. listed backends x (o, named.1)) (reliable.lists prepared.1))

-- Where the source and the target are reliable, a tick of an exporter with a target is healthy, and
-- it raises the watermark of every listed stream of which the source has more records.
pub tick_progresses :
    {W P : Type 0} (backends : Backends W P) (names : List Text) (x : HistoryExporter) (w : W)
    (k : Text)
    → IsReliable backends names
    → x.has_target ≡ true
    → any (λ s. text_eq s k) names ≡ true
    → ((v : W) → (backends.fetch_after k (watermark_of k x.watermarks) x.batch v).0 ≢ okay [])
    → ((tick backends x w).0.health ≡ healthy)
      × (watermark_of k x.watermarks <ℤ watermark_of k (tick backends x w).1.watermarks)
tick_progresses backends names x w k reliable target listed_k more =
    let ran = reliable_tick backends names reliable x w target in
    let begun = (backends.streams (backends.ensure_schema w).1).1 in
    (
      ap (λ t. t.0.health) ran ∙ ends_healthy backends names reliable names x 0 begun,
      subst (λ t. watermark_of k x.watermarks <ℤ watermark_of k t.1.watermarks) (sym ran)
          (rises_in backends names reliable k names x 0 begun listed_k more),
    )
