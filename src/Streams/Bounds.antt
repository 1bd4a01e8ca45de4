-- ===== src/Streams/Bounds.antt =====
-- How much a buffer holds, and when it is written out.
use forgewire_fabric.Prelude.{
  ℕ, ◌<◌, ◌≡◌, ◌||◌, none, some, List, [], ◌∷◌, ◌++◌, arith, Text, length, leb, if◌then◌else◌,
}
use forgewire_fabric.Prelude.Maps.{lookup-insert, lookup-remove}
use forgewire_fabric.Streams.{
  DurabilityProfile, strict, balanced, throughput, PendingEntry, StreamBuffer, pending_of,
  drain_if_full, push, push_bulk, flush_task, forget_buffer, flush_threshold, cap,
}
use forgewire_fabric.Streams.Buffer.{
  BufferOp, push_op, push_bulk_op, flush_op, forget_op, after, run,
}

-- Every queue is shorter than the threshold of the profile.
pub record IsBounded (b : StreamBuffer) : Type 0 where
  pub below : (t : ℕ) → length (pending_of t b) < flush_threshold b.profile

threshold-le-cap :
    (p : DurabilityProfile) (n : ℕ)
    → (leb (flush_threshold p) n || leb (cap p) n) ≡ leb (flush_threshold p) n
threshold-le-cap strict n = ground arith
threshold-le-cap balanced n = ground arith
threshold-le-cap throughput n = ground arith

threshold_pos : (p : DurabilityProfile) → 0 < flush_threshold p
threshold_pos strict = omega arith
threshold_pos balanced = omega arith
threshold_pos throughput = omega arith

drain_flushes :
    (t : ℕ) (q : List PendingEntry) (b : StreamBuffer)
    → (drain_if_full t q b).0
      ≡ (if leb (flush_threshold b.profile) (length q) then some q else none)
unfolding drain_if_full
drain_flushes t q b = ground (arith, threshold-le-cap b.profile (length q))

-- `push` gives the whole queue to the store exactly when the new line reaches the flush threshold:
-- for no profile does the test on the cap decide anything.
pub push_flushes_at_threshold :
    (t : ℕ) (worker channel line ts : Text) (b : StreamBuffer)
    → let entry : PendingEntry = record {
      task_id = t;
      worker_id = worker;
      channel = channel;
      line = line;
      ts = ts;
    } in
      let q = pending_of t b ++ entry ∷ [] in
      (push t worker channel line ts b).0
      ≡ (if leb (flush_threshold b.profile) (length q) then some q else none)
unfolding push
push_flushes_at_threshold t worker channel line ts b = drain_flushes t _ b

drain-IsBounded :
    (u : ℕ) (q : List PendingEntry) (b : StreamBuffer)
    → IsBounded b
    → IsBounded (drain_if_full u q b).1
unfolding drain_if_full
drain-IsBounded u q b h = record {
  below = λ t. ground (
    arith,
    h.below t,
    threshold_pos b.profile,
    lookup-insert u t [] b.pending,
    lookup-insert u t q b.pending,
  );
}

after-IsBounded : (op : BufferOp) (b : StreamBuffer) → IsBounded b → IsBounded (after op b)
after-IsBounded (push_op u worker channel line ts) b h = unfold push in drain-IsBounded u _ b h
after-IsBounded (push_bulk_op u []) b h = unfold push_bulk in h
after-IsBounded (push_bulk_op u (x ∷ xs)) b h = unfold push_bulk in drain-IsBounded u _ b h
after-IsBounded (flush_op u) b h = record {
  below = λ t.
      unfold flush_task in
      ground (arith, h.below t, threshold_pos b.profile, lookup-insert u t [] b.pending);
}
after-IsBounded (forget_op u) b h = record {
  below = λ t.
      unfold forget_buffer in
      ground (arith, h.below t, threshold_pos b.profile, lookup-remove u t b.pending);
}

-- From a buffer in which each queue is shorter than the flush threshold, every sequence of operations leads to such a
-- buffer, so a task never has as many lines pending as its profile flushes after.
pub run-IsBounded : (ops : List BufferOp) (b : StreamBuffer) → IsBounded b → IsBounded (run ops b)
unfolding run
run-IsBounded [] b h = h
run-IsBounded (op ∷ ops) b h = run-IsBounded ops (after op b) (after-IsBounded op b h)
