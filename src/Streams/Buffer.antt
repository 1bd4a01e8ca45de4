-- ===== src/Streams/Buffer.antt =====
-- The write buffer refines a log: no line of a task is lost, doubled or moved.
use mathlib.Core.List.{append-nil, append_assoc}
use forgewire_fabric.Prelude.{
  ℕ, ◌≡◌, ◌≢◌, refl, ap, sym, ◌∙◌, inl, inr, false, List, [], ◌∷◌, ◌++◌, ◌||◌, arith, Text, length,
  leb, ◌==◌, ==_self, if◌then◌else◌, Bool-cases, Option-cases,
}
use forgewire_fabric.Prelude.Maps.{lookup, lookup-insert, lookup-remove}
use forgewire_fabric.Streams.{
  PendingEntry, StreamBuffer, or_default, pending_of, drain_if_full, push, push_bulk, flush_task,
  forget_buffer, flush_threshold, cap,
}

pub data BufferOp : Type 0 where
  push_op : ℕ → Text → Text → Text → Text → BufferOp
  push_bulk_op : ℕ → List PendingEntry → BufferOp
  flush_op : ℕ → BufferOp
  forget_op : ℕ → BufferOp

abbrev pub after : BufferOp → StreamBuffer → StreamBuffer
after (push_op u worker channel line ts) b = (push u worker channel line ts b).1
after (push_bulk_op u entries) b = (push_bulk u entries b).1
after (flush_op u) b = (flush_task u b).1
after (forget_op u) b = forget_buffer u b

-- The batch of task `t` that the operation gives to the store.
abbrev pub batch : ℕ → BufferOp → StreamBuffer → List PendingEntry
batch t (push_op u worker channel line ts) b =
    if u == t then or_default (push u worker channel line ts b).0 else []
batch t (push_bulk_op u entries) b = if u == t then or_default (push_bulk u entries b).0 else []
batch t (flush_op u) b = if u == t then (flush_task u b).0 else []
batch t (forget_op u) b = []

-- The lines of task `t` that the operation brings in.
abbrev pub given : ℕ → BufferOp → List PendingEntry
given t (push_op u worker channel line ts) =
    if u == t
    then record { task_id = u; worker_id = worker; channel = channel; line = line; ts = ts } ∷ []
    else []
given t (push_bulk_op u entries) = if u == t then entries else []
given t (flush_op u) = []
given t (forget_op u) = []

unfoldable pub run : List BufferOp → StreamBuffer → StreamBuffer
run [] b = b
run (op ∷ ops) b = run ops (after op b)

pub stored : ℕ → List BufferOp → StreamBuffer → List PendingEntry
stored t [] b = []
stored t (op ∷ ops) b = batch t op b ++ stored t ops (after op b)

pub pushed : ℕ → List BufferOp → List PendingEntry
pushed t [] = []
pushed t (op ∷ ops) = given t op ++ pushed t ops

abbrev pub Keeps : ℕ → BufferOp → Type 0
Keeps t (forget_op u) = u ≢ t
Keeps t _ = Unit

abbrev pub NeverForgets : ℕ → List BufferOp → Type 0
NeverForgets t [] = Unit
NeverForgets t (op ∷ ops) = Keeps t op × NeverForgets t ops

drain_self :
    (t : ℕ) (q : List PendingEntry) (b : StreamBuffer)
    → or_default (drain_if_full t q b).0 ++ pending_of t (drain_if_full t q b).1 ≡ q
unfolding drain_if_full
drain_self t q b =
    elim (Bool-cases
      (leb (flush_threshold b.profile) (length q) || leb (cap b.profile) (length q))) [
        | inl full ↦ rw full (rw (lookup-insert, ==_self) (append-nil q))
        | inr room ↦ rw room (rw (lookup-insert, ==_self) refl)
      ]

drain_other :
    (t u : ℕ) (q : List PendingEntry) (b : StreamBuffer)
    → (u == t) ≡ false
    → pending_of t (drain_if_full u q b).1 ≡ pending_of t b
unfolding drain_if_full
drain_other t u q b h =
    ground (arith, lookup-insert u t q b.pending, lookup-insert u t [] b.pending)

flush_self :
    (t : ℕ) (b : StreamBuffer)
    → (flush_task t b).0 ++ pending_of t (flush_task t b).1 ≡ pending_of t b ++ []
unfolding flush_task
flush_self t b = elim (Option-cases (lookup t b.pending)) [
  | inl missing ↦ ground arith
  | inr (q, found) ↦ ground (arith, lookup-insert t t [] b.pending)
]

flush_other :
    (t u : ℕ) (b : StreamBuffer)
    → (u == t) ≡ false
    → pending_of t (flush_task u b).1 ≡ pending_of t b
unfolding flush_task
flush_other t u b h = elim (Option-cases (lookup u b.pending)) [
  | inl missing ↦ ground arith
  | inr (q, found) ↦ ground (arith, lookup-insert u t [] b.pending)
]

-- One operation: what it gives to the store and what it leaves pending is what was pending and
-- what it brought in.
step_balance :
    (t : ℕ) (op : BufferOp) (b : StreamBuffer)
    → Keeps t op
    → batch t op b ++ pending_of t (after op b) ≡ pending_of t b ++ given t op
step_balance t (push_op u worker channel line ts) b k = elim (Bool-cases (u == t)) [
  | inl same ↦ let e : u ≡ t = ground arith in rw (e, ==_self) (unfold push in drain_self t _ b)
  | inr other ↦ rw other (unfold push in drain_other t u _ b other ∙ sym (append-nil _))
]
step_balance t (push_bulk_op u []) b k = elim (Bool-cases (u == t)) [
  | inl same ↦ rw same (unfold push_bulk in sym (append-nil _))
  | inr other ↦ rw other (unfold push_bulk in sym (append-nil _))
]
step_balance t (push_bulk_op u (x ∷ xs)) b k = elim (Bool-cases (u == t)) [
  | inl same ↦
      let e : u ≡ t = ground arith in rw (e, ==_self) (unfold push_bulk in drain_self t _ b)
  | inr other ↦ rw other (unfold push_bulk in drain_other t u _ b other ∙ sym (append-nil _))
]
step_balance t (flush_op u) b k = elim (Bool-cases (u == t)) [
  | inl same ↦ let e : u ≡ t = ground arith in rw (e, ==_self) (flush_self t b)
  | inr other ↦ rw other (flush_other t u b other ∙ sym (append-nil _))
]
step_balance t (forget_op u) b k =
    unfold forget_buffer in ground (arith, lookup-remove u t b.pending, append-nil (pending_of t b))

-- For every task that is never forgotten, the lines that its batches gave to the store, in order, and then the
-- lines still pending are exactly the lines that were pending at first and then the lines that
-- were pushed, in order, whatever is done for other tasks in between.
pub stored-append-pending :
    (t : ℕ) (ops : List BufferOp) (b : StreamBuffer)
    → NeverForgets t ops
    → stored t ops b ++ pending_of t (run ops b) ≡ pending_of t b ++ pushed t ops
unfolding stored run pushed
stored-append-pending t [] b h = sym (append-nil _)
stored-append-pending t (op ∷ ops) b h =
    let mine = batch t op b in
    let rest = pending_of t (run ops (after op b)) in
    append_assoc mine (stored t ops (after op b)) rest
    ∙ ap (λ l. mine ++ l) (stored-append-pending t ops (after op b) h.1)
    ∙ sym (append_assoc mine (pending_of t (after op b)) (pushed t ops))
    ∙ ap (λ l. l ++ pushed t ops) (step_balance t op b h.0)
    ∙ append_assoc (pending_of t b) (given t op) (pushed t ops)
