-- ===== src/Streams.antt =====
-- crates/fabric-streams/src/lib.rs: sequence numbers and write buffers of task streams. Each method
-- holds one mutex from end to end, so threads interleave as sequences of whole operations.
pub mod Counter
pub mod Buffer
pub mod Bounds
mod Tests
use forgewire_fabric.Prelude.{
  ℕ, ◌+◌, ◌%◌, ◌^◌, Bool, not, ◌||◌, Option, none, some, List, [], ◌∷◌, ◌++◌, Text, text, text_eq,
  to_ascii_lowercase, length, is_empty, ltb, leb, if◌then◌else◌,
}
use forgewire_fabric.Prelude.Maps.{Map, lookup, contains_key, insert, remove}

pub data DurabilityProfile : Type 0 where
  strict balanced throughput : DurabilityProfile

pub from_profile_str : Text → DurabilityProfile
from_profile_str s =
    let lower = to_ascii_lowercase s in
    if text_eq lower (text "balanced")
    then balanced
    else if text_eq lower (text "throughput")
    then throughput
    else strict

pub as_str : DurabilityProfile → Text
as_str strict = text "strict"
as_str balanced = text "balanced"
as_str throughput = text "throughput"

abbrev pub flush_threshold : DurabilityProfile → ℕ
flush_threshold strict = 1
flush_threshold balanced = 50
flush_threshold throughput = 200

abbrev pub cap : DurabilityProfile → ℕ
cap strict = 1
cap balanced = 500
cap throughput = 2000

pub record PendingEntry : Type 0 where
  pub task_id : ℕ
  pub worker_id : Text
  pub channel : Text
  pub line : Text
  pub ts : Text

pub record StreamCounter : Type 0 where
  pub inner : Map ℕ

abbrev pub new_counter : StreamCounter
new_counter = record { inner = [] }

-- `*g.entry(task_id).or_insert(0)`
abbrev or_zero : Option ℕ → ℕ
or_zero none = 0
or_zero (some e) = e

pub prime : ℕ → ℕ → StreamCounter → StreamCounter
prime task_id current_max c =
    let entry = or_zero (lookup task_id c.inner) in
    record { inner = insert task_id (if ltb entry current_max then current_max else entry) c.inner }

pub is_primed : ℕ → StreamCounter → Bool
is_primed task_id c = contains_key task_id c.inner

-- `*entry += 1` on a `u64`
pub next_seq : ℕ → StreamCounter → Option ℕ × StreamCounter
next_seq task_id c = elim (lookup task_id c.inner) [
  | none ↦ (none, c)
  | some e ↦ let e' = (e + 1) % 2 ^ 64 in (some e', record { inner = insert task_id e' c.inner })
]

pub forget : ℕ → StreamCounter → StreamCounter
forget task_id c = record { inner = remove task_id c.inner }

pub task_count : StreamCounter → ℕ
task_count c = length c.inner

pub record StreamBuffer : Type 0 where
  pub profile : DurabilityProfile
  pub pending : Map (List PendingEntry)

abbrev pub new_buffer : DurabilityProfile → StreamBuffer
new_buffer profile = record { profile = profile; pending = [] }

-- `g.entry(task_id).or_default()`
abbrev pub or_default : Option (List PendingEntry) → List PendingEntry
or_default none = []
or_default (some q) = q

abbrev pub pending_of : ℕ → StreamBuffer → List PendingEntry
pending_of task_id b = or_default (lookup task_id b.pending)

-- The end of `push` and `push_bulk`: the queue `q` is drained at the threshold or the cap.
drain_if_full : ℕ → List PendingEntry → StreamBuffer → Option (List PendingEntry) × StreamBuffer
drain_if_full task_id q b =
    let len = length q in
    if leb (flush_threshold b.profile) len || leb (cap b.profile) len
    then (some q, record b { pending = insert task_id [] b.pending })
    else (none, record b { pending = insert task_id q b.pending })

pub push : ℕ → Text → Text → Text → Text → StreamBuffer → Option (List PendingEntry) × StreamBuffer
unfolding drain_if_full
push task_id worker_id channel line ts b =
    let entry : PendingEntry = record {
      task_id = task_id;
      worker_id = worker_id;
      channel = channel;
      line = line;
      ts = ts;
    } in
    drain_if_full task_id (pending_of task_id b ++ entry ∷ []) b

pub push_bulk : ℕ → List PendingEntry → StreamBuffer → Option (List PendingEntry) × StreamBuffer
unfolding drain_if_full
push_bulk task_id entries b =
    if is_empty entries
    then (none, b)
    else drain_if_full task_id (pending_of task_id b ++ entries) b

pub flush_task : ℕ → StreamBuffer → List PendingEntry × StreamBuffer
flush_task task_id b = elim (lookup task_id b.pending) [
  | none ↦ ([], b)
  | some q ↦ (q, record b { pending = insert task_id [] b.pending })
]

pub forget_buffer : ℕ → StreamBuffer → StreamBuffer
forget_buffer task_id b = record b { pending = remove task_id b.pending }

count_nonempty : Map (List PendingEntry) → ℕ
count_nonempty [] = 0
count_nonempty ((t, q) ∷ m) = (if is_empty q then 0 else 1) + count_nonempty m

pub buffered_task_count : StreamBuffer → ℕ
unfolding count_nonempty
buffered_task_count b = count_nonempty b.pending

sum_lengths : Map (List PendingEntry) → ℕ
sum_lengths [] = 0
sum_lengths ((t, q) ∷ m) = length q + sum_lengths m

pub buffered_line_count : StreamBuffer → ℕ
unfolding sum_lengths
buffered_line_count b = sum_lengths b.pending
