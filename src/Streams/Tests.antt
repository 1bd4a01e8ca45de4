-- ===== src/Streams/Tests.antt =====
-- Runs of the counters and buffers on small inputs.
use forgewire_fabric.Prelude.{◌≡◌, refl, List, [], ◌∷◌, ◌++◌, arith, text}
use forgewire_fabric.Streams.{
  strict, balanced, from_profile_str, StreamCounter, new_counter, prime, next_seq, PendingEntry,
  new_buffer, pending_of,
}
use forgewire_fabric.Streams.Counter.{
  CounterOp, prime_op, next_op, forget_op, seqs, Ascending, seqs-Ascending,
}
use forgewire_fabric.Streams.Buffer.{
  BufferOp, push_op, push_bulk_op, flush_op, forget_op as drop_op, run, stored, pushed,
  stored-append-pending,
}

profiles :
    (from_profile_str (text "BALANCED") ≡ balanced) × (from_profile_str (text "other") ≡ strict)
unfolding from_profile_str
profiles = (refl, refl)

abbrev primed : StreamCounter
primed = record { inner = (7, 17) ∷ [] }

primed_lem : prime 7 17 new_counter ≡ primed
unfolding prime
primed_lem = refl

abbrev counter_ops : List CounterOp
counter_ops = next_op 7 ∷ prime_op 8 3 ∷ next_op 8 ∷ prime_op 7 5 ∷ next_op 7 ∷ forget_op 8 ∷ []

abbrev asking_ops : List CounterOp
asking_ops = next_op 7 ∷ prime_op 8 3 ∷ next_op 8 ∷ next_op 7 ∷ []

counted : seqs 7 counter_ops primed ≡ 18 ∷ 19 ∷ []
unfolding seqs prime next_seq
counted = refl

seqs-Ascending_example : Ascending 17 (seqs 7 counter_ops primed)
seqs-Ascending_example = seqs-Ascending 7 counter_ops primed 17 refl (omega arith) (omega arith)

abbrev entry : PendingEntry
entry = record { task_id = 1; worker_id = []; channel = []; line = text "a"; ts = [] }

abbrev buffer_ops : List BufferOp
buffer_ops =
    push_bulk_op 1 (entry ∷ entry ∷ [])
    ∷ push_op 2 [] [] [] []
    ∷ flush_op 1
    ∷ push_op 1 [] [] [] []
    ∷ drop_op 2
    ∷ []

stored-append-pending_example :
    stored 1 buffer_ops (new_buffer balanced) ++ pending_of 1 (run buffer_ops (new_buffer balanced))
    ≡ pending_of 1 (new_buffer balanced) ++ pushed 1 buffer_ops
stored-append-pending_example =
    stored-append-pending 1 buffer_ops (new_buffer balanced) (omega arith)
