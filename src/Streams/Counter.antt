-- ===== src/Streams/Counter.antt =====
-- Sequence numbers over any interleaving of the operations of a counter.
use forgewire_fabric.Prelude.{
  ℕ, zero, suc, ◌+◌, ◌^◌, ◌≤◌, ◌<◌, ◌≡◌, ◌≢◌, refl, ap, inl, inr, false, Option, none, some, List,
  [], ◌∷◌, arith, length, ◌==◌, ==_self, ltb, ◌%◌, Option-cases, if◌then◌else◌, Bool-cases,
}
use forgewire_fabric.Prelude.Maps.{lookup, lookup-insert, lookup-remove}
use forgewire_fabric.Streams.{StreamCounter, prime, next_seq, forget}

pub data CounterOp : Type 0 where
  prime_op : ℕ → ℕ → CounterOp
  next_op : ℕ → CounterOp
  forget_op : ℕ → CounterOp

abbrev pub after : CounterOp → StreamCounter → StreamCounter
after (prime_op u m) c = prime u m c
after (next_op u) c = (next_seq u c).1
after (forget_op u) c = forget u c

abbrev pub emit : Option ℕ → List ℕ → List ℕ
emit none rest = rest
emit (some n) rest = n ∷ rest

-- The numbers that the operation hands to callers for task `t`, before those of the rest.
abbrev pub handed : ℕ → CounterOp → StreamCounter → List ℕ → List ℕ
handed t (prime_op u m) c rest = rest
handed t (next_op u) c rest = if u == t then emit (next_seq u c).0 rest else rest
handed t (forget_op u) c rest = rest

-- The numbers handed out for task `t` by a sequence of operations of any tasks.
unfoldable pub seqs : ℕ → List CounterOp → StreamCounter → List ℕ
seqs t [] c = []
seqs t (op ∷ ops) c = handed t op c (seqs t ops (after op c))

-- Each number is larger than the one before it, and the first is larger than `m`.
abbrev pub Ascending : ℕ → List ℕ → Type 0
Ascending m [] = Unit
Ascending m (x ∷ xs) = (m < x) × Ascending x xs

-- The task is not forgotten, and no prime of it is so large that the number left to hand out
-- could pass a `u64`.
abbrev pub Fits : ℕ → List CounterOp → Type 0
Fits t [] = Unit
Fits t (prime_op u m ∷ ops) = (m + length ops < 2 ^ 64) × Fits t ops
Fits t (next_op u ∷ ops) = Fits t ops
Fits t (forget_op u ∷ ops) = (u ≢ t) × Fits t ops

Ascending-weaken : (m n : ℕ) (xs : List ℕ) → m ≤ n → Ascending n xs → Ascending m xs
Ascending-weaken m n [] le h = tt
Ascending-weaken m n (x ∷ xs) le h = (omega arith, h.1)

module _ (t : ℕ) (c : StreamCounter) {n : ℕ} (at : lookup t c.inner ≡ some n) where
  prime_self : (m : ℕ) → lookup t (prime t m c).inner ≡ some (if ltb n m then m else n)
  unfolding prime
  prime_self m = ground (arith, lookup-insert t t (if ltb n m then m else n) c.inner)

  prime_other : (u m : ℕ) → (u == t) ≡ false → lookup t (prime u m c).inner ≡ some n
  unfolding prime
  prime_other u m h = rw (lookup-insert, h) at

  next_self :
      n + 1 < 2 ^ 64
      → ((next_seq t c).0 ≡ some (n + 1)) × (lookup t (next_seq t c).1.inner ≡ some (n + 1))
  unfolding next_seq
  next_self room =
      let e : (n + 1) % 2 ^ 64 ≡ n + 1 = omega arith in
      ground (arith, lookup-insert t t ((n + 1) % 2 ^ 64) c.inner)

  next_other : (u : ℕ) → (u == t) ≡ false → lookup t (next_seq u c).1.inner ≡ some n
  unfolding next_seq
  next_other u h = elim (Option-cases (lookup u c.inner)) [
    | inl missing ↦ ground arith
    | inr (e, found) ↦ ground (arith, lookup-insert u t ((e + 1) % 2 ^ 64) c.inner)
  ]

  forget_other : (u : ℕ) → u ≢ t → lookup t (forget u c).inner ≡ some n
  unfolding forget
  forget_other u h = ground (arith, lookup-remove u t c.inner)

-- From a primed task, the numbers handed out for it rise strictly above the current one, however
-- the operations of other tasks and further primes of this task fall between, as long as
-- it is not forgotten and no number passes a `u64`.
pub seqs-Ascending :
    (t : ℕ) (ops : List CounterOp) (c : StreamCounter) (n : ℕ)
    → lookup t c.inner ≡ some n
    → n + length ops < 2 ^ 64
    → Fits t ops
    → Ascending n (seqs t ops c)
unfolding seqs
seqs-Ascending t [] c n at room fits = tt
seqs-Ascending t (prime_op u m ∷ ops) c n at room fits = elim (Bool-cases (u == t)) [
  | inl same ↦
      let e : u ≡ t = ground arith in
      let n' : ℕ = if ltb n m then m else n in
      Ascending-weaken n n' _ (ground arith)
        (seqs-Ascending t ops (prime u m c) n' (rw e (prime_self t c at m)) (ground arith) fits.1)
  | inr other ↦
      seqs-Ascending t ops (prime u m c) n (prime_other t c at u m other) (omega arith) fits.1
]
seqs-Ascending t (next_op u ∷ ops) c n at room fits = elim (Bool-cases (u == t)) [
  | inl same ↦
      let e : u ≡ t = ground arith in
      let next = next_self t c at (omega arith) in
      rw (e, ==_self, next.0)
        ((omega arith), seqs-Ascending t ops (next_seq t c).1 (n + 1) next.1 (omega arith) fits)
  | inr other ↦
      rw other
        (seqs-Ascending t ops (next_seq u c).1 n (next_other t c at u other) (omega arith) fits)
]
seqs-Ascending t (forget_op u ∷ ops) c n at room fits =
    seqs-Ascending t ops (forget u c) n (forget_other t c at u fits.0) (omega arith) fits.1

-- Other tasks may be primed and forgotten at will; task `t` only asks for numbers.
abbrev pub OnlyAsks : ℕ → List CounterOp → Type 0
OnlyAsks t [] = Unit
OnlyAsks t (prime_op u m ∷ ops) = (u ≢ t) × OnlyAsks t ops
OnlyAsks t (next_op u ∷ ops) = OnlyAsks t ops
OnlyAsks t (forget_op u ∷ ops) = (u ≢ t) × OnlyAsks t ops

-- How often a number is asked for task `t`.
abbrev pub asks : ℕ → List CounterOp → ℕ
asks t [] = 0
asks t (next_op u ∷ ops) = let rest = asks t ops in if u == t then suc rest else rest
asks t (prime_op u m ∷ ops) = asks t ops
asks t (forget_op u ∷ ops) = asks t ops

-- `n + 1`, `n + 2`, and so on, `k` of them.
abbrev pub successors : ℕ → ℕ → List ℕ
successors n zero = []
successors n (suc k) = (n + 1) ∷ successors (n + 1) k

-- From a task primed at `n`, `k` requests get exactly `n + 1` to `n + k`, in this order and without
-- a gap, whatever the other tasks do in between.
pub seqs-eq-successors :
    (t : ℕ) (ops : List CounterOp) (c : StreamCounter) (n : ℕ)
    → lookup t c.inner ≡ some n
    → n + asks t ops < 2 ^ 64
    → OnlyAsks t ops
    → seqs t ops c ≡ successors n (asks t ops)
unfolding seqs
seqs-eq-successors t [] c n at room only = refl
seqs-eq-successors t (prime_op u m ∷ ops) c n at room only =
    seqs-eq-successors t ops (prime u m c) n (prime_other t c at u m (ground (arith, only.0)))
      (omega arith) only.1
seqs-eq-successors t (next_op u ∷ ops) c n at room only = elim (Bool-cases (u == t)) [
  | inl same ↦
      let e : u ≡ t = ground arith in
      let room' : n + 1 + asks t ops < 2 ^ 64 = ground arith in
      let next = next_self t c at (omega arith) in
      rw (e, ==_self, next.0)
        (ap (λ l. (n + 1) ∷ l)
          (seqs-eq-successors t ops (next_seq t c).1 (n + 1) next.1 room' only))
  | inr other ↦
      rw other (
        seqs-eq-successors t ops (next_seq u c).1 n (next_other t c at u other) (ground arith) only)
]
seqs-eq-successors t (forget_op u ∷ ops) c n at room only =
    seqs-eq-successors t ops (forget u c) n (forget_other t c at u only.0) room only.1
