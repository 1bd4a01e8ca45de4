-- ===== src/ClaimRouter/Pick.antt =====
-- `pick_task` returns the first eligible candidate.
use forgewire_fabric.Prelude.{
  ℕ, suc, ◌+◌, ◌≡◌, refl, inl, inr, false, Option, none, some, List, [], ◌∷◌, arith, All, get_elem?,
  take, length, Bool-cases,
}
use forgewire_fabric.ClaimRouter.{CandidateTask, RunnerView, matches, pick_from, pick_task}
use forgewire_fabric.ClaimRouter.Matches.{IsEligible, matches_iff}

-- What the loop may return, for an index and a count that began at `base`.
abbrev pub Picked : RunnerView → List CandidateTask → ℕ → Option ℕ × ℕ → Type 0
Picked runner tasks base (none, seen) =
    (seen ≡ base + length tasks) × All (λ t. ¬ (IsEligible t runner)) tasks
Picked runner tasks base (some idx, seen) =
    (i : ℕ) × (idx ≡ base + i)
    × (seen ≡ idx + 1)
    × (task : CandidateTask) × (get_elem? tasks i ≡ some task)
    × IsEligible task runner
    × All (λ t. ¬ (IsEligible t runner)) (take i tasks)

refused :
    (task : CandidateTask) (runner : RunnerView)
    → matches task runner ≡ false
    → ¬ (IsEligible task runner)
refused task runner h e = cc ((matches_iff task runner).1 e)

Picked-later :
    (runner : RunnerView) (task : CandidateTask) (rest : List CandidateTask) (base : ℕ)
    (r : Option ℕ × ℕ)
    → ¬ (IsEligible task runner)
    → Picked runner rest (base + 1) r
    → Picked runner (task ∷ rest) base r
Picked-later runner task rest base (none, seen) no_match h = (omega arith, (no_match, h.1))
Picked-later runner task rest base (some idx, seen) no_match
      (i, at, count, t, found, fits, before) =
    (suc i, omega arith, count, t, found, fits, (no_match, before))

pick_from-Picked :
    (runner : RunnerView) (tasks : List CandidateTask) (base : ℕ)
    → Picked runner tasks base (pick_from runner tasks base base)
unfolding pick_from
pick_from-Picked runner [] base = (omega arith, tt)
pick_from-Picked runner (task ∷ rest) base = elim (Bool-cases (matches task runner)) [
  | inl hit ↦ rw hit (0, omega arith, refl, task, refl, (matches_iff task runner).0 hit, tt)
  | inr miss ↦ rw miss (
      Picked-later runner task rest base (pick_from runner rest (base + 1) (base + 1))
        (refused task runner miss) (pick_from-Picked runner rest (base + 1)))
]

-- If `pick_task` returns an index, the candidate there is eligible, none before it is, and the
-- count is one more than the index; if it returns none, no candidate is eligible and all were counted.
pub pick_task-Picked :
    (tasks : List CandidateTask) (runner : RunnerView)
    → Picked runner tasks 0 (pick_task tasks runner)
unfolding pick_task
pick_task-Picked tasks runner = pick_from-Picked runner tasks 0
