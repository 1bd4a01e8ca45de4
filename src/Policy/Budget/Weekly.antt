-- ===== src/Policy/Budget/Weekly.antt =====
-- The weekly cap on tasks admits as many dispatches as it says.
use forgewire_fabric.Prelude.{
  ℕ, zero, suc, ◌^◌, ◌<◌, ◌≡◌, refl, ◌↔◌, true, Option, none, some, arith, ◌⊎◌, inl, inr, Text,
  Bool-cases, ltb,
}
use forgewire_fabric.Prelude.Int.{ℤ, pos, ◌<ℤ◌, leb_ℤ}
use forgewire_fabric.Policy.{allow, deny}
use forgewire_fabric.Policy.Budget.{
  BudgetEnforcer, weekly_tasks, check_dispatch, record_dispatch, reset_weekly,
}

weekly_tasks_iff :
    (o : Option ℤ) (tasks : ℤ)
    → ((weekly_tasks o tasks).allowed ≡ true) ↔ ((limit : ℤ) → o ≡ some limit → tasks <ℤ limit)
unfolding weekly_tasks
weekly_tasks_iff none tasks = (λ h limit e. cc, λ h. refl)
weekly_tasks_iff (some limit) tasks =
    (λ h l e. ground arith, λ h. let below : tasks <ℤ limit = h limit refl in ground arith)

weekly_tasks_cases :
    (o : Option ℤ) (tasks : ℤ)
    → (weekly_tasks o tasks ≡ allow) ⊎ ((reason : Text) × (weekly_tasks o tasks ≡ deny reason))
unfolding weekly_tasks
weekly_tasks_cases none tasks = inl refl
weekly_tasks_cases (some limit) tasks = elim (Bool-cases (leb_ℤ limit tasks)) [
  | inl reached ↦ rw reached (inr (_, refl))
  | inr below ↦ rw below (inl refl)
]

module _ {F : Type 0} where
  pub check_dispatch_cases :
      (e : BudgetEnforcer F)
      → (check_dispatch e ≡ allow) ⊎ ((reason : Text) × (check_dispatch e ≡ deny reason))
  unfolding check_dispatch
  check_dispatch_cases e = weekly_tasks_cases e.policy.weekly_task_cap e.tasks_this_week

  -- `n` dispatches, one after another.
  pub records : ℕ → BudgetEnforcer F → BudgetEnforcer F
  records zero e = e
  records (suc n) e = record_dispatch (records n e)

  policy-records : (n : ℕ) (e : BudgetEnforcer F) → (records n e).policy ≡ e.policy
  unfolding records record_dispatch
  policy-records zero e = refl
  policy-records (suc n) e = policy-records n e

  tasks-records :
      (n : ℕ) (e : BudgetEnforcer F)
      → e.tasks_this_week ≡ pos 0
      → n < 2 ^ 63
      → (records n e).tasks_this_week ≡ pos n
  unfolding records record_dispatch
  tasks-records zero e h room = h
  tasks-records (suc n) e h room = rw (tasks-records n e h (omega arith)) (ground arith)

  -- The budget lets a dispatch pass exactly if the count of the week is below the cap, if any.
  pub check_dispatch_iff :
      (e : BudgetEnforcer F)
      → ((check_dispatch e).allowed ≡ true)
        ↔ ((limit : ℤ) → e.policy.weekly_task_cap ≡ some limit → e.tasks_this_week <ℤ limit)
  unfolding check_dispatch
  check_dispatch_iff e = weekly_tasks_iff e.policy.weekly_task_cap e.tasks_this_week

  -- With a weekly cap of `k` tasks, after a reset and `n` recorded dispatches the next one is
  -- allowed exactly while `n` is below `k`, if the count does not pass an `i64`.
  pub weekly_cap_exact :
      (e : BudgetEnforcer F) (k n : ℕ)
      → e.policy.weekly_task_cap ≡ some (pos k)
      → n < 2 ^ 63
      → (check_dispatch (records n (reset_weekly e))).allowed ≡ ltb n k
  unfolding check_dispatch reset_weekly
  weekly_cap_exact e k n limit room =
      let start : BudgetEnforcer F = record e { tasks_this_week = pos 0 } in
      rw (tasks-records n start refl room, policy-records n start, limit) (ground arith)
