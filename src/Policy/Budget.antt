-- ===== src/Policy/Budget.antt =====
-- `BudgetPolicy` and `BudgetEnforcer` of crates/fabric-policy/src/lib.rs.
pub mod Weekly
pub mod Costs
use forgewire_fabric.Prelude.{
  Bool, false, true, ◌&&◌, ◌||◌, Option, none, some, Text, text, ◌++◌, if◌then◌else◌,
}
use forgewire_fabric.Prelude.Int.{ℤ, pos, suc_i64, leb_ℤ, decimal_ℤ}
use forgewire_fabric.Policy.{Float, FabricPolicy, BudgetPolicy, PolicyDecision, allow, deny}

-- `a.or(b)`, `is_some` and `is_none`
abbrev option_or {ℓ} : {A : Type ℓ} → Option A → Option A → Option A
option_or none b = b
option_or (some a) b = some a

abbrev pub is_some {ℓ} : {A : Type ℓ} → Option A → Bool
is_some none = false
is_some (some a) = true

abbrev is_none {ℓ} : {A : Type ℓ} → Option A → Bool
is_none none = true
is_none (some a) = false

unfoldable pub effective_budget : {F : Type 0} → FabricPolicy F → BudgetPolicy F
effective_budget p = record {
  weekly_task_cap = p.budget.weekly_task_cap;
  daily_cost_cap_usd = option_or p.daily_budget_usd p.budget.daily_cost_cap_usd;
  weekly_cost_cap_usd = option_or p.weekly_budget_usd p.budget.weekly_cost_cap_usd;
}

pub is_default : {F : Type 0} → BudgetPolicy F → Bool
is_default b =
    is_none b.weekly_task_cap && is_none b.daily_cost_cap_usd && is_none b.weekly_cost_cap_usd

unfoldable pub has_cost_caps : {F : Type 0} → BudgetPolicy F → Bool
has_cost_caps b = is_some b.daily_cost_cap_usd || is_some b.weekly_cost_cap_usd

module _ (float : Float) where
  open float use {F, geb, format4}

  -- One of the two messages; `period` is `daily` or `weekly`.
  budget_exceeded : Text → F → F → Text
  budget_exceeded period spend limit =
      period
      ++ text " budget exceeded: $"
      ++ format4 spend
      ++ text " of $"
      ++ format4 limit
      ++ text " cap"

  weekly_cost : Option F → F → PolicyDecision
  unfolding budget_exceeded
  weekly_cost none spend = allow
  weekly_cost (some limit) spend =
      if geb spend limit then deny (budget_exceeded (text "weekly") spend limit) else allow

  daily_cost : Option F → F → PolicyDecision → PolicyDecision
  unfolding budget_exceeded
  daily_cost none spend next = next
  daily_cost (some limit) spend next =
      if geb spend limit then deny (budget_exceeded (text "daily") spend limit) else next

  unfoldable pub check_cost : BudgetPolicy F → F → F → PolicyDecision
  unfolding daily_cost weekly_cost
  check_cost b daily_spend weekly_spend =
      daily_cost b.daily_cost_cap_usd daily_spend (weekly_cost b.weekly_cost_cap_usd weekly_spend)

pub record BudgetEnforcer (F : Type 0) : Type 0 where
  pub policy : BudgetPolicy F
  pub tasks_this_week : ℤ

weekly_tasks : Option ℤ → ℤ → PolicyDecision
weekly_tasks none tasks = allow
weekly_tasks (some limit) tasks =
    if leb_ℤ limit tasks
    then deny (text "weekly task cap reached (" ++ decimal_ℤ limit ++ text " tasks)")
    else allow

module _ {F : Type 0} where
  abbrev pub new_enforcer : BudgetPolicy F → BudgetEnforcer F
  new_enforcer policy = record { policy = policy; tasks_this_week = pos 0 }

  unfoldable pub check_dispatch : BudgetEnforcer F → PolicyDecision
  unfolding weekly_tasks
  check_dispatch e = weekly_tasks e.policy.weekly_task_cap e.tasks_this_week

  pub record_dispatch : BudgetEnforcer F → BudgetEnforcer F
  record_dispatch e = record e { tasks_this_week = suc_i64 e.tasks_this_week }

  pub reset_weekly : BudgetEnforcer F → BudgetEnforcer F
  reset_weekly e = record e { tasks_this_week = pos 0 }
