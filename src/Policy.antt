-- ===== src/Policy.antt =====
-- crates/fabric-policy/src/lib.rs: the operator's policy, and the decisions made from it. A policy
-- holds amounts of type `f64`; they are a parameter `F` with its comparison and its print.
pub mod Globs
pub mod Budget
pub mod Engine
pub mod Gate
mod Tests
use forgewire_fabric.Prelude.{
  Bool, true, false, ◌&&◌, ◌||◌, Option, none, some, List, [], ◌∷◌, Text,
}
use forgewire_fabric.Prelude.Int.{ℤ}

-- What the program does with an `f64`: `a >= b`, and `{a:.4}`.
pub record Float : Type 1 where
  pub F : Type 0
  pub geb : F → F → Bool
  pub format4 : F → Text

pub record BudgetPolicy (F : Type 0) : Type 0 where
  pub weekly_task_cap : Option ℤ
  pub daily_cost_cap_usd : Option F
  pub weekly_cost_cap_usd : Option F

pub record FabricPolicy (F : Type 0) : Type 0 where
  pub protected_branches : List Text
  pub blocked_branches : List Text
  pub allowed_branches : List Text
  pub forbidden_paths : List Text
  pub allowed_scope_globs : List Text
  pub blocked_scope_globs : List Text
  pub require_approval_for_scopes : List Text
  pub require_approval : List Text
  pub egress_allowlist : List Text
  pub max_diff_lines : Option ℤ
  pub max_concurrent_tasks : Option ℤ
  pub require_signed_dispatch : Bool
  pub daily_budget_usd : Option F
  pub weekly_budget_usd : Option F
  pub weekly_alert_threshold : Option F
  pub budget : BudgetPolicy F

pub record PolicyDecision : Type 0 where
  pub allowed : Bool
  pub denied : Bool
  pub needs_approval : Bool
  pub reasons : List Text

abbrev pub allow : PolicyDecision
allow = record { allowed = true; denied = false; needs_approval = false; reasons = [] }

abbrev pub deny : Text → PolicyDecision
deny reason = record {
  allowed = false;
  denied = true;
  needs_approval = false;
  reasons = reason ∷ [];
}

abbrev pub require_approval : Text → PolicyDecision
require_approval reason = record {
  allowed = false;
  denied = false;
  needs_approval = true;
  reasons = reason ∷ [];
}

pub record DispatchRequest : Type 0 where
  pub task_id : Text
  pub scope_globs : List Text
  pub target_branch : Option Text
  pub dispatcher_id : Option Text
  pub kind : Text
  pub cwd : Option Text

pub record CompletionRequest : Type 0 where
  pub task_id : Text
  pub changed_paths : List Text
  pub diff_lines : ℤ
