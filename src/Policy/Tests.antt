-- ===== src/Policy/Tests.antt =====
-- Runs of the policy engine on small inputs.
use mathlib.Core.Path.{◌≡◌, refl}
use forgewire_fabric.Prelude.{ℕ, List, ◌↔◌, inl, true, false, none, some, [], ◌∷◌, Text, text, leb}
use forgewire_fabric.Prelude.Int.{ℤ, pos, ◌<ℤ◌}
use forgewire_fabric.Policy.{
  Float, BudgetPolicy, FabricPolicy, allow, require_approval, DispatchRequest, CompletionRequest,
}
use forgewire_fabric.Policy.Globs.{segment_match, glob_parts_match, glob_match, scopes_overlap}
use forgewire_fabric.Policy.Globs.Stars.{HasInnerStar}
use forgewire_fabric.Policy.Budget.{BudgetEnforcer, new_enforcer, check_cost}
use forgewire_fabric.Policy.Engine.{
  branch_blocked, branch_unlisted, branch_protected, scope_checks, scope_blocked, scope_forbidden,
  scope_held, path_forbidden, evaluate_dispatch, evaluate_completion, evaluate_intent,
}
use forgewire_fabric.Policy.Engine.Dispatch.{Permits, evaluate_dispatch_allowed_iff}
use forgewire_fabric.Policy.Engine.Masking.{held_message, protected_branch_masks}
use forgewire_fabric.Policy.Gate.{new_gate, gate_dispatch}
use forgewire_fabric.Policy.Gate.Decisions.{gate_dispatch_allowed_iff}

-- Amounts in whole cents stand for the floats.
abbrev cents : Float
cents = record { F = ℕ; geb = λ a b. leb b a; format4 = λ a. [] }

abbrev no_budget : BudgetPolicy ℕ
no_budget = record {
  weekly_task_cap = some (pos 2);
  daily_cost_cap_usd = none;
  weekly_cost_cap_usd = none;
}

abbrev policy : FabricPolicy ℕ
policy = record {
  protected_branches = text "main" ∷ text "release/*" ∷ [];
  blocked_branches = [];
  allowed_branches = [];
  forbidden_paths = text ".github/workflows/**" ∷ text "secrets/**" ∷ [];
  allowed_scope_globs = [];
  blocked_scope_globs = [];
  require_approval_for_scopes = [];
  require_approval = text "merge" ∷ text "push" ∷ [];
  egress_allowlist = [];
  max_diff_lines = some (pos 2000);
  max_concurrent_tasks = none;
  require_signed_dispatch = false;
  daily_budget_usd = some 500;
  weekly_budget_usd = some 2500;
  weekly_alert_threshold = none;
  budget = no_budget;
}

abbrev request : Text → Text → DispatchRequest
request scope branch = record {
  task_id = text "t1";
  scope_globs = scope ∷ [];
  target_branch = some branch;
  dispatcher_id = none;
  kind = text "agent";
  cwd = none;
}

abbrev completion : CompletionRequest
completion = record {
  task_id = text "t1";
  changed_paths = text "secrets/a/b" ∷ [];
  diff_lines = pos 10;
}

decisions :
    (evaluate_dispatch policy (request (text "core/**") (text "agent/x")) ≡ allow)
    × ((evaluate_dispatch policy (request (text "secrets/key") (text "agent/x"))).denied ≡ true)
    × ((evaluate_completion policy completion).denied ≡ true)
    × ((evaluate_intent policy (text "merge")).needs_approval ≡ true)
unfolding branch_blocked branch_unlisted branch_protected scope_checks scope_blocked scope_forbidden
    scope_held path_forbidden evaluate_dispatch evaluate_completion evaluate_intent glob_match
    scopes_overlap glob_parts_match segment_match
decisions = (refl, refl, refl, refl)

inner : HasInnerStar (text "a*b")
inner = record { starred = refl; bare_start = refl; bare_end = refl }

abbrev enforcer : BudgetEnforcer ℕ
enforcer = new_enforcer no_budget

abbrev core_request : DispatchRequest
core_request = request (text "core/**") (text "agent/x")

evaluate_dispatch_allowed_iff_example :
    (((evaluate_dispatch policy core_request).allowed ≡ true) ↔ Permits policy core_request)
    × ((globs : List Text)
        → evaluate_dispatch (record policy { allowed_scope_globs = globs }) core_request
          ≡ evaluate_dispatch policy core_request)
evaluate_dispatch_allowed_iff_example = evaluate_dispatch_allowed_iff policy core_request

protected_branch_masks_example :
    evaluate_dispatch policy (request (text "secrets/key") (text "main"))
    ≡ require_approval (held_message policy (text "main"))
unfolding glob_match
protected_branch_masks_example =
    protected_branch_masks policy (text "main") (request (text "secrets/key") (text "main")) refl tt
      (inl refl) (inl refl)

gate_dispatch_allowed_iff_example :
    (((gate_dispatch (new_gate policy) core_request).allowed ≡ true) ↔ (
      ((limit : ℤ)
        → (new_gate policy).budget.policy.weekly_task_cap ≡ some limit
        → (new_gate policy).budget.tasks_this_week <ℤ limit)
      × Permits policy core_request))
    × ((globs : List Text)
        → gate_dispatch
            (record (new_gate policy) { engine = record policy { allowed_scope_globs = globs } })
            core_request
          ≡ gate_dispatch (new_gate policy) core_request)
gate_dispatch_allowed_iff_example = gate_dispatch_allowed_iff (new_gate policy) core_request

-- The daily cap is looked at first, and is reached when the spend equals it.
cost_denied :
    (check_cost cents
      (record { weekly_task_cap = none; daily_cost_cap_usd = some 500; weekly_cost_cap_usd = none })
      500
      0).denied
    ≡ true
unfolding check_cost
cost_denied = refl
