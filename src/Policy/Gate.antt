-- ===== src/Policy/Gate.antt =====
-- `DispatchGate` of crates/fabric-policy/src/lib.rs: the budget first, then the engine.
pub mod Decisions
use forgewire_fabric.Prelude.{Text, if◌then◌else◌}
use forgewire_fabric.Policy.{FabricPolicy, PolicyDecision, DispatchRequest, CompletionRequest}
use forgewire_fabric.Policy.Budget.{BudgetEnforcer, new_enforcer, effective_budget, check_dispatch}
use forgewire_fabric.Policy.Engine

pub record DispatchGate (F : Type 0) : Type 0 where
  pub engine : FabricPolicy F
  pub budget : BudgetEnforcer F

module _ {F : Type 0} where
  abbrev pub new_gate : FabricPolicy F → DispatchGate F
  new_gate policy = record { engine = policy; budget = new_enforcer (effective_budget policy) }

  unfoldable pub gate_dispatch : DispatchGate F → DispatchRequest → PolicyDecision
  gate_dispatch g req =
      let budget = check_dispatch g.budget in
      if budget.denied then budget else Engine.evaluate_dispatch g.engine req

  pub gate_completion : DispatchGate F → CompletionRequest → PolicyDecision
  gate_completion g req = Engine.evaluate_completion g.engine req

  pub gate_intent : DispatchGate F → Text → PolicyDecision
  gate_intent g action = Engine.evaluate_intent g.engine action
