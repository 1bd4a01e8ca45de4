-- ===== src/Hub/Dispatch/Funded.antt =====
-- crates/fabric-hub/src/utils.rs: what spending passes the budget of the hub.
use forgewire_fabric.Prelude.{
  ◌≡◌, refl, Bool, true, false, not, none, some, Text, if_ind, if◌then◌else◌,
}
use forgewire_fabric.Prelude.Results.{okay, and_then, and_then-okay, okay-injective}
use forgewire_fabric.Prelude.Json.{Json}
use forgewire_fabric.Policy.{BudgetPolicy, PolicyDecision}
use forgewire_fabric.Policy.Budget.{check_cost, has_cost_caps}
use forgewire_fabric.Policy.Budget.Costs.{check_cost-Below, no_caps}
use forgewire_fabric.Policy.Gate.{DispatchGate}
use forgewire_fabric.Hub.Store.{CurrentBudget}
use forgewire_fabric.Hub.Dispatch.{SignedDispatchPayload, DispatchCalls, DispatchLibraries}
use forgewire_fabric.Hub.Dispatch.Checks.{denial, budget_denial}

module _ {W N E K : Type 0} (libraries : DispatchLibraries N E K)
    (calls : DispatchCalls W N libraries.float.F) (gate : DispatchGate libraries.float.F)
    (caps : BudgetPolicy libraries.float.F) (attribution : Json N)
    (p : SignedDispatchPayload N libraries.float.F) where
  open libraries use {float}
  open float use {F, geb}
  open calls use {current_budget}

  -- For each cap there is, the spending that the store tells of lies below it.
  pub record IsFunded (now : Text) (u : W) : Type 0 where
    daily :
        (limit : F)
        → caps.daily_cost_cap_usd ≡ some limit
        → (b : CurrentBudget F) × (current_budget now u ≡ okay b)
          × (geb b.daily_spend_usd limit ≡ false)
    weekly :
        (limit : F)
        → caps.weekly_cost_cap_usd ≡ some limit
        → (b : CurrentBudget F) × (current_budget now u ≡ okay b)
          × (geb b.weekly_spend_usd limit ≡ false)

  undenied :
      (d : PolicyDecision)
      → denial libraries calls gate caps attribution p d ≡ none
      → d.denied ≡ false
  undenied d h = if_ind (λ o. o ≡ none → d.denied ≡ false) d.denied _ _ (λ t e. cc) (λ f e. f) h

  pub budget_denial-IsFunded :
      (now : Text) (u : W)
      → budget_denial libraries calls gate caps attribution p now u ≡ okay none
      → IsFunded now u
  unfolding budget_denial
  budget_denial-IsFunded now u h = capped (has_cost_caps caps) refl h
    where
      capped :
          (c : Bool)
          → has_cost_caps caps ≡ c
          → (if not c
              then okay none
              else and_then (current_budget now u) (λ (b : CurrentBudget F). okay (
                  denial libraries calls gate caps attribution p
                    (check_cost float caps b.daily_spend_usd b.weekly_spend_usd))))
            ≡ okay none
          → IsFunded now u
      capped false c h =
          let (d, w) = no_caps caps c in
          record { daily = λ limit e. absurd (d limit e); weekly = λ limit e. absurd (w limit e) }
      capped true c h =
          let (b, is, h1) = and_then-okay (current_budget now u) _ none h in
          let (d, w) = check_cost-Below float caps b.daily_spend_usd b.weekly_spend_usd (
            undenied (check_cost float caps b.daily_spend_usd b.weekly_spend_usd)
              (okay-injective _ none h1)) in
          record { daily = λ limit e. (b, is, d limit e); weekly = λ limit e. (b, is, w limit e) }
