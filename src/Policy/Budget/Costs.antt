-- ===== src/Policy/Budget/Costs.antt =====
-- `BudgetPolicy` of crates/fabric-policy/src/lib.rs: what spending passes the caps on cost.
use forgewire_fabric.Prelude.{
  ◌≡◌, ◌≢◌, sym, ap, ◌∙◌, false, ◌||◌, Option, none, some, some-injective, if_ind,
}
use forgewire_fabric.Policy.{Float, BudgetPolicy, PolicyDecision}
use forgewire_fabric.Policy.Budget.{weekly_cost, daily_cost, check_cost, has_cost_caps, is_some}

module _ (float : Float) where
  open float use {F, geb}

  abbrev pub Below : Option F → F → Type 0
  Below cap spend = (limit : F) → cap ≡ some limit → geb spend limit ≡ false

  abbrev Passes : PolicyDecision → Type 0
  Passes d = d.denied ≡ false

  exact : (limit l spend : F) → geb spend limit ≡ false → some limit ≡ some l → geb spend l ≡ false
  exact limit l spend h e = ap (geb spend) (sym (some-injective e)) ∙ h

  weekly_cost-Below :
      (cap : Option F) (spend : F) → Passes (weekly_cost float cap spend) → Below cap spend
  unfolding weekly_cost
  weekly_cost-Below none spend h limit e = cc
  weekly_cost-Below (some l) spend h limit e =
      if_ind (λ d. Passes d → geb spend limit ≡ false) (geb spend l) _ _ (λ t p. cc p)
        (λ f p. exact l limit spend f e) h

  daily_cost-Below :
      (cap : Option F) (spend : F) (next : PolicyDecision)
      → Passes (daily_cost float cap spend next)
      → Below cap spend × Passes next
  unfolding daily_cost
  daily_cost-Below none spend next h = (λ limit e. cc, h)
  daily_cost-Below (some l) spend next h =
      if_ind (λ d. Passes d → Below (some l) spend × Passes next) (geb spend l) _ _ (λ t p. cc p)
        (λ f p. (λ limit e. exact l limit spend f e, p)) h

  -- What is not denied lies below both caps.
  pub check_cost-Below :
      (b : BudgetPolicy F) (daily weekly : F)
      → Passes (check_cost float b daily weekly)
      → Below b.daily_cost_cap_usd daily × Below b.weekly_cost_cap_usd weekly
  unfolding check_cost
  check_cost-Below b daily weekly h =
      let (d, w) = daily_cost-Below b.daily_cost_cap_usd daily _ h in
      (d, weekly_cost-Below b.weekly_cost_cap_usd weekly w)

-- Without caps on cost there is no limit.
pub no_caps :
    {F : Type 0} (b : BudgetPolicy F)
    → has_cost_caps b ≡ false
    → ((limit : F) → b.daily_cost_cap_usd ≢ some limit)
      × ((limit : F) → b.weekly_cost_cap_usd ≢ some limit)
unfolding has_cost_caps
no_caps b h = go b.daily_cost_cap_usd b.weekly_cost_cap_usd h
  where
    go :
        {F : Type 0} (d w : Option F)
        → (is_some d || is_some w) ≡ false
        → ((limit : F) → d ≢ some limit) × ((limit : F) → w ≢ some limit)
    go none none h = (λ l e. cc, λ l e. cc)
    go none (some x) h = cc
    go (some x) w h = cc
