-- ===== src/Policy/Gate/Decisions.antt =====
-- The decisions of the gate.
use forgewire_fabric.Prelude.{
  ◌≡◌, refl, ap, ◌↔◌, ◌⊎◌, inl, inr, true, List, if◌then◌else◌, Option, none, some, Text, any,
  text_eq, Bool-cases,
}
use forgewire_fabric.Prelude.Int.{ℤ, ◌<ℤ◌}
use forgewire_fabric.Policy.{PolicyDecision, allow, DispatchRequest, CompletionRequest}
use forgewire_fabric.Policy.Budget.{check_dispatch}
use forgewire_fabric.Policy.Budget.Weekly.{check_dispatch_iff, check_dispatch_cases}
use forgewire_fabric.Policy.Engine
use forgewire_fabric.Policy.Engine.{or_allow}
use forgewire_fabric.Policy.Engine.Options.{IsRefusal, Refuses}
use forgewire_fabric.Policy.Engine.Dispatch.{
  Permits, first_refusal, Refuses-first_refusal, evaluate_dispatch_allowed_iff,
  evaluate_dispatch-Permits,
}
use forgewire_fabric.Policy.Engine.Completion.{Refuses-completion}
use forgewire_fabric.Policy.Gate.{DispatchGate, gate_dispatch, gate_completion, gate_intent}

-- Allowed with no reason, or denied or held with exactly one.
abbrev pub IsDecision : PolicyDecision → Type 0
IsDecision d = (d ≡ allow) ⊎ IsRefusal d

decided : (o : Option PolicyDecision) → Refuses o → IsDecision (or_allow o)
decided none h = inl refl
decided (some d) h = inr h

module _ {F : Type 0} (g : DispatchGate F) where
  -- Every decision of the gate sets exactly one of its three flags, and gives no reason if it allows
  -- and one if not.
  pub gate-IsDecision :
      (req : DispatchRequest) (done : CompletionRequest) (action : Text)
      → IsDecision (gate_dispatch g req)
        × IsDecision (gate_completion g done)
        × IsDecision (gate_intent g action)
  unfolding gate_dispatch gate_completion gate_intent
  gate-IsDecision req done action = (
    elim (check_dispatch_cases g.budget) [
      | inl passes ↦ rw passes (
          unfold Engine.evaluate_dispatch first_refusal in
          decided _ (Refuses-first_refusal g.engine req))
      | inr (reason, stops) ↦ rw stops (inr (reason, inl refl))
    ],
    unfold Engine.evaluate_completion in decided _ (Refuses-completion g.engine done),
    unfold Engine.evaluate_intent in
        elim (Bool-cases (any (λ a. text_eq a action) g.engine.require_approval)) [
          | inl named ↦ rw named (inr (_, inr refl))
          | inr other ↦ rw other (inl refl)
        ],
  )

  pub gate_dispatch-Permits :
      (req : DispatchRequest)
      → ((gate_dispatch g req).allowed ≡ true) ↔ (
          ((limit : ℤ)
            → g.budget.policy.weekly_task_cap ≡ some limit
            → g.budget.tasks_this_week <ℤ limit)
          × Permits g.engine req)
  unfolding gate_dispatch
  gate_dispatch-Permits req = elim (check_dispatch_cases g.budget) [
    | inl passes ↦
        let permits = evaluate_dispatch-Permits g.engine req in
        let below = check_dispatch_iff g.budget in
        rw passes (λ h. (below.0 (rw passes), permits.0 h), λ h. permits.1 h.1)
    | inr (reason, stops) ↦
        let below = check_dispatch_iff g.budget in
        rw stops (λ h. cc, λ h. cc (ap (λ (d : PolicyDecision). d.allowed) stops, below.1 h.0))
  ]

  -- The gate allows a dispatch exactly if the week's count is below the cap, where there is one, the
  -- branch passes the three lists of branches, each scope overlaps no blocked scope, forbidden path
  -- or scope for approval, and the working directory of a command lies off the forbidden paths and
  -- within the scopes. The list `allowed_scope_globs` has no part in the decision: any other list
  -- gives the same one.
  pub gate_dispatch_allowed_iff :
      (req : DispatchRequest)
      → (((gate_dispatch g req).allowed ≡ true) ↔ (
          ((limit : ℤ)
            → g.budget.policy.weekly_task_cap ≡ some limit
            → g.budget.tasks_this_week <ℤ limit)
          × Permits g.engine req))
        × ((globs : List Text)
            → gate_dispatch
                (record g { engine = record g.engine { allowed_scope_globs = globs } })
                req
              ≡ gate_dispatch g req)
  unfolding gate_dispatch
  gate_dispatch_allowed_iff req = (
    gate_dispatch-Permits req,
    λ globs.
        ap (λ d. if (check_dispatch g.budget).denied then check_dispatch g.budget else d)
          ((evaluate_dispatch_allowed_iff g.engine req).1 globs),
  )
