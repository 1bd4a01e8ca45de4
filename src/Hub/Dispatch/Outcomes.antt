-- ===== src/Hub/Dispatch/Outcomes.antt =====
-- crates/fabric-hub/src/routes/tasks.rs: what every answer to a signed dispatch says of the world.
use mathlib.Core.Path.{subst}
use forgewire_fabric.Prelude.{
  some, none, Option, ◌≡◌, refl, ap, inl, inr, Bool, true, false, Option, none, some, Text, text,
  if_ind,
}
use forgewire_fabric.Prelude.Results.{Result, err, okay}
use forgewire_fabric.Prelude.Json.{Json}
use forgewire_fabric.Policy.{BudgetPolicy, PolicyDecision}
use forgewire_fabric.Policy.Gate.{DispatchGate}
use forgewire_fabric.Hub.Authorities.{join}
use forgewire_fabric.Hub.Store.{StoreError, TaskRow, DispatcherRow}
use forgewire_fabric.Hub.Dispatch.{SignedDispatchPayload, DispatchCalls, DispatchLibraries}
use forgewire_fabric.Hub.Dispatch.Checks.{
  Halt, fails, recorded, checked, budget_denial, gate_request,
}
use forgewire_fabric.Hub.Dispatch.Funded.{budget_denial-IsFunded}
use forgewire_fabric.Hub.Dispatch.Vetted.{IsVetted, checked-IsVetted, passes-Permits}
use forgewire_fabric.Hub.Dispatch.Params.{dispatch_params}
use forgewire_fabric.Hub.Dispatch.Routes.{
  Dispatch, after_held, held_params, after_approval, asked_approval, after_create, queue_params,
  after_gate, after_budget, after_nonce, after_checks, dispatch_task_signed,
}
use forgewire_fabric.Hub.Dispatch.Promise.{
  Leads, stays, audits, consumes, asks, routes, decision, IsCleared, IsSound,
  dispatch_params-IsRequested, held_params-IsRequested,
}

module _ {W N E K : Type 0} (libraries : DispatchLibraries N E K)
    (calls : DispatchCalls W N libraries.float.F) (gate : DispatchGate libraries.float.F)
    (caps : BudgetPolicy libraries.float.F) (attribution : Json N)
    (p : SignedDispatchPayload N libraries.float.F) where
  open libraries use {crates, float}
  open calls use {
    utc_now, consume_dispatcher_nonce, create_or_get_pending_approval, create_task, append_audit,
    forgelink_enabled, route_approval,
  }

  abbrev verdict : PolicyDecision
  verdict = decision libraries calls gate caps attribution p

  abbrev Onward : W → W → Type 0
  Onward = Leads libraries calls gate caps attribution p

  abbrev Cleared : W → W → DispatcherRow N → Type 0
  Cleared = IsCleared libraries calls gate caps attribution p

  abbrev Sound : W → Dispatch W N → Type 0
  Sound = IsSound libraries calls gate caps attribution p

  module _ (w u : W) (dispatcher : DispatcherRow N) (c : Cleared w u dispatcher)
      (leads : Onward w u) where
    after_create-IsSound :
        (o : Result StoreError (TaskRow N) × W)
        → verdict.needs_approval ≡ false
        → create_task
            (queue_params libraries calls gate caps attribution p dispatcher verdict (utc_now u))
            (utc_now u)
            u
          ≡ o
        → Sound w (after_create libraries calls gate caps attribution p o)
    unfolding IsSound dispatch_params
    after_create-IsSound (err e, v) n h = inr (_, _, u, e, leads, h)
    after_create-IsSound (okay task, v) n h = (
      dispatcher,
      u,
      v,
      c,
      n,
      passes-Permits libraries calls gate caps attribution p
          (gate_request libraries calls gate caps attribution p) c.not_denied n,
      queue_params libraries calls gate caps attribution p dispatcher verdict (utc_now u),
      dispatch_params-IsRequested libraries calls gate caps attribution p dispatcher verdict
          (utc_now u) _ _ _,
      refl,
      h,
      _,
      refl,
    )

    after_held-IsSound :
        (approval_id : Text) (created : Bool) (y : W) (o : Result StoreError (TaskRow N) × W)
        → verdict.needs_approval ≡ true
        → asked_approval libraries calls gate caps attribution p verdict (utc_now u) u
          ≡ (okay (approval_id, created), y)
        → Onward w y
        → create_task
            (held_params libraries calls gate caps attribution p dispatcher verdict
              (utc_now u)
              approval_id)
            (utc_now u)
            y
          ≡ o
        → Sound w (
            after_held libraries calls gate caps attribution p approval_id
              (join (text "; ") verdict.reasons)
              o)
    unfolding IsSound dispatch_params
    after_held-IsSound id created y (err e, v) n a l h = inr (_, _, y, e, l, h)
    after_held-IsSound id created y (okay task, v) n a l h =
        if_ind (Sound w) forgelink_enabled _ _
          (λ on. (
            dispatcher,
            u,
            y,
            v,
            created,
            c,
            n,
            a,
            held_params libraries calls gate caps attribution p dispatcher verdict (utc_now u) id,
            held_params-IsRequested libraries calls gate caps attribution p dispatcher verdict
                (utc_now u) id,
            refl,
            refl,
            h,
            refl,
            audits _ _ _ (routes _ (audits _ _ _ stays)),
          ))
          (λ off. (
            dispatcher,
            u,
            y,
            v,
            created,
            c,
            n,
            a,
            held_params libraries calls gate caps attribution p dispatcher verdict (utc_now u) id,
            held_params-IsRequested libraries calls gate caps attribution p dispatcher verdict
                (utc_now u) id,
            refl,
            refl,
            h,
            refl,
            audits _ _ _ stays,
          ))

    after_approval-IsSound :
        (o : Result StoreError (Text × Bool) × W)
        → verdict.needs_approval ≡ true
        → asked_approval libraries calls gate caps attribution p verdict (utc_now u) u ≡ o
        → Sound w (
            after_approval libraries calls gate caps attribution p dispatcher verdict
              (utc_now u)
              (join (text "; ") verdict.reasons)
              o)
    after_approval-IsSound (err e, y) n a =
        unfold IsSound in inl (subst (Onward w) (ap (λ o. o.1) a) (asks _ _ _ _ _ _ _ leads))
    after_approval-IsSound (okay (id, created), y) n a =
        after_held-IsSound id created y _ n a
          (subst (Onward w) (ap (λ o. o.1) a) (asks _ _ _ _ _ _ _ leads)) refl

  after_gate-IsSound :
      (w u : W) (dispatcher : DispatcherRow N)
      → (verdict.denied ≡ false → Cleared w u dispatcher)
      → Onward w u
      → Sound w
          (after_gate libraries calls gate caps attribution p dispatcher verdict (utc_now u) u)
  after_gate-IsSound w u dispatcher c leads =
      if_ind (Sound w) verdict.denied _ _ (λ denied. unfold IsSound in inl (audits _ _ _ leads))
        (λ passes.
          if_ind (Sound w) verdict.needs_approval _ _
            (λ needed. after_approval-IsSound w u dispatcher (c passes) leads _ needed refl)
            (λ free. after_create-IsSound w u dispatcher (c passes) leads _ free refl))

  module _ (w : W) (dispatcher : DispatcherRow N)
      (is_vetted : IsVetted libraries calls gate caps attribution p w dispatcher) where
    after_budget-IsSound :
        (u : W) (r : Result StoreError (Option Text))
        → consume_dispatcher_nonce p.dispatcher_id p.nonce (utc_now w) w ≡ (okay tt, u)
        → Onward w u
        → budget_denial libraries calls gate caps attribution p (utc_now u) u ≡ r
        → Sound w (after_budget libraries calls gate caps attribution p dispatcher (utc_now u) r u)
    after_budget-IsSound u (err e) f l h = unfold IsSound in inl l
    after_budget-IsSound u (okay (some reason)) f l h = unfold IsSound in inl (audits _ _ _ l)
    after_budget-IsSound u (okay none) f l h =
        after_gate-IsSound w u dispatcher
          (λ n. record {
            is_vetted = is_vetted;
            is_fresh = f;
            is_funded =
                budget_denial-IsFunded libraries calls gate caps attribution p (utc_now u) u h;
            not_denied = n;
          })
          l

    after_nonce-IsSound :
        (o : Result StoreError (Unit {0}) × W)
        → consume_dispatcher_nonce p.dispatcher_id p.nonce (utc_now w) w ≡ o
        → Sound w (after_nonce libraries calls gate caps attribution p dispatcher o)
    after_nonce-IsSound (err e, u) h =
        unfold IsSound in inl (subst (Onward w) (ap (λ o. o.1) h) (consumes _ _ _ stays))
    after_nonce-IsSound (okay x, u) h =
        after_budget-IsSound u _ h (subst (Onward w) (ap (λ o. o.1) h) (consumes _ _ _ stays)) refl

  after_checks-IsSound :
      (w : W) (r : Result (Halt N) (DispatcherRow N))
      → checked libraries calls gate caps attribution p w ≡ r
      → Sound w (after_checks libraries calls gate caps attribution p r w)
  after_checks-IsSound w (err (fails status message)) h = unfold IsSound in inl stays
  after_checks-IsSound w (err (recorded kind payload status message)) h =
      unfold IsSound in inl (audits _ _ _ stays)
  after_checks-IsSound w (okay dispatcher) h =
      after_nonce-IsSound w dispatcher
        (checked-IsVetted libraries calls gate caps attribution p w dispatcher h) _ refl

  -- A task is put in the queue only if the key of a registered dispatcher verifies the signature over
  -- an envelope with the fields of the request that are signed, from its title to its nonce, in time;
  -- its kind is one of the two; a command comes with its argv and with the digest of its environment,
  -- which the envelope then has too; the store took the nonce; for each cap on cost the spending that
  -- the store tells of is below it; and the gate is asked about its branch, scopes, kind and working
  -- directory, and they pass the lists of the policy that it looks at. A task is held under the same
  -- checks, but for the lists, if the gate asks for an approval, with the approval of the store and
  -- the status `held`. Every other answer leaves a world that only audit entries, the nonce, the
  -- approval and its way to ForgeLink lead to, unless the store itself fails to make the task.
  pub dispatch-IsSound :
      (w : W)
      → IsSound libraries calls gate caps attribution p w
          (dispatch_task_signed libraries calls gate caps attribution p w)
  unfolding dispatch_task_signed
  dispatch-IsSound w = after_checks-IsSound w _ refl
