-- ===== src/Hub/Dispatch/Promise.antt =====
-- crates/fabric-hub/src/routes/tasks.rs: what the answer to a signed dispatch has to say of the world.
use forgewire_fabric.Prelude.{
  [], ◌∷◌, some, none, Option, ◌≡◌, refl, ◌⊎◌, Bool, true, false, Option, none, some, List, Text,
  text,
}
use forgewire_fabric.Prelude.Int.{ℤ}
use forgewire_fabric.Prelude.Results.{err, okay}
use forgewire_fabric.Prelude.Json.{Json}
use forgewire_fabric.Policy.{BudgetPolicy, PolicyDecision}
use forgewire_fabric.Policy.Engine.Dispatch.{Permits}
use forgewire_fabric.Policy.Gate.{DispatchGate, gate_dispatch}
use forgewire_fabric.Hub.Authorities.{join}
use forgewire_fabric.Hub.Store.{StoreError, DispatcherRow, CreateTaskParams}
use forgewire_fabric.Hub.Dispatch.{
  SignedDispatchPayload, DispatchCalls, DispatchLibraries, held, queued,
}
use forgewire_fabric.Hub.Dispatch.Checks.{}
use forgewire_fabric.Policy.{DispatchRequest}
use forgewire_fabric.Hub.Dispatch.Funded.{IsFunded}
use forgewire_fabric.Hub.Dispatch.Vetted.{IsVetted}
use forgewire_fabric.Hub.Dispatch.Params.{dispatch_params}
use forgewire_fabric.Hub.Dispatch.Routes.{Dispatch, held_params, asked_approval}

module _ {W N E K : Type 0} (libraries : DispatchLibraries N E K)
    (calls : DispatchCalls W N libraries.float.F) (gate : DispatchGate libraries.float.F)
    (caps : BudgetPolicy libraries.float.F) (attribution : Json N)
    (p : SignedDispatchPayload N libraries.float.F) where
  open libraries use {crates, float}
  open calls use {
    utc_now, consume_dispatcher_nonce, create_or_get_pending_approval, create_task, append_audit,
    forgelink_enabled, route_approval,
  }

  -- Calls that make no task lead from one world to another.
  pub data Leads (u : W) : W → Type 0 where
    stays : Leads u u
    audits :
        {v : W} (kind : Text) (id : Option ℤ) (payload : Json N)
        → Leads u v
        → Leads u (append_audit kind id payload v)
    consumes :
        {v : W} (id nonce now : Text)
        → Leads u v
        → Leads u (consume_dispatcher_nonce id nonce now v).1
    asks :
        {v : W} (hash : Text) (decision : Json N) (label : Text) (branch : Option Text)
        (globs : List Text) (id : Option Text) (now : Text)
        → Leads u v
        → Leads u (create_or_get_pending_approval hash decision label branch globs id now v).1
    routes : {v : W} (request : Json N) → Leads u v → Leads u (route_approval request v).1

  abbrev branch_of : Text → Option Text
  branch_of [] = none
  branch_of (c ∷ b) = some (c ∷ b)

  -- What the gate is asked.
  abbrev pub request : DispatchRequest
  request = record {
    task_id = [];
    scope_globs = p.base.scope_globs;
    target_branch = branch_of p.base.branch;
    dispatcher_id = some p.dispatcher_id;
    kind = p.base.kind;
    cwd = p.base.cwd;
  }

  abbrev pub decision : PolicyDecision
  decision = gate_dispatch gate request

  -- The request passed the checks at w, its nonce was consumed, which left the world u, and the
  -- spending was below the caps.
  pub record IsCleared (w u : W) (dispatcher : DispatcherRow N) : Type 0 where
    pub is_vetted : IsVetted libraries calls gate caps attribution p w dispatcher
    pub is_fresh : consume_dispatcher_nonce p.dispatcher_id p.nonce (utc_now w) w ≡ (okay tt, u)
    pub is_funded : IsFunded libraries calls gate caps attribution p (utc_now u) u
    pub not_denied : decision.denied ≡ false

  -- The store is given what was checked.
  pub record IsRequested (params : CreateTaskParams N) : Type 0 where
    pub same_kind : params.kind ≡ p.base.kind
    pub same_branch : params.branch ≡ p.base.branch
    pub same_scopes : params.scope_globs ≡ p.base.scope_globs
    pub same_command : params.command ≡ p.base.command
    pub same_cwd : params.cwd ≡ p.base.cwd
    pub same_env : params.env ≡ p.base.env
    pub same_secrets : params.secrets_needed ≡ p.base.secrets_needed
    pub same_capabilities : params.required_capabilities ≡ p.base.required_capabilities

  pub dispatch_params-IsRequested :
      (dispatcher : DispatcherRow N) (d : PolicyDecision) (now : Text) (approval_id : Option Text)
      (required received : ℤ)
      → IsRequested
          (dispatch_params libraries p.base dispatcher d now approval_id required received)
  unfolding dispatch_params
  dispatch_params-IsRequested dispatcher d now approval_id required received = record {
    same_kind = refl;
    same_branch = refl;
    same_scopes = refl;
    same_command = refl;
    same_cwd = refl;
    same_env = refl;
    same_secrets = refl;
    same_capabilities = refl;
  }

  pub held_params-IsRequested :
      (dispatcher : DispatcherRow N) (d : PolicyDecision) (now approval_id : Text)
      → IsRequested
          (held_params libraries calls gate caps attribution p dispatcher d now approval_id)
  unfolding dispatch_params
  held_params-IsRequested dispatcher d now approval_id = record {
    same_kind = refl;
    same_branch = refl;
    same_scopes = refl;
    same_command = refl;
    same_cwd = refl;
    same_env = refl;
    same_secrets = refl;
    same_capabilities = refl;
  }

  -- What holds by the answer, and of the world v that it leaves.
  unfoldable pub IsSound : W → Dispatch W N → Type 0
  IsSound w (err e, v) =
      Leads w v
      ⊎ ((params : CreateTaskParams N) × (now : Text) × (u : W) × (e : StoreError) × Leads w u
          × (create_task params now u ≡ (err e, v)))
  IsSound w (okay (queued task), v) =
      (dispatcher : DispatcherRow N) × (u : W) × (x : W) × IsCleared w u dispatcher
      × (decision.needs_approval ≡ false)
      × Permits gate.engine request
      × (params : CreateTaskParams N) × IsRequested params
      × (params.initial_status ≡ none)
      × (create_task params (utc_now u) u ≡ (okay task, x))
      × (entry : Json N) × (v ≡ append_audit (text "dispatch") (some task.id) entry x)
  IsSound w (okay (held task approval_id reason routed), v) =
      (dispatcher : DispatcherRow N) × (u : W) × (y : W) × (x : W) × (created : Bool) × IsCleared w
        u dispatcher
      × (decision.needs_approval ≡ true)
      × (asked_approval libraries calls gate caps attribution p decision (utc_now u) u
          ≡ (okay (approval_id, created), y))
      × (params : CreateTaskParams N) × IsRequested params
      × (params.initial_status ≡ some (text "held"))
      × (params.approval_id ≡ some approval_id)
      × (create_task params (utc_now u) y ≡ (okay task, x))
      × (reason ≡ join (text "; ") decision.reasons)
      × Leads x v
