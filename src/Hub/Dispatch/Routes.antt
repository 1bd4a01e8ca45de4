-- ===== src/Hub/Dispatch/Routes.antt =====
-- crates/fabric-hub/src/routes/tasks.rs: the route for a signed dispatch. After the checks it consumes
-- the nonce, asks the budget and the gate, and makes the task, or one that is held for an approval.
use forgewire_fabric.Prelude.{
  ℕ, Bool, true, Option, none, some, List, [], ◌∷◌, ◌++◌, Text, text, if◌then◌else◌,
}
use forgewire_fabric.Prelude.Int.{ℤ, pos}
use forgewire_fabric.Prelude.Results.{Result, err, okay}
use forgewire_fabric.Prelude.Json.{bool, number, Json, scalar, string_value, object}
use forgewire_fabric.Protocol.{canonicalize}
use forgewire_fabric.Policy.{BudgetPolicy, PolicyDecision}
use forgewire_fabric.Policy.Budget.{is_some}
use forgewire_fabric.Policy.Gate.{DispatchGate, gate_dispatch}
use forgewire_fabric.Hub.Authorities.{join}
use forgewire_fabric.Hub.Store.{StoreError, store_text, TaskRow, DispatcherRow, CreateTaskParams}
use forgewire_fabric.Hub.Dispatch.{
  SignedDispatchPayload, DispatchCalls, DispatchLibraries, Dispatched, held, queued, opt_value,
  texts_value, or_no_bytes, env_keys, has_signed_command, dispatch_envelope,
}
use forgewire_fabric.Hub.Dispatch.Params.{dispatch_params}
use forgewire_fabric.Hub.Dispatch.Forgelink.{build_approval_request}
use forgewire_fabric.Hub.Dispatch.Checks.{
  Halt, fails, recorded, nonce_error, or_null, checked, budget_denial, gate_request,
}

-- An answer, or a status with a message, and the world after it.
abbrev pub Dispatch : Type 0 → Type 0 → Type 0
Dispatch W N = Result (ℕ × Text) (Dispatched N) × W

abbrev okay_of : Result Text Text → Option Text
okay_of (err e) = none
okay_of (okay s) = some s

module _ {W N E K : Type 0} (libraries : DispatchLibraries N E K)
    (calls : DispatchCalls W N libraries.float.F) (gate : DispatchGate libraries.float.F)
    (caps : BudgetPolicy libraries.float.F) (attribution : Json N)
    (p : SignedDispatchPayload N libraries.float.F) where
  open libraries use {crates, hex_sha256, from_i64}
  open calls use {
    utc_now, consume_dispatcher_nonce, create_or_get_pending_approval, create_task, append_audit,
    forgelink_enabled, route_approval,
  }

  abbrev task_id : TaskRow N → Json N
  task_id task = scalar (number (from_i64 task.id))

  abbrev routed_audit : Text → Result Text Text → Text × Json N
  routed_audit approval_id (okay fl_id) = (
    text "forgelink_routed",
    object (
        (text "approval_id", string_value approval_id)
        ∷ (text "forgelink_request_id", string_value fl_id)
        ∷ (text "attribution", attribution)
        ∷ []),
  )
  routed_audit approval_id (err e) = (
    text "forgelink_unavailable",
    object (
        (text "approval_id", string_value approval_id)
        ∷ (text "error", string_value e)
        ∷ (text "fallback", string_value (text "fabric_builtin_pane"))
        ∷ (text "attribution", attribution)
        ∷ []),
  )

  -- An approval that was sent to ForgeLink, with the answer in the audit log.
  abbrev pub after_route : TaskRow N → Text → Text → Result Text Text × W → Dispatch W N
  after_route task approval_id reason (r, w) =
      let entry = routed_audit approval_id r in
      (
        okay (held task approval_id reason (okay_of r)),
        append_audit entry.0 (some task.id) entry.1 w,
      )

  abbrev route : TaskRow N → Text → Text → W → Dispatch W N
  route task approval_id reason w =
      if forgelink_enabled
      then after_route task approval_id reason (
          route_approval
            (build_approval_request approval_id p.base.title reason p.base.kind
              (or_null p.base.branch) p.base.scope_globs (text "forgewire-fabric"))
            w)
      else (okay (held task approval_id reason none), w)

  abbrev pub held_audit : Text → Text → Json N
  held_audit approval_id reason = object (
      (text "reason", string_value reason)
      ∷ (text "approval_id", string_value approval_id)
      ∷ (text "signed", scalar (bool true))
      ∷ (text "dispatcher_id", string_value p.dispatcher_id)
      ∷ (text "kind", string_value p.base.kind)
      ∷ (text "title", string_value p.base.title)
      ∷ (text "attribution", attribution)
      ∷ [])

  abbrev pub after_held : Text → Text → Result StoreError (TaskRow N) × W → Dispatch W N
  after_held approval_id reason (err e, w) = (err (500, store_text e), w)
  after_held approval_id reason (okay task, w) =
      route task approval_id reason
        (append_audit (text "dispatch_held") (some task.id) (held_audit approval_id reason) w)

  abbrev pub held_params : DispatcherRow N → PolicyDecision → Text → Text → CreateTaskParams N
  held_params dispatcher decision now approval_id =
      record (dispatch_params libraries p.base dispatcher decision now (some approval_id) (pos 1)
        (pos 0)) { initial_status = some (text "held") }

  abbrev pub after_approval :
      DispatcherRow N
      → PolicyDecision
      → Text
      → Text
      → Result StoreError (Text × Bool) × W
      → Dispatch W N
  after_approval dispatcher decision now reason (err e, w) = (err (500, store_text e), w)
  after_approval dispatcher decision now reason (okay (approval_id, created), w) =
      after_held approval_id reason
        (create_task (held_params dispatcher decision now approval_id) now w)

  abbrev pub asked_approval : PolicyDecision → Text → W → Result StoreError (Text × Bool) × W
  asked_approval decision now w =
      create_or_get_pending_approval
        (hex_sha256 (or_no_bytes (canonicalize crates (dispatch_envelope libraries p))))
        (object (
          (text "reason", string_value (join (text "; ") decision.reasons))
          ∷ (text "kind", string_value p.base.kind)
          ∷ []))
        p.base.title (or_null p.base.branch) p.base.scope_globs (some p.dispatcher_id) now w

  abbrev dispatch_audit : TaskRow N → Json N
  dispatch_audit task =
      let common =
        (text "task_id", task_id task)
        ∷ (text "title", string_value task.title)
        ∷ (text "base_commit", string_value task.base_commit)
        ∷ (text "branch", string_value task.branch)
        ∷ (text "scope_globs", task.scope_globs)
        ∷ (text "signed", scalar (bool true))
        ∷ (text "dispatcher_id", string_value p.dispatcher_id)
        ∷ (text "approval_id", opt_value string_value p.base.approval_id)
        ∷ [] in
      let loom =
        (text "loom_command", opt_value texts_value p.base.command)
        ∷ (text "loom_cwd", opt_value string_value p.base.cwd)
        ∷ (text "loom_env_keys", texts_value (env_keys p.base.env))
        ∷ [] in
      let rest = (text "attribution", attribution) ∷ [] in
      if has_signed_command libraries p
      then object (common ++ (loom ++ rest))
      else object (common ++ rest)

  abbrev pub after_create : Result StoreError (TaskRow N) × W → Dispatch W N
  after_create (err e, w) = (err (500, store_text e), w)
  after_create (okay task, w) =
      (okay (queued task), append_audit (text "dispatch") (some task.id) (dispatch_audit task) w)

  -- `i64::from(approval_id.is_some())`
  abbrev pub approvals : ℤ
  approvals = if is_some p.base.approval_id then pos 1 else pos 0

  abbrev pub queue_params : DispatcherRow N → PolicyDecision → Text → CreateTaskParams N
  queue_params dispatcher decision now =
      dispatch_params libraries p.base dispatcher decision now p.base.approval_id approvals
        approvals

  abbrev denied_audit : Text → Text → List (Text × Json N) → Json N
  denied_audit reason detail kind = object (
      ((text "reason", string_value reason)
        ∷ (text "detail", string_value detail)
        ∷ (text "signed", scalar (bool true))
        ∷ (text "dispatcher_id", string_value p.dispatcher_id)
        ∷ [])
      ++ (kind ++ ((text "attribution", attribution) ∷ [])))

  -- What follows the decision of the gate.
  abbrev pub after_gate : DispatcherRow N → PolicyDecision → Text → W → Dispatch W N
  after_gate dispatcher decision now w =
      let reason = join (text "; ") decision.reasons in
      if decision.denied
      then (
        err (403, text "dispatch denied by policy: " ++ reason),
        append_audit (text "dispatch_denied") none
            (denied_audit (text "policy_denied") reason
              ((text "kind", string_value p.base.kind) ∷ []))
            w,
      )
      else if decision.needs_approval
      then after_approval dispatcher decision now reason (asked_approval decision now w)
      else after_create (create_task (queue_params dispatcher decision now) now w)

  abbrev pub after_budget :
      DispatcherRow N → Text → Result StoreError (Option Text) → W → Dispatch W N
  after_budget dispatcher now (err e) w = (err (500, store_text e), w)
  after_budget dispatcher now (okay (some reason)) w = (
    err (402, reason),
    append_audit (text "dispatch_denied") none (denied_audit (text "budget_exceeded") reason []) w,
  )
  after_budget dispatcher now (okay none) w =
      after_gate dispatcher
        (gate_dispatch gate (gate_request libraries calls gate caps attribution p)) now w

  abbrev pub after_nonce : DispatcherRow N → Result StoreError (Unit {0}) × W → Dispatch W N
  after_nonce dispatcher (err e, w) = (err (nonce_error e), w)
  after_nonce dispatcher (okay u, w) =
      after_budget dispatcher (utc_now w)
        (budget_denial libraries calls gate caps attribution p (utc_now w) w) w

  abbrev pub after_checks : Result (Halt N) (DispatcherRow N) → W → Dispatch W N
  after_checks (err (fails status message)) w = (err (status, message), w)
  after_checks (err (recorded kind payload status message)) w =
      (err (status, message), append_audit kind none payload w)
  after_checks (okay dispatcher) w =
      after_nonce dispatcher (consume_dispatcher_nonce p.dispatcher_id p.nonce (utc_now w) w)

  unfoldable pub dispatch_task_signed : W → Dispatch W N
  dispatch_task_signed w = after_checks (checked libraries calls gate caps attribution p w) w
