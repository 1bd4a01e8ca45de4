-- ===== src/Hub/Dispatch/Params.antt =====
-- crates/fabric-hub/src/routes/tasks.rs: what the store is given for a task, with its provenance, and
-- the evidence of the policy's decision.
use forgewire_fabric.Prelude.{
  Option, none, some, List, [], ◌∷◌, ◌++◌, Text, text, text_eq, trim, is_empty, if◌then◌else◌,
}
use forgewire_fabric.Prelude.Int.{ℤ}
use forgewire_fabric.Prelude.Utf8.{as_bytes}
use forgewire_fabric.Prelude.Results.{Result, err, okay}
use forgewire_fabric.Prelude.Json.{
  null, bool, string, Json, scalar, arr, obj, get_field, string_value, object, items,
}
use forgewire_fabric.Protocol.{Bytes}
use forgewire_fabric.Policy.{PolicyDecision}
use forgewire_fabric.Hub.Store.{DispatcherRow, CreateTaskParams}
use forgewire_fabric.Hub.Dispatch.{DispatchPayload, DispatchLibraries, texts_value}

abbrev pub or_else {ℓ} : {A : Type ℓ} → Option A → Option A → Option A
or_else none b = b
or_else (some a) b = some a

module _ {N : Type 0} where
  abbrev pub field_of : Json N → Text → Option (Json N)
  field_of (obj fs) key = get_field key fs
  field_of (arr xs) key = none
  field_of (scalar s) key = none

  -- A text that is not blank, trimmed.
  abbrev filled : Option (Json N) → Option Text
  filled (some (scalar (string s))) = let t = trim s in if is_empty t then none else some t
  filled (some v) = none
  filled none = none

  abbrev value_in : Json N → List Text → Option Text
  value_in source [] = none
  value_in source (key ∷ keys) = or_else (filled (field_of source key)) (value_in source keys)

  abbrev actor_value : Json N → Json N → List Text → Option Text
  actor_value request registered keys = or_else (value_in request keys) (value_in registered keys)

  abbrev metadata_or_empty : Json N → Json N
  metadata_or_empty (scalar null) = object []
  metadata_or_empty v = v

  abbrev pub policy_evidence : Text → PolicyDecision → Text → Json N → Json N
  policy_evidence stage decision at context = object (
      (text "stage", string_value stage)
      ∷ (text "at", string_value at)
      ∷ (text "allowed", scalar (bool decision.allowed))
      ∷ (text "denied", scalar (bool decision.denied))
      ∷ (text "needs_approval", scalar (bool decision.needs_approval))
      ∷ (text "reasons", texts_value decision.reasons)
      ∷ (text "context", context)
      ∷ [])

module _ {N E K : Type 0} (libraries : DispatchLibraries N E K) where
  open libraries use {crates, hex_sha256, float}

  abbrev bytes_or : Text → Result E Bytes → Bytes
  bytes_or key (err e) = as_bytes key
  bytes_or key (okay b) = b

  abbrev pub public_key_fingerprint : Text → Text
  public_key_fingerprint key = text "sha256:" ++ hex_sha256 (bytes_or key (crates.decode key))

  abbrev dispatch_kind : DispatchPayload N float.F → Option Text
  dispatch_kind p =
      or_else p.dispatch (if text_eq p.kind (text "agent") then some (text "prompt") else none)

  unfoldable pub dispatch_params :
      DispatchPayload N float.F
      → DispatcherRow N
      → PolicyDecision
      → Text
      → Option Text
      → ℤ
      → ℤ
      → CreateTaskParams N
  dispatch_params p dispatcher decision now approval_id approvals_required approvals_received =
      record {
        title = p.title;
        prompt = p.prompt;
        scope_globs = p.scope_globs;
        base_commit = p.base_commit;
        branch = p.branch;
        todo_id = p.todo_id;
        timeout_minutes = p.timeout_minutes;
        priority = p.priority;
        kind = p.kind;
        metadata = metadata_or_empty p.metadata;
        required_tools = p.required_tools;
        required_tags = p.required_tags;
        tenant = p.tenant;
        workspace_root = p.workspace_root;
        require_base_commit = p.require_base_commit;
        required_capabilities = p.required_capabilities;
        secrets_needed = p.secrets_needed;
        network_egress = p.network_egress;
        dispatcher_id = some dispatcher.dispatcher_id;
        dispatch = dispatch_kind p;
        skill = p.skill;
        tool = p.tool;
        command = p.command;
        cwd = p.cwd;
        env = p.env;
        initial_status = none;
        dispatched_by_user =
            or_else
              (actor_value p.metadata dispatcher.metadata
                (text "user" ∷ text "username" ∷ text "operator" ∷ []))
              (some dispatcher.label);
        dispatched_by_host =
            or_else
              (actor_value p.metadata dispatcher.metadata (text "host" ∷ text "hostname" ∷ []))
              dispatcher.hostname;
        dispatched_by_agent =
            or_else
              (actor_value p.metadata dispatcher.metadata
                (text "agent" ∷ text "agent_type" ∷ text "source" ∷ text "client" ∷ []))
              (some dispatcher.label);
        dispatcher_pubkey_fingerprint = some (public_key_fingerprint dispatcher.public_key);
        approval_id = approval_id;
        policy_decisions = arr (
            items (
              policy_evidence (text "dispatch") decision now (
                object (
                  (text "dispatcher_id", string_value dispatcher.dispatcher_id)
                  ∷ (text "kind", string_value p.kind)
                  ∷ (text "branch", string_value p.branch)
                  ∷ []))
              ∷ []));
        approvals_required = approvals_required;
        approvals_received = approvals_received;
      }
