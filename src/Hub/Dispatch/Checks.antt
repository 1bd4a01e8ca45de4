-- ===== src/Hub/Dispatch/Checks.antt =====
-- crates/fabric-hub/src/routes/tasks.rs and utils.rs: what a signed dispatch is checked for.
use forgewire_fabric.Prelude.{
  ℕ, Bool, true, false, not, ◌&&◌, ◌||◌, Option, none, some, List, [], ◌∷◌, ◌++◌, Text, text,
  text_eq, is_empty, if◌then◌else◌,
}
use forgewire_fabric.Prelude.Results.{map_err, Result, err, okay, and_then, ◌>>=◌}
use forgewire_fabric.Prelude.Json.{bool, Json, scalar, string_value, object}
use forgewire_fabric.Policy.{BudgetPolicy, PolicyDecision, DispatchRequest}
use forgewire_fabric.Policy.Budget.{has_cost_caps, check_cost}
use forgewire_fabric.Policy.Gate.{DispatchGate}
use forgewire_fabric.Hub.Store.{
  StoreError, not_found, permission_denied, store_text, DispatcherRow, CurrentBudget,
}
use forgewire_fabric.Hub.Signed.{check_skew, verify_sig}
use forgewire_fabric.Hub.Dispatch.{
  SignedDispatchPayload, DispatchCalls, DispatchLibraries, env_digest, is_command,
  has_signed_command, dispatch_envelope,
}

-- Why a request stops before its nonce is consumed: a status with a message, and before it perhaps
-- an entry of the audit log.
pub data Halt (N : Type 0) : Type 0 where
  fails : ℕ → Text → Halt N
  recorded : Text → Json N → ℕ → Text → Halt N

abbrev pub demand : {N : Type 0} → Bool → Halt N → Result (Halt N) (Unit {0})
demand true halt = okay tt
demand false halt = err halt

abbrev pub dispatcher_of :
    {N : Type 0} → Result StoreError (DispatcherRow N) → Result (Halt N) (DispatcherRow N)
dispatcher_of (okay d) = okay d
dispatcher_of (err (not_found e)) = err (fails 404 (text "dispatcher not registered"))
dispatcher_of (err e) = err (fails 500 (store_text e))

abbrev pub nonce_error : StoreError → ℕ × Text
nonce_error (not_found e) = (404, text "dispatcher not registered")
nonce_error (permission_denied m) = (403, m)
nonce_error e = (500, store_text e)

abbrev first_or : List Text → Text
first_or [] = text "budget exceeded"
first_or (r ∷ rs) = r

abbrev pub or_null : Text → Option Text
or_null [] = none
or_null (c ∷ s) = some (c ∷ s)

module _ {W N E K : Type 0} (libraries : DispatchLibraries N E K)
    (calls : DispatchCalls W N libraries.float.F) (gate : DispatchGate libraries.float.F)
    (caps : BudgetPolicy libraries.float.F) (attribution : Json N)
    (p : SignedDispatchPayload N libraries.float.F) where
  open libraries use {crates, print_hex, hex_sha256, from_i64, float}
  open calls use {
    unix_secs, utc_now, get_dispatcher, consume_dispatcher_nonce, current_budget,
    create_or_get_pending_approval, create_task, append_audit, forgelink_enabled, route_approval,
  }

  abbrev pub digest_matches : Option Text → Bool
  digest_matches none = true
  digest_matches (some signed) = text_eq (env_digest libraries p.base.env) signed

  -- The part that reads only.
  unfoldable pub checked : W → Result (Halt N) (DispatcherRow N)
  checked w = do
    u ← map_err (fails 422) (check_skew p.timestamp (unix_secs w))
    x ←
        demand (not (is_empty p.base.kind))
          (fails 400 (text "kind is required (one of: agent, command)"))
    y ←
        demand (text_eq p.base.kind (text "agent") || text_eq p.base.kind (text "command"))
          (fails 400 (text "kind must be 'agent' or 'command'; got '" ++ (p.base.kind ++ text "'")))
    dispatcher ← dispatcher_of (get_dispatcher p.dispatcher_id w)
    v ← map_err (fails 403) (
        verify_sig crates print_hex dispatcher.public_key (dispatch_envelope libraries p)
          p.signature)
    a ← demand (not (is_command libraries p && not (has_signed_command libraries p))) (
        recorded (text "legacy_loom_unsigned_command")
          (object (
            (text "dispatcher_id", string_value p.dispatcher_id)
            ∷ (text "title", string_value p.base.title)
            ∷ (
              text "warning",
              string_value (text "command/cwd/env not covered by dispatcher signature; rejected"),
            )
            ∷ (text "attribution", attribution)
            ∷ []))
          403
          (text
            "unsigned Loom command brief rejected: dispatcher must sign command/cwd/env fields (upgrade to M2.9.1+)"))
    b ← demand (not (has_signed_command libraries p) || digest_matches p.base.loom_env_digest) (
        recorded (text "dispatch_denied")
          (object (
            (text "reason", string_value (text "loom_env_digest_mismatch"))
            ∷ (text "signed", scalar (bool true))
            ∷ (text "dispatcher_id", string_value p.dispatcher_id)
            ∷ (text "attribution", attribution)
            ∷ []))
          400 (text "loom_env_digest does not match the env map in the brief"))
    okay dispatcher

  abbrev pub denial : PolicyDecision → Option Text
  denial d = if d.denied then some (first_or d.reasons) else none

  unfoldable pub budget_denial : Text → W → Result StoreError (Option Text)
  budget_denial now w =
      if not (has_cost_caps caps)
      then okay none
      else and_then (current_budget now w) (λ (b : CurrentBudget float.F).
        okay (denial (check_cost float caps b.daily_spend_usd b.weekly_spend_usd)))

  abbrev pub gate_request : DispatchRequest
  gate_request = record {
    task_id = [];
    scope_globs = p.base.scope_globs;
    target_branch = or_null p.base.branch;
    dispatcher_id = some p.dispatcher_id;
    kind = p.base.kind;
    cwd = p.base.cwd;
  }
