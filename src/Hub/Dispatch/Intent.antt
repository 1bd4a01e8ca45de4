-- ===== src/Hub/Dispatch/Intent.antt =====
-- crates/fabric-hub/src/routes/tasks.rs: what a runner asks before an action, and the unsigned
-- dispatch, which is refused.
use forgewire_fabric.Prelude.{ℕ, Option, some, [], ◌∷◌, Text, text, if◌then◌else◌}
use forgewire_fabric.Prelude.Int.{ℤ}
use forgewire_fabric.Prelude.Results.{Result, err, okay}
use forgewire_fabric.Prelude.Json.{Json, bool, scalar, string_value, object}
use forgewire_fabric.Policy.{PolicyDecision}
use forgewire_fabric.Policy.Budget.{is_some}
use forgewire_fabric.Policy.Gate.{DispatchGate, gate_intent}
use forgewire_fabric.Hub.Store.{StoreError, store_text, TaskRow}
use forgewire_fabric.Hub.Dispatch.{opt_value, texts_value}
use forgewire_fabric.Hub.Dispatch.Params.{policy_evidence}

pub record IntentPayload : Type 0 where
  pub kind : Text
  pub worker_id : Option Text
  pub command : Option Text

pub record IntentCalls (W N : Type 0) : Type 0 where
  pub utc_now : W → Text
  pub append_task_policy_decision : ℤ → Json N → W → Result StoreError (TaskRow N) × W
  pub append_audit : Text → Option ℤ → Json N → W → W

unfoldable pub dispatch_task : Result (ℕ × Text) (Unit {0})
dispatch_task = err (426, text "protocol v3 requires signed dispatch via POST /tasks/v2")

module _ {W N F : Type 0} (calls : IntentCalls W N) (gate : DispatchGate F) (attribution : Json N)
    (task_id : ℤ) (p : IntentPayload) where
  open calls use {utc_now, append_task_policy_decision, append_audit}

  abbrev intent_audit : PolicyDecision → Json N
  intent_audit decision = object (
      (text "kind", string_value p.kind)
      ∷ (text "worker_id", opt_value string_value p.worker_id)
      ∷ (text "command", opt_value string_value p.command)
      ∷ (text "allowed", scalar (bool decision.allowed))
      ∷ (text "reasons", texts_value decision.reasons)
      ∷ (text "actor", attribution)
      ∷ [])

  abbrev intent_evidence : PolicyDecision → W → Json N
  intent_evidence decision w = policy_evidence (text "intent") decision (utc_now w) (
      object (
        (text "kind", string_value p.kind)
        ∷ (text "worker_id", opt_value string_value p.worker_id)
        ∷ (text "command_present", scalar (bool (is_some p.command)))
        ∷ []))

  abbrev after_evidence :
      PolicyDecision → Result StoreError (TaskRow N) × W → Result (ℕ × Text) PolicyDecision × W
  after_evidence decision (err e, w) = (err (500, store_text e), w)
  after_evidence decision (okay t, w) = (
    okay decision,
    append_audit (if decision.allowed then text "intent_allowed" else text "intent_denied")
        (some task_id) (intent_audit decision) w,
  )

  -- The decision is the answer.
  unfoldable pub evaluate_intent : W → Result (ℕ × Text) PolicyDecision × W
  evaluate_intent w =
      let decision = gate_intent gate p.kind in
      after_evidence decision (append_task_policy_decision task_id (intent_evidence decision w) w)
