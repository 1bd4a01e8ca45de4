-- ===== src/Hub/Dispatch/Forgelink.antt =====
-- crates/fabric-hub/src/forgelink.rs: the request for an approval that ForgeLink gets.
use forgewire_fabric.Prelude.{
  ◌||◌, Option, none, some, List, [], ◌∷◌, ◌++◌, Text, text, text_eq, if◌then◌else◌,
}
use forgewire_fabric.Prelude.Json.{Json, arr, items, string_value, object}
use forgewire_fabric.Hub.Dispatch.{texts_value}

abbrev authority_for_kind : Text → Text
authority_for_kind kind =
    if text_eq kind (text "merge") || text_eq kind (text "push") || text_eq kind (text "release")
    then text "release_approval"
    else text "general_approval"

abbrev branch_note : Option Text → Text
branch_note none = []
branch_note (some b) = text " on branch " ++ b

module _ {N : Type 0} where
  abbrev decision_option : Text → Text → Json N
  decision_option id label =
      object ((text "id", string_value id) ∷ (text "label", string_value label) ∷ [])

  abbrev evidence_pack : Text → Text → Option Text → List Text → Json N
  evidence_pack title kind branch resources = object (
      (
        text "summary",
        string_value (text "Fabric is holding \"" ++ (title ++ text "\" pending approval.")),
      )
      ∷ (text "affected_resources", texts_value resources)
      ∷ (
        text "diff_summary",
        string_value (text "Diff not transmitted to ForgeLink; review in Fabric."),
      )
      ∷ (
        text "proposed_operation",
        string_value (text "Fabric dispatch of kind " ++ (kind ++ branch_note branch)),
      )
      ∷ (text "checks", texts_value (text "fabric policy gate: needs_approval" ∷ []))
      ∷ (
        text "rollback_plan",
        string_value (text "Deny to keep the task held; no action runs without approval."),
      )
      ∷ (text "links", texts_value [])
      ∷ (
        text "limitations",
        string_value (text "Evidence summarized by Fabric; full context lives in the Fabric hub."),
      )
      ∷ (text "redaction_profile", string_value (text "desktop_full"))
      ∷ [])

  unfoldable pub build_approval_request :
      Text → Text → Text → Text → Option Text → List Text → Text → Json N
  build_approval_request approval_id title reason kind branch scope_globs source = object (
      (text "id", string_value (text "fabric-" ++ approval_id))
      ∷ (text "kind", string_value (text "approval_request"))
      ∷ (text "source", string_value source)
      ∷ (text "source_kind", string_value (text "forgewire_fabric"))
      ∷ (text "urgency", string_value (text "normal"))
      ∷ (text "title", string_value title)
      ∷ (text "body", string_value reason)
      ∷ (text "intent", string_value (text "Fabric dispatch requires approval: " ++ title))
      ∷ (
        text "requested_action",
        string_value (text "Run the held Fabric task (" ++ (kind ++ text ")")),
      )
      ∷ (text "reason_for_interrupt", string_value reason)
      ∷ (text "risk", string_value (text "normal"))
      ∷ (text "required_authority", string_value (authority_for_kind kind))
      ∷ (text "to_human", string_value (text "operator:primary"))
      ∷ (text "affected_resources", texts_value scope_globs)
      ∷ (text "timeout_behavior", string_value (text "deny_on_timeout"))
      ∷ (text "deny_behavior", string_value (text "do_not_run"))
      ∷ (text "expected_response_time", string_value (text "soon"))
      ∷ (text "no_response_behavior", string_value (text "deny_on_timeout"))
      ∷ (
        text "decision_options",
        arr (
            items (
              decision_option (text "approve") (text "Approve")
              ∷ decision_option (text "deny") (text "Deny")
              ∷ [])),
      )
      ∷ (text "template_id", string_value (text "git_commit"))
      ∷ (text "evidence_pack", evidence_pack title kind branch scope_globs)
      ∷ [])
