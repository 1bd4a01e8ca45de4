-- ===== src/Policy/Engine.antt =====
-- `PolicyEngine` of crates/fabric-policy/src/lib.rs. A function that may return early gives the
-- decision, or none to go on.
pub mod Options
pub mod Dispatch
pub mod Completion
pub mod Masking
use forgewire_fabric.Prelude.{
  Bool, true, false, not, ◌&&◌, ◌||◌, Option, none, some, List, [], ◌∷◌, ◌++◌, Text, text, text_eq,
  starts_with, trim_end_matches, any, is_empty, first_some, if◌then◌else◌,
}
use forgewire_fabric.Prelude.Int.{ℤ, ltb_ℤ, decimal_ℤ}
use forgewire_fabric.Policy.{
  FabricPolicy, PolicyDecision, allow, deny, require_approval, DispatchRequest, CompletionRequest,
}
use forgewire_fabric.Policy.Globs.{glob_match, trim_wildcards, scopes_overlap}

-- What returned early, or what comes next.
abbrev pub or_next : Option PolicyDecision → Option PolicyDecision → Option PolicyDecision
or_next (some d) next = some d
or_next none next = next

abbrev pub or_allow : Option PolicyDecision → PolicyDecision
or_allow (some d) = d
or_allow none = allow

abbrev pub return_if : Bool → PolicyDecision → Option PolicyDecision
return_if test d = if test then some d else none

abbrev pub within_prefix : Text → Text → Bool
within_prefix cwd prefix = let q = trim_wildcards prefix in is_empty q || starts_with cwd q

module _ {F : Type 0} (p : FabricPolicy F) where
  unfoldable pub branch_blocked : Text → Option PolicyDecision
  branch_blocked branch =
      first_some
        (λ blocked.
          return_if (glob_match blocked branch)
            (deny (text "branch '" ++ branch ++ text "' is blocked by policy")))
        p.blocked_branches

  unfoldable pub branch_unlisted : Text → Option PolicyDecision
  branch_unlisted branch =
      return_if
        (not (is_empty p.allowed_branches)
          && not (any (λ a. glob_match a branch) p.allowed_branches))
        (deny (text "branch '" ++ branch ++ text "' not in allowed list"))

  unfoldable pub branch_protected : Text → Option PolicyDecision
  branch_protected branch =
      first_some
        (λ pat. return_if (glob_match pat branch) (
          require_approval
            (text "branch '" ++ branch ++ text "' is protected — operator approval required")))
        p.protected_branches

  unfoldable pub branch_checks : Option Text → Option PolicyDecision
  branch_checks none = none
  branch_checks (some branch) =
      or_next (branch_blocked branch) (or_next (branch_unlisted branch) (branch_protected branch))

  unfoldable pub scope_blocked : Text → Option PolicyDecision
  scope_blocked glob =
      first_some
        (λ blocked.
          return_if (scopes_overlap glob blocked)
            (deny (text "scope '" ++ glob ++ text "' blocked by policy")))
        p.blocked_scope_globs

  unfoldable pub scope_forbidden : Text → Option PolicyDecision
  scope_forbidden glob =
      first_some
        (λ forbidden. return_if (scopes_overlap glob forbidden) (
          deny (
            text "scope '" ++ glob ++ text "' overlaps forbidden path '" ++ forbidden ++ text "'")))
        p.forbidden_paths

  unfoldable pub scope_held : Text → Option PolicyDecision
  scope_held glob =
      first_some
        (λ approval_scope.
          return_if (scopes_overlap glob approval_scope)
            (require_approval (text "scope '" ++ glob ++ text "' requires operator approval")))
        p.require_approval_for_scopes

  unfoldable pub scope_checks : Text → Option PolicyDecision
  scope_checks glob =
      or_next (scope_blocked glob) (or_next (scope_forbidden glob) (scope_held glob))

  unfoldable pub cwd_forbidden : Text → Option PolicyDecision
  cwd_forbidden cwd =
      first_some
        (λ forbidden.
          return_if (glob_match forbidden cwd || starts_with cwd (trim_wildcards forbidden)) (
            deny
              (text "cwd '" ++ cwd ++ text "' overlaps forbidden path '" ++ forbidden ++ text "'")))
        p.forbidden_paths

  unfoldable pub cwd_escapes : List Text → Text → Option PolicyDecision
  cwd_escapes scope_globs cwd =
      return_if (not (is_empty scope_globs) && not (any (within_prefix cwd) scope_globs))
        (deny (text "cwd '" ++ cwd ++ text "' is outside the allowed scope prefixes"))

  unfoldable pub cwd_checks : DispatchRequest → Option Text → Option PolicyDecision
  cwd_checks req none = none
  cwd_checks req (some cwd) =
      if is_empty cwd then none else or_next (cwd_forbidden cwd) (cwd_escapes req.scope_globs cwd)

  unfoldable pub command_checks : DispatchRequest → Option PolicyDecision
  unfolding cwd_checks
  command_checks req = if text_eq req.kind (text "command") then cwd_checks req req.cwd else none

  unfoldable pub evaluate_dispatch : DispatchRequest → PolicyDecision
  unfolding branch_checks command_checks
  evaluate_dispatch req = or_allow (
      or_next (branch_checks req.target_branch)
        (or_next (first_some scope_checks req.scope_globs) (command_checks req)))

  unfoldable pub diff_too_large : ℤ → Option ℤ → Option PolicyDecision
  diff_too_large lines none = none
  diff_too_large lines (some max) = return_if (ltb_ℤ max lines) (
      deny (
        text "diff too large: "
        ++ decimal_ℤ lines
        ++ text " lines exceeds policy limit of "
        ++ decimal_ℤ max))

  unfoldable pub path_forbidden : Text → Option PolicyDecision
  path_forbidden path =
      first_some
        (λ forbidden. return_if (glob_match forbidden path) (
          deny (
            text "changed path '"
            ++ path
            ++ text "' overlaps forbidden path '"
            ++ forbidden
            ++ text "'")))
        p.forbidden_paths

  unfoldable pub evaluate_completion : CompletionRequest → PolicyDecision
  unfolding diff_too_large
  evaluate_completion req = or_allow (
      or_next (diff_too_large req.diff_lines p.max_diff_lines)
        (first_some path_forbidden req.changed_paths))

  unfoldable pub evaluate_intent : Text → PolicyDecision
  evaluate_intent action =
      if any (λ a. text_eq a action) p.require_approval
      then require_approval
          (text "action '" ++ action ++ text "' requires operator approval per policy")
      else allow
