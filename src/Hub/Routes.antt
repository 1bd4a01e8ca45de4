-- ===== src/Hub/Routes.antt =====
-- crates/fabric-hub/src/auth.rs: the roles that a route asks for, and whom they let in. The early
-- returns of the routing table are a list of guarded answers, of which the first one counts.
use Prim.Native.String.{String}
use forgewire_fabric.Prelude.{
  Bool, true, false, ◌&&◌, ◌||◌, List, [], ◌∷◌, ◌++◌, Text, text, text_eq, starts_with, ends_with,
  contains_text, any, if◌then◌else◌,
}
use forgewire_fabric.Hub.Roles.{
  Roles, contains, valid_roles, review, observe, observe_dispatch, self_service, task_read,
  approval_read, approve, dispatch, dispatch_review, run, run_or_dispatch, host_report, administer,
  admin_review, settings_read, AuthContext,
}

abbrev pub is_method : String → Text → Bool
is_method name method = text_eq method (text name)

abbrev pub is_path : String → Text → Bool
is_path name path = text_eq path (text name)

abbrev pub under : String → Text → Bool
under name path = starts_with path (text name)

abbrev pub ends_in : String → Text → Bool
ends_in name path = ends_with path (text name)

-- A guard of the table with the roles that it returns.
abbrev pub Route : Type 0
Route = Bool × Roles

abbrev pub first_route : List Route → Roles
first_route [] = review
first_route ((true, roles) ∷ routes) = roles
first_route ((false, roles) ∷ routes) = first_route routes

abbrev pub by_method : Text → Roles → Roles → Roles
by_method method reading writing = if is_method "GET" method then reading else writing

abbrev pub account_routes : Text → Text → List Route
account_routes method path =
    (is_path "/accounts" path, by_method method admin_review administer)
    ∷ (
      under "/accounts/" path
          && (contains_text path (text "/membership")
              || (ends_in "/disable" path || ends_in "/enable" path)),
      administer,
    )
    ∷ (under "/accounts/" path, by_method method admin_review administer)
    ∷ []

abbrev pub self_service_routes : Text → List Route
self_service_routes path =
    (is_path "/auth-policy" path, self_service)
    ∷ (is_path "/auth/sessions" path || under "/auth/sessions/" path, self_service)
    ∷ (
      is_path "/auth/logout" path
          || (is_path "/auth/logout-all" path
              || (is_path "/auth/me" path
                  || (is_path "/auth/step-up/options" path
                      || (is_path "/auth/step-up/verify" path || under "/auth/passkeys/" path)))),
      self_service,
    )
    ∷ []

abbrev pub admin_routes : Text → Text → List Route
admin_routes method path =
    (is_path "/admin/update" path || under "/admin/binaries/" path, dispatch_review)
    ∷ (is_path "/state/snapshot" path, admin_review)
    ∷ (is_path "/state/import" path, administer)
    ∷ (is_path "/admin/role-tokens" path, by_method method admin_review administer)
    ∷ (
      is_path "/admin/role-tokens/split" path || is_path "/admin/role-tokens/migrate" path,
      administer,
    )
    ∷ (under "/admin/role-tokens/" path, administer)
    ∷ (under "/admin/" path || is_path "/admin" path, review)
    ∷ (is_path "/secrets" path || under "/secrets/" path, review)
    ∷ []

abbrev pub settings_routes : Text → Text → List Route
settings_routes method path =
    (is_path "/labels" path, by_method method observe review)
    ∷ (is_path "/policy" path, observe)
    ∷ (is_path "/history/status" path, observe)
    ∷ (is_path "/settings" path || is_path "/settings/schema" path, settings_read)
    ∷ (under "/settings/" path && is_method "GET" method, settings_read)
    ∷ (
      under "/settings/" path && (is_path "/settings/auth" path || under "/settings/auth." path),
      admin_review,
    )
    ∷ (under "/settings/" path, review)
    ∷ (is_path "/hosts/roles" path, host_report)
    ∷ (under "/labels/" path, review)
    ∷ []

abbrev pub task_routes : Text → Text → List Route
task_routes method path =
    (is_path "/tasks" path || is_path "/tasks/v2" path, by_method method task_read dispatch)
    ∷ (
      is_path "/tasks/claim" path
          || (is_path "/tasks/claim-loom" path || is_path "/tasks/claim-fabric" path),
      run,
    )
    ∷ (under "/tasks/" path && ends_in "/input" path, by_method method run dispatch)
    ∷ (under "/tasks/" path && is_method "GET" method, task_read)
    ∷ (under "/tasks/" path && ends_in "/cancel" path, dispatch)
    ∷ (under "/tasks/" path && ends_in "/notes" path, run_or_dispatch)
    ∷ (under "/tasks/" path, run)
    ∷ []

abbrev pub runner_routes : Text → Text → List Route
runner_routes method path =
    (is_path "/runners" path, task_read)
    ∷ (under "/runners/" path && ends_in "-by-dispatcher" path, dispatch)
    ∷ (under "/runners/" path && is_method "DELETE" method, dispatch_review)
    ∷ (under "/runners/" path, run)
    ∷ (is_path "/dispatchers/register" path, dispatch)
    ∷ (under "/dispatchers/" path && is_method "DELETE" method, review)
    ∷ (is_path "/dispatchers" path, observe_dispatch)
    ∷ []

abbrev pub other_routes : Text → Text → List Route
other_routes method path =
    ((is_path "/approvals" path || under "/approvals/" path) && is_method "POST" method, approve)
    ∷ (is_path "/approvals" path || under "/approvals/" path, approval_read)
    ∷ (is_path "/agents" path || under "/capabilities/" path, observe_dispatch)
    ∷ (
      is_path "/cluster/health" path
          || (is_path "/hosts" path || (under "/audit/" path || under "/cost/" path)),
      observe,
    )
    ∷ (is_path "/whoami" path, valid_roles)
    ∷ []

-- The table behind the routes of accounts.
abbrev pub later_routes : Text → Text → List Route
later_routes method path =
    self_service_routes path
    ++ (admin_routes method path
        ++ (settings_routes method path
            ++ (task_routes method path
                ++ (runner_routes method path ++ other_routes method path))))

unfoldable pub required_roles : Text → Text → Roles
required_roles method path = first_route (account_routes method path ++ later_routes method path)

unfoldable pub requires_step_up : Text → Text → Bool
requires_step_up method path =
    if under "/accounts/" path
    then contains_text path (text "/membership")
      || (ends_in "/disable" path
          || (ends_in "/delete" path
              || (ends_in "/tombstone" path
                  || (ends_in "/recovery-codes" path
                      || (ends_in "/recovery/complete" path
                          || (ends_in "/export" path || ends_in "/import" path))))))
    else is_method "DELETE" method && under "/auth/passkeys/" path

-- The three routes that the legacy bearer may post to without a role for them.
abbrev pub is_bootstrap : Text → Bool
is_bootstrap path =
    is_path "/admin/role-tokens" path
    || (is_path "/admin/role-tokens/split" path || is_path "/admin/role-tokens/migrate" path)

abbrev pub share_role : Roles → Roles → Bool
share_role required held = any (λ role. contains role held) required

unfoldable pub is_authorized : AuthContext → Text → Text → Bool
is_authorized context method path =
    if context.legacy_compat && (is_method "POST" method && is_bootstrap path)
    then true
    else share_role (required_roles method path) context.roles
