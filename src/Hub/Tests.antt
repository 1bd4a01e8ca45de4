-- ===== src/Hub/Tests.antt =====
-- Runs of the decisions of the hub at concrete requests and times.
use forgewire_fabric.Prelude.{
  Bool, List, map, ◌≡◌, refl, true, false, ◌&&◌, ◌||◌, ◌+◌, ◌*◌, some, [], ◌∷◌, arith, Text, text,
  leb,
}
use forgewire_fabric.Prelude.Int.{pos}
use forgewire_fabric.Prelude.Results.{okay}
use forgewire_fabric.Hub.Roles.{Roles, from_role_token, legacy, runner, admin}
use forgewire_fabric.Hub.Routes.{
  is_method, is_bootstrap, requires_step_up, is_authorized, required_roles,
}
use forgewire_fabric.Hub.Authorities.{normalize_roles, sort_texts, insert_text, collect_roles}
use forgewire_fabric.Hub.Guards.{
  token_never_administers, legacy_mints_exactly, machines_never_step_up,
}
use forgewire_fabric.Hub.Agreement.{reports, may, authorities_for-enforced}
use forgewire_fabric.Hub.Calendar.{
  epoch_secs_to_iso, parse_utc_to_epoch, step_up_is_fresh, year_loop, month_loop,
}
use forgewire_fabric.Hub.Cluster.{RqliteNode, nothing, demote, decide_topology}
use forgewire_fabric.Hub.Cluster.Decisions.{IsJustified, decide_topology-IsJustified}
use forgewire_fabric.Hub.Cluster.Settling.{enacted, decide_topology_settles}
use forgewire_fabric.Hub.Calendar.Stamps.{parse_utc_to_epoch-epoch_secs_to_iso}
use forgewire_fabric.Hub.Calendar.Window.{step_up_is_fresh_iff}

abbrev debug : Text → Text
debug s = s

abbrev asked : Roles
asked = text " Runner" ∷ text "DISPATCHER" ∷ text "runner" ∷ []

abbrev accepted : Roles
accepted = text "dispatcher" ∷ text "runner" ∷ []

accepts : normalize_roles debug asked ≡ okay accepted
unfolding normalize_roles sort_texts insert_text collect_roles
accepts = refl

token_never_administers_example :
    is_authorized
      (from_role_token (text "t1") accepted)
      (text "DELETE")
      (text "/admin/role-tokens/t2")
    ≡ false
token_never_administers_example =
    token_never_administers debug asked accepted (text "t1") (text "DELETE")
      (text "/admin/role-tokens/t2") accepts refl refl

legacy_mints_exactly_example :
    is_authorized legacy (text "DELETE") (text "/admin/role-tokens/t2")
    ≡ (is_method "POST" (text "DELETE") && is_bootstrap (text "/admin/role-tokens/t2"))
legacy_mints_exactly_example =
    legacy_mints_exactly (text "DELETE") (text "/admin/role-tokens/t2") refl

steps_up : requires_step_up (text "POST") (text "/accounts/a1/disable") ≡ true
unfolding requires_step_up
steps_up = refl

machines_never_step_up_example :
    is_authorized
      (from_role_token (text "t1") (runner ∷ []))
      (text "POST")
      (text "/accounts/a1/disable")
    ≡ false
machines_never_step_up_example =
    machines_never_step_up (from_role_token (text "t1") (runner ∷ [])) (text "POST")
      (text "/accounts/a1/disable") (refl, refl) steps_up

authorities_for-enforced_example :
    (reports (text "fabric.tasks.write") accepted ≡ may accepted (text "POST") (text "/tasks/v2"))
    × (reports (text "fabric.approvals.write") accepted
        ≡ may accepted (text "POST") (text "/approvals/7/approve"))
    × (reports (text "fabric.hub.write") accepted ≡ may accepted (text "PUT") (text "/labels/hub"))
    × (reports (text "fabric.hosts.write") accepted ≡ (
        may accepted (text "PUT") (text "/labels/runners/7")
        || may accepted (text "POST") (text "/runners/7/drain-by-dispatcher")))
    × (reports (text "fabric.connection.read-secret") accepted
        ≡ may accepted (text "GET") (text "/secrets"))
authorities_for-enforced_example = authorities_for-enforced accepted (text "7")

-- An administrator changes accounts; the stamp of a leap day.
admin_disables :
    is_authorized
      (from_role_token (text "a1") (admin ∷ []))
      (text "POST")
      (text "/accounts/a1/disable")
    ≡ true
unfolding is_authorized required_roles
admin_disables = refl

leap_day : epoch_secs_to_iso 1709210096 ≡ text "2024-02-29 12:34:56"
unfolding epoch_secs_to_iso year_loop month_loop
leap_day = refl

parse_utc_to_epoch-epoch_secs_to_iso_example :
    parse_utc_to_epoch (epoch_secs_to_iso 1709210096) ≡ some (pos 1709210096)
parse_utc_to_epoch-epoch_secs_to_iso_example =
    parse_utc_to_epoch-epoch_secs_to_iso 1709210096 (ground arith)

step_up_is_fresh_iff_example :
    step_up_is_fresh (epoch_secs_to_iso 1709210096) (epoch_secs_to_iso 1709210396) (pos 5)
    ≡ (leb 1709210096 1709210396 && leb 1709210396 (1709210096 + 60 * 5))
step_up_is_fresh_iff_example =
    step_up_is_fresh_iff 1709210096 1709210396 5 (ground arith) (ground arith)

abbrev voter_named : Text → Bool → RqliteNode
voter_named id leads = record {
  id = id;
  api_addr = text "http://10.0.0.5:4001";
  addr = text "10.0.0.5:4002";
  voter = true;
  reachable = true;
  leader = leads;
}

abbrev trapped : List RqliteNode
trapped = voter_named (text "a") true ∷ voter_named (text "b") false ∷ []

decides : decide_topology trapped ≡ demote (text "b")
unfolding decide_topology
decides = refl

decide_topology-IsJustified_example : IsJustified (decide_topology trapped) trapped
decide_topology-IsJustified_example = decide_topology-IsJustified trapped

decide_topology_settles_example :
    decide_topology (map (enacted (decide_topology trapped)) trapped) ≡ nothing
decide_topology_settles_example = decide_topology_settles trapped ((refl, tt), (tt, tt))
