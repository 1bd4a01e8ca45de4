-- ===== src/Hub/Agreement.antt =====
-- crates/fabric-hub/src/auth.rs: the authorities that `GET /whoami` reports are those that the
-- routing table enforces.
use mathlib.Core.List.{reverse, reverse-append}
use forgewire_fabric.Prelude.{
  ◌≡◌, refl, ap, ◌∙◌, ◌&&◌, ◌||◌, Bool, false, map, List, [], ◌∷◌, ◌++◌, arith, Text, text, text_eq,
  starts_with, ends_with, any, filter,
}
use forgewire_fabric.Hub.Roles.{Roles, contains, dispatcher, reviewer, from_role_token}
use forgewire_fabric.Hub.Routes.{share_role, required_roles, is_authorized}
use forgewire_fabric.Hub.Authorities.{authority_roles, authorities_for}
use forgewire_fabric.Hub.Normal.{contains-sort}

contains-filter :
    (x : Text) (p : Text × Roles → Bool) (table : List (Text × Roles))
    → contains x (map (λ a. a.0) (filter p table)) ≡ any (λ a. text_eq x a.0 && p a) table
contains-filter x p [] = refl
contains-filter x p (a ∷ table) = ground (arith, contains-filter x p table)

-- Whether an authority is reported for some roles.
abbrev pub reports : Text → Roles → Bool
reports authority roles = contains authority (authorities_for roles)

reports_by_table :
    (authority : Text) (roles : Roles)
    → reports authority roles
      ≡ any (λ a. text_eq authority a.0 && share_role a.1 roles) authority_roles
unfolding authorities_for
reports_by_table authority roles =
    contains-sort authority (map (λ a. a.0) (filter (λ a. share_role a.1 roles) authority_roles))
    ∙ contains-filter authority (λ a. share_role a.1 roles) authority_roles

-- The caller with a token for the roles may make the request.
abbrev pub may : Roles → Text → Text → Bool
may roles = is_authorized (from_role_token (text "caller") roles)

ends_with-append :
    (s t p : Text) → ends_with (s ++ t) p ≡ starts_with (reverse t ++ reverse s) (reverse p)
ends_with-append s t p = ap (λ u. starts_with u (reverse p)) (reverse-append s t)

module _ (roles : Roles) where
  tasks : reports (text "fabric.tasks.write") roles ≡ may roles (text "POST") (text "/tasks/v2")
  unfolding is_authorized required_roles
  tasks = reports_by_table (text "fabric.tasks.write") roles ∙ ground arith

  approvals :
      (id : Text)
      → reports (text "fabric.approvals.write") roles
        ≡ may roles (text "POST") (text "/approvals/" ++ (id ++ text "/approve"))
  unfolding is_authorized required_roles
  approvals id = reports_by_table (text "fabric.approvals.write") roles ∙ ground arith

  hub : reports (text "fabric.hub.write") roles ≡ may roles (text "PUT") (text "/labels/hub")
  unfolding is_authorized required_roles
  hub = reports_by_table (text "fabric.hub.write") roles ∙ ground arith

  rename :
      (id : Text)
      → may roles (text "PUT") (text "/labels/runners/" ++ id) ≡ (contains reviewer roles || false)
  unfolding is_authorized required_roles
  rename id = refl

  drain :
      (id : Text)
      → may roles (text "POST") (text "/runners/" ++ (id ++ text "/drain-by-dispatcher"))
        ≡ (contains dispatcher roles || false)
  unfolding is_authorized required_roles
  drain id =
      rw
        (ends_with-append (text "/runners/" ++ id) (text "/drain-by-dispatcher")
          (text "-by-dispatcher"))
        refl

  hosts :
      (id : Text)
      → reports (text "fabric.hosts.write") roles ≡ (
          may roles (text "PUT") (text "/labels/runners/" ++ id)
          || may roles (text "POST") (text "/runners/" ++ (id ++ text "/drain-by-dispatcher")))
  hosts id =
      reports_by_table (text "fabric.hosts.write") roles ∙ rw (rename id, drain id) (ground arith)

  secrets :
      reports (text "fabric.connection.read-secret") roles
      ≡ may roles (text "GET") (text "/secrets")
  unfolding is_authorized required_roles
  secrets = reports_by_table (text "fabric.connection.read-secret") roles ∙ ground arith

-- For any roles of a token, the authorities that are reported are those that the routing table
-- enforces: writing tasks is reported exactly if `POST /tasks/v2` is authorized, writing approvals
-- exactly if `POST /approvals/{id}/approve` is, writing the hub exactly if `PUT /labels/hub` is,
-- writing hosts exactly if `PUT /labels/runners/{id}` or `POST /runners/{id}/drain-by-dispatcher`
-- is, and reading secrets exactly if `GET /secrets` is.
pub authorities_for-enforced :
    (roles : Roles) (id : Text)
    → (reports (text "fabric.tasks.write") roles ≡ may roles (text "POST") (text "/tasks/v2"))
      × (reports (text "fabric.approvals.write") roles
          ≡ may roles (text "POST") (text "/approvals/" ++ (id ++ text "/approve")))
      × (reports (text "fabric.hub.write") roles ≡ may roles (text "PUT") (text "/labels/hub"))
      × (reports (text "fabric.hosts.write") roles ≡ (
          may roles (text "PUT") (text "/labels/runners/" ++ id)
          || may roles (text "POST") (text "/runners/" ++ (id ++ text "/drain-by-dispatcher"))))
      × (reports (text "fabric.connection.read-secret") roles
          ≡ may roles (text "GET") (text "/secrets"))
authorities_for-enforced roles id =
    (tasks roles, approvals roles id, hub roles, hosts roles id, secrets roles)
