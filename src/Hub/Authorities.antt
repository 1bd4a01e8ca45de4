-- ===== src/Hub/Authorities.antt =====
-- crates/fabric-hub/src/auth.rs: the roles that a token may be issued with, and the authorities that
-- `GET /whoami` reports for the roles of a caller.
use forgewire_fabric.Prelude.{
  List, [], ◌∷◌, ◌++◌, map, Text, text, trim, to_ascii_lowercase, filter, if◌then◌else◌,
}
use forgewire_fabric.Prelude.Results.{Result, err, okay, and_then}
use forgewire_fabric.Prelude.Json.{text_ltb}
use forgewire_fabric.Hub.Roles.{Roles, contains, valid_roles, dispatcher, approver, reviewer}
use forgewire_fabric.Hub.Routes.{share_role}

-- `sort` of texts: stable insertion before the first greater one.
unfoldable pub insert_text : Text → Roles → Roles
insert_text role [] = role ∷ []
insert_text role (r ∷ roles) =
    let rest = insert_text role roles in if text_ltb role r then role ∷ r ∷ roles else r ∷ rest

unfoldable pub sort_texts : Roles → Roles
unfolding insert_text
sort_texts [] = []
sort_texts (role ∷ roles) = insert_text role (sort_texts roles)

-- `slice::join` with a separator
abbrev pub join : Text → List Text → Text
join sep [] = []
join sep (s ∷ []) = s
join sep (s ∷ t ∷ ts) = s ++ (sep ++ join sep (t ∷ ts))

-- The message for an unknown role, with the `Debug` print of a text as a parameter.
abbrev pub unknown_role : (Text → Text) → Text → Text
unknown_role debug role =
    text "unknown role "
    ++ (debug role ++ (text "; expected one of " ++ join (text ", ") valid_roles))

abbrev pub normalize_role : Text → Text
normalize_role role = to_ascii_lowercase (trim role)

-- The loop over the roles, with those kept so far.
unfoldable pub collect_roles : (Text → Text) → Roles → Roles → Result Text Roles
collect_roles debug normalized [] = okay normalized
collect_roles debug normalized (raw ∷ roles) =
    let role = normalize_role raw in
    let kept = collect_roles debug normalized roles in
    let added = collect_roles debug (normalized ++ role ∷ []) roles in
    if contains role valid_roles
    then (if contains role normalized then kept else added)
    else err (unknown_role debug role)

unfoldable pub normalize_roles : (Text → Text) → Roles → Result Text Roles
unfolding sort_texts collect_roles
normalize_roles debug [] = err (text "at least one role is required")
normalize_roles debug (role ∷ roles) =
    and_then (collect_roles debug [] (role ∷ roles)) (λ normalized. okay (sort_texts normalized))

abbrev pub authority_roles : List (Text × Roles)
authority_roles =
    (text "fabric.tasks.write", dispatcher ∷ [])
    ∷ (text "fabric.approvals.write", approver ∷ reviewer ∷ [])
    ∷ (text "fabric.hosts.write", dispatcher ∷ reviewer ∷ [])
    ∷ (text "fabric.hub.write", reviewer ∷ [])
    ∷ (text "fabric.hosts.service", reviewer ∷ [])
    ∷ (text "fabric.dr.write", reviewer ∷ [])
    ∷ (text "fabric.connection.read-secret", reviewer ∷ [])
    ∷ (text "fabric.connection.write", reviewer ∷ [])
    ∷ []

unfoldable pub authorities_for : Roles → List Text
unfolding sort_texts
authorities_for roles =
    sort_texts (map (λ a. a.0) (filter (λ a. share_role a.1 roles) authority_roles))
