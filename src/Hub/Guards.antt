-- ===== src/Hub/Guards.antt =====
-- crates/fabric-hub/src/auth.rs: what tokens and the legacy bearer can never do.
use mathlib.Core.Path.{subst}
use Prim.Native.String.{String}
use forgewire_fabric.Prelude.{
  ◌≡◌, refl, sym, ◌⊎◌, inl, inr, ◌&&◌, ◌||◌, Bool, true, false, List, ◌∷◌, ◌++◌, arith, Text,
  contains_text, text, text_eq_sound, starts_with_sound, Bool-cases, if◌then◌else◌,
}
use forgewire_fabric.Prelude.Results.{okay}
use forgewire_fabric.Hub.Roles.{
  Roles, contains, valid_roles, administer, self_service, admin_review, admin, AuthContext,
  from_role_token, legacy,
}
use forgewire_fabric.Hub.Routes.{
  Route, first_route, is_method, is_path, under, ends_in, by_method, later_routes, is_bootstrap,
  share_role, required_roles, requires_step_up, is_authorized,
}
use forgewire_fabric.Hub.Authorities.{normalize_roles}
use forgewire_fabric.Hub.Normal.{normalize_roles-IsNormal}

-- The routes that administer accounts, tokens or the whole state.
abbrev pub is_administration : Text → Bool
is_administration path =
    is_path "/accounts" path
    || (under "/accounts/" path
        || (is_path "/state/import" path
            || (is_path "/admin/role-tokens" path || under "/admin/role-tokens/" path)))

-- A test of the path holds for the path at hand or for all that begin with a name.
at_path :
    (P : Text → Type 0) (name : String) (path : Text)
    → P (text name)
    → is_path name path ≡ true
    → P path
at_path P name path p h = subst P (sym (text_eq_sound path (text name) h)) p

below_path :
    (P : Text → Type 0) (name : String) (path : Text)
    → ((rest : Text) → P (text name ++ rest))
    → under name path ≡ true
    → P path
below_path P name path p h =
    let (rest, e) = starts_with_sound path (text name) h in subst P (sym e) (p rest)

or_elim {ℓ} : {P : Type ℓ} (a b : Bool) → (a || b) ≡ true → (a ≡ true → P) → (b ≡ true → P) → P
or_elim true b h f g = f refl
or_elim false b h f g = g h

-- What holds of the answer of a guard and of that of the routes behind it.
guarded :
    (P : Roles → Type 0) (guard : Bool) (roles : Roles) (routes : List Route)
    → P roles
    → P (first_route routes)
    → P (first_route ((guard, roles) ∷ routes))
guarded P true roles routes h k = h
guarded P false roles routes h k = k

-- Below an account, administrators are let in and others at most by the method.
under_accounts :
    (P : Roles → Type 0) (method rest : Text)
    → P administer
    → P (by_method method admin_review administer)
    → P (required_roles method (text "/accounts/" ++ rest))
unfolding required_roles
under_accounts P method rest h k =
    guarded P
      (contains_text (text "/accounts/" ++ rest) (text "/membership")
        || (ends_in "/disable" (text "/accounts/" ++ rest)
            || ends_in "/enable" (text "/accounts/" ++ rest)))
      administer
      ((true, by_method method admin_review administer)
        ∷ later_routes method (text "/accounts/" ++ rest))
      h k

under_tokens :
    (method rest : Text) → required_roles method (text "/admin/role-tokens/" ++ rest) ≡ administer
unfolding required_roles
under_tokens method rest = ground arith

module _ (method : Text) (writing : is_method "GET" method ≡ false) where
  abbrev Administers : Text → Type 0
  Administers path = required_roles method path ≡ administer

  accounts : Administers (text "/accounts")
  unfolding required_roles
  accounts = rw writing refl

  below_accounts : (rest : Text) → Administers (text "/accounts/" ++ rest)
  below_accounts rest =
      under_accounts (λ roles. roles ≡ administer) method rest refl (rw writing refl)

  import_state : Administers (text "/state/import")
  unfolding required_roles
  import_state = refl

  tokens : Administers (text "/admin/role-tokens")
  unfolding required_roles
  tokens = rw writing refl

  administration : (path : Text) → is_administration path ≡ true → Administers path
  administration path h = or_elim _ _ h (at_path Administers "/accounts" path accounts) (λ h.
      or_elim _ _ h (below_path Administers "/accounts/" path below_accounts) (λ h.
        or_elim _ _ h (at_path Administers "/state/import" path import_state) (λ h.
          or_elim _ _ h (at_path Administers "/admin/role-tokens" path tokens)
            (below_path Administers "/admin/role-tokens/" path (under_tokens method)))))

-- No token, whatever roles normalize_roles accepted for it, is authorized to change accounts, role
-- tokens or the state of the cluster: the method is not GET, and the path is `/accounts`,
-- `/state/import` or `/admin/role-tokens` or begins with the first or the last and a slash.
pub token_never_administers :
    (debug : Text → Text) (raws ns : Roles) (token_id method path : Text)
    → normalize_roles debug raws ≡ okay ns
    → is_method "GET" method ≡ false
    → is_administration path ≡ true
    → is_authorized (from_role_token token_id ns) method path ≡ false
unfolding is_authorized
token_never_administers debug raws ns token_id method path normal writing there =
    rw (administration method writing path there)
      (no_admin (normalize_roles-IsNormal debug raws ns normal).2 (Bool-cases (contains admin ns)))
  where
    no_admin :
        ((x : Text) → contains x ns ≡ true → contains x valid_roles ≡ true)
        → (contains admin ns ≡ true) ⊎ (contains admin ns ≡ false)
        → (contains admin ns || false) ≡ false
    no_admin known (inl h) = let absurd : false ≡ true = known admin h in cc
    no_admin known (inr h) = rw h refl

module _ (method : Text) where
  abbrev Posts : Text → Type 0
  Posts path = is_authorized legacy method path ≡ (is_method "POST" method && is_bootstrap path)

  posts_to : (allowed : Bool) → (if allowed then true else false) ≡ allowed
  posts_to true = refl
  posts_to false = refl

  legacy_tokens : Posts (text "/admin/role-tokens")
  unfolding is_authorized required_roles
  legacy_tokens = elim (Bool-cases (is_method "GET" method)) [
    | inl e ↦ rw e (posts_to (is_method "POST" method && true))
    | inr e ↦ rw e (posts_to (is_method "POST" method && true))
  ]

  legacy_under_tokens : (rest : Text) → Posts (text "/admin/role-tokens/" ++ rest)
  unfolding is_authorized
  legacy_under_tokens rest =
      rw (under_tokens method rest)
        (posts_to (is_method "POST" method && is_bootstrap (text "/admin/role-tokens/" ++ rest)))

-- On the routes that issue, split, migrate or revoke role tokens, the legacy bearer is authorized
-- exactly to POST to `/admin/role-tokens`, `/admin/role-tokens/split` and
-- `/admin/role-tokens/migrate`.
pub legacy_mints_exactly :
    (method path : Text)
    → (is_path "/admin/role-tokens" path || under "/admin/role-tokens/" path) ≡ true
    → is_authorized legacy method path ≡ (is_method "POST" method && is_bootstrap path)
legacy_mints_exactly method path there =
    or_elim _ _ there (at_path (Posts method) "/admin/role-tokens" path (legacy_tokens method))
      (below_path (Posts method) "/admin/role-tokens/" path (legacy_under_tokens method))

-- A caller without a role that a person may have.
abbrev pub IsMachine : AuthContext → Type 0
IsMachine context =
    (context.legacy_compat ≡ false) × (share_role self_service context.roles ≡ false)

module _ (context : AuthContext) (machine : IsMachine context) (method : Text) where
  abbrev Barred : Text → Type 0
  Barred path = is_authorized context method path ≡ false

  Barred-by :
      (path : Text) → share_role (required_roles method path) context.roles ≡ false → Barred path
  unfolding is_authorized
  Barred-by path h = rw (machine.0, h) refl

  Barred-accounts : (rest : Text) → Barred (text "/accounts/" ++ rest)
  Barred-accounts rest = Barred-by (text "/accounts/" ++ rest) (
      under_accounts (λ roles. share_role roles context.roles ≡ false) method rest
        (ground (arith, machine.1))
        (elim (Bool-cases (is_method "GET" method)) [
          | inl e ↦ rw e (ground (arith, machine.1))
          | inr e ↦ rw e (ground (arith, machine.1))
        ]))

  Barred-passkeys : (rest : Text) → Barred (text "/auth/passkeys/" ++ rest)
  unfolding required_roles
  Barred-passkeys rest = Barred-by (text "/auth/passkeys/" ++ rest) (machine.1)

other_branch : (g x y : Bool) → g ≡ false → (if g then x else y) ≡ true → y ≡ true
other_branch true x y e h = cc
other_branch false x y e h = h

last_of_two : (a b : Bool) → (a && b) ≡ true → b ≡ true
last_of_two true b h = h
last_of_two false b h = cc

-- A caller who is not the legacy bearer and has none of the roles observer, dispatcher, approver,
-- reviewer and admin is authorized for no request that requires a step-up.
pub machines_never_step_up :
    (context : AuthContext) (method path : Text)
    → IsMachine context
    → requires_step_up method path ≡ true
    → is_authorized context method path ≡ false
unfolding requires_step_up
machines_never_step_up context method path machine h = elim (Bool-cases (under "/accounts/" path)) [
  | inl e ↦
      below_path (Barred context machine method) "/accounts/" path
        (Barred-accounts context machine method) e
  | inr e ↦
      below_path (Barred context machine method) "/auth/passkeys/" path
        (Barred-passkeys context machine method)
        (last_of_two _ _ (other_branch (under "/accounts/" path) _ _ e h))
]
