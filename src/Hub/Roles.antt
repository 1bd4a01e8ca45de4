-- ===== src/Hub/Roles.antt =====
-- crates/fabric-hub/src/auth.rs: the vocabulary of roles, and the context of a request: on
-- whose behalf it is made and with which roles.
use forgewire_fabric.Prelude.{
  Bool, true, false, Option, none, some, List, [], ◌∷◌, Text, text, text_eq, any,
}

abbrev pub Roles : Type 0
Roles = List Text

abbrev pub contains : Text → Roles → Bool
contains role = any (text_eq role)

abbrev pub observer : Text
observer = text "observer"

abbrev pub dispatcher : Text
dispatcher = text "dispatcher"

abbrev pub approver : Text
approver = text "approver"

abbrev pub reviewer : Text
reviewer = text "reviewer"

abbrev pub runner : Text
runner = text "runner"

abbrev pub admin : Text
admin = text "admin"

abbrev pub valid_roles : Roles
valid_roles = dispatcher ∷ runner ∷ approver ∷ observer ∷ reviewer ∷ []

abbrev pub legacy_compat_roles : Roles
legacy_compat_roles = dispatcher ∷ runner ∷ observer ∷ []

abbrev pub review : Roles
review = reviewer ∷ []

abbrev pub observe : Roles
observe = observer ∷ reviewer ∷ []

abbrev pub observe_dispatch : Roles
observe_dispatch = observer ∷ dispatcher ∷ reviewer ∷ []

abbrev pub self_service : Roles
self_service = observer ∷ dispatcher ∷ approver ∷ reviewer ∷ admin ∷ []

abbrev pub task_read : Roles
task_read = observer ∷ dispatcher ∷ runner ∷ reviewer ∷ []

abbrev pub approval_read : Roles
approval_read = observer ∷ dispatcher ∷ approver ∷ reviewer ∷ []

abbrev pub approve : Roles
approve = approver ∷ reviewer ∷ []

abbrev pub dispatch : Roles
dispatch = dispatcher ∷ []

abbrev pub dispatch_review : Roles
dispatch_review = dispatcher ∷ reviewer ∷ []

abbrev pub run : Roles
run = runner ∷ []

abbrev pub run_or_dispatch : Roles
run_or_dispatch = runner ∷ dispatcher ∷ []

abbrev pub host_report : Roles
host_report = runner ∷ dispatcher ∷ reviewer ∷ []

abbrev pub administer : Roles
administer = admin ∷ []

abbrev pub admin_review : Roles
admin_review = admin ∷ reviewer ∷ []

abbrev pub settings_read : Roles
settings_read = observer ∷ reviewer ∷ admin ∷ []

pub record AuthContext : Type 0 where
  pub subject : Text
  pub roles : Roles
  pub legacy_compat : Bool
  pub human_principal : Option Text
  pub session_id : Option Text
  pub assurance_level : Option Text
  pub step_up_at : Option Text

-- `AuthContext::from_role_token`, `AuthContext::legacy` and `AuthContext::from_human_session`
abbrev pub from_role_token : Text → Roles → AuthContext
from_role_token token_id roles = record {
  subject = token_id;
  roles = roles;
  legacy_compat = false;
  human_principal = none;
  session_id = none;
  assurance_level = none;
  step_up_at = none;
}

abbrev pub legacy : AuthContext
legacy = record {
  subject = text "legacy-cluster-bearer";
  roles = legacy_compat_roles;
  legacy_compat = true;
  human_principal = none;
  session_id = none;
  assurance_level = none;
  step_up_at = none;
}

abbrev pub from_human_session : Text → Roles → Text → Text → Option Text → AuthContext
from_human_session account_id roles session_id assurance_level step_up_at = record {
  subject = account_id;
  roles = roles;
  legacy_compat = false;
  human_principal = some account_id;
  session_id = some session_id;
  assurance_level = some assurance_level;
  step_up_at = step_up_at;
}
