-- ===== src/Hub/Store.antt =====
-- crates/fabric-store/src/lib.rs: the errors of the store and the rows of it that the hub reads, with
-- those of their columns that it reads.
use forgewire_fabric.Prelude.{Bool, List, Option, Text, text, ◌++◌}
use forgewire_fabric.Prelude.Int.{ℤ}
use forgewire_fabric.Prelude.Json.{Json}

pub data StoreError : Type 0 where
  not_found : Text → StoreError
  conflict : Text → StoreError
  permission_denied : Text → StoreError
  schema : Text → StoreError
  backend : Text → StoreError

-- The print of an error.
abbrev pub store_text : StoreError → Text
store_text (not_found e) = text "not found: " ++ e
store_text (conflict e) = text "conflict: " ++ e
store_text (permission_denied e) = text "permission denied: " ++ e
store_text (schema e) = text "schema error: " ++ e
store_text (backend e) = text "backend error: " ++ e

pub record TaskRow (N : Type 0) : Type 0 where
  pub id : ℤ
  pub title : Text
  pub scope_globs : Json N
  pub base_commit : Text
  pub branch : Text
  pub kind : Text
  pub worker_id : Option Text
  pub cancel_requested : Bool
  pub required_tools : Option (Json N)
  pub required_tags : Option (Json N)
  pub tenant : Option Text
  pub workspace_root : Option Text
  pub require_base_commit : Bool
  pub required_capabilities : Option (Json N)
  pub secrets_needed : Option (Json N)
  pub dispatch : Option Text
  pub skill : Option Text
  pub tool : Option Text

pub record RunnerRow (N : Type 0) : Type 0 where
  pub runner_id : Text
  pub hostname : Text
  pub state : Text
  pub max_concurrent : ℤ
  pub capabilities : Json N
  pub drain_requested : Bool
  pub kinds : Json N

pub record RunnerCapability : Type 0 where
  pub capability_kind : Text
  pub name : Text

pub data ClaimResult (N : Type 0) : Type 0 where
  claimed : TaskRow N → ClaimResult N
  already_claimed : ClaimResult N

pub record DispatcherRow (N : Type 0) : Type 0 where
  pub dispatcher_id : Text
  pub public_key : Text
  pub label : Text
  pub hostname : Option Text
  pub metadata : Json N

pub record CurrentBudget (F : Type 0) : Type 0 where
  pub daily_spend_usd : F
  pub weekly_spend_usd : F

pub record CreateTaskParams (N : Type 0) : Type 0 where
  pub title : Text
  pub prompt : Text
  pub scope_globs : List Text
  pub base_commit : Text
  pub branch : Text
  pub todo_id : Option Text
  pub timeout_minutes : ℤ
  pub priority : ℤ
  pub kind : Text
  pub metadata : Json N
  pub required_tools : Option (List Text)
  pub required_tags : Option (List Text)
  pub tenant : Option Text
  pub workspace_root : Option Text
  pub require_base_commit : Bool
  pub required_capabilities : Option (List Text)
  pub secrets_needed : Option (List Text)
  pub network_egress : Option (Json N)
  pub dispatcher_id : Option Text
  pub dispatch : Option Text
  pub skill : Option Text
  pub tool : Option Text
  pub command : Option (List Text)
  pub cwd : Option Text
  pub env : Option (Json N)
  pub initial_status : Option Text
  pub dispatched_by_user : Option Text
  pub dispatched_by_host : Option Text
  pub dispatched_by_agent : Option Text
  pub dispatcher_pubkey_fingerprint : Option Text
  pub approval_id : Option Text
  pub policy_decisions : Json N
  pub approvals_required : ℤ
  pub approvals_received : ℤ
