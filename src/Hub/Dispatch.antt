-- ===== src/Hub/Dispatch.antt =====
-- crates/fabric-hub/src/routes/tasks.rs: the dispatch of a task, signed by a dispatcher. The store, the
-- audit log, the clock and the approvals of ForgeLink are the record `DispatchCalls`, over a world.
pub mod Params
pub mod Forgelink
pub mod Intent
pub mod Checks
pub mod Routes
pub mod Signing
pub mod Funded
pub mod Vetted
pub mod Promise
pub mod Outcomes
mod Tests
use forgewire_fabric.Prelude.{
  Bool, true, false, not, ◌&&◌, ◌||◌, Option, none, some, List, [], ◌∷◌, ◌++◌, Text, text, text_eq,
  is_empty, if◌then◌else◌,
}
use forgewire_fabric.Prelude.Int.{ℤ}
use forgewire_fabric.Prelude.Results.{Result, err, okay}
use forgewire_fabric.Prelude.Json.{
  Scalar, null, bool, number, string, Json, scalar, arr, obj, Fields, end, field, string_value,
  object, object_from, array,
}
use forgewire_fabric.Protocol.{Bytes, Crates, ProtocolError, canonicalize}
use forgewire_fabric.Policy.{Float}
use forgewire_fabric.Policy.Budget.{is_some}
use forgewire_fabric.Hub.Authorities.{sort_texts}
use forgewire_fabric.Hub.Claims.{or_blank}
use forgewire_fabric.Hub.Store.{
  StoreError, not_found, store_text, TaskRow, DispatcherRow, CurrentBudget, CreateTaskParams,
}

pub record DispatchPayload (N F : Type 0) : Type 0 where
  pub title : Text
  pub prompt : Text
  pub scope_globs : List Text
  pub base_commit : Text
  pub branch : Text
  pub todo_id : Option Text
  pub timeout_minutes : ℤ
  pub priority : ℤ
  pub kind : Text
  pub metadata : Json N
  pub required_tools : Option (List Text)
  pub required_tags : Option (List Text)
  pub tenant : Option Text
  pub workspace_root : Option Text
  pub require_base_commit : Bool
  pub required_capabilities : Option (List Text)
  pub secrets_needed : Option (List Text)
  pub network_egress : Option (Json N)
  pub approval_id : Option Text
  pub max_cost_usd : Option F
  pub dispatch : Option Text
  pub skill : Option Text
  pub tool : Option Text
  pub args : Option (Json N)
  pub input : Option (Json N)
  pub command : Option (List Text)
  pub cwd : Option Text
  pub env : Option (Json N)
  pub target : Option (Json N)
  pub loom_env_digest : Option Text

pub record SignedDispatchPayload (N F : Type 0) : Type 0 where
  pub base : DispatchPayload N F
  pub dispatcher_id : Text
  pub timestamp : ℤ
  pub nonce : Text
  pub signature : Text

pub record DispatchCalls (W N F : Type 0) : Type 0 where
  pub unix_secs : W → ℤ
  pub utc_now : W → Text
  pub get_dispatcher : Text → W → Result StoreError (DispatcherRow N)
  pub consume_dispatcher_nonce : Text → Text → Text → W → Result StoreError (Unit {0}) × W
  pub current_budget : Text → W → Result StoreError (CurrentBudget F)
  pub create_or_get_pending_approval :
      Text
      → Json N
      → Text
      → Option Text
      → List Text
      → Option Text
      → Text
      → W
      → Result StoreError (Text × Bool) × W
  pub create_task : CreateTaskParams N → Text → W → Result StoreError (TaskRow N) × W
  pub append_audit : Text → Option ℤ → Json N → W → W
  pub forgelink_enabled : Bool
  pub route_approval : Json N → W → Result Text Text × W

-- What the routes call besides: signatures, SHA-256 in hex, numbers and `f64`.
pub record DispatchLibraries (N E K : Type 0) : Type 1 where
  pub crates : Crates N E K
  pub print_hex : E → Text
  pub hex_sha256 : Bytes → Text
  pub from_i64 : ℤ → N
  pub float : Float
  pub from_f64 : float.F → Scalar N

-- The answers of the dispatch: a task that waits for an approval, with its id and the reason, and
-- the id that ForgeLink gave it; or a task in the queue.
pub data Dispatched (N : Type 0) : Type 0 where
  held : TaskRow N → Text → Text → Option Text → Dispatched N
  queued : TaskRow N → Dispatched N

abbrev pub opt_value {ℓ} : {N : Type 0} {A : Type ℓ} → (A → Json N) → Option A → Json N
opt_value f none = scalar null
opt_value f (some a) = f a

abbrev pub texts_value : {N : Type 0} → List Text → Json N
texts_value = array string_value

abbrev pub or_default_texts : Option (List Text) → List Text
or_default_texts none = []
or_default_texts (some xs) = xs

-- `unwrap_or_default` of canonical bytes
abbrev pub or_no_bytes : {E : Type 0} → Result (ProtocolError E) Bytes → Bytes
or_no_bytes (err e) = []
or_no_bytes (okay b) = b

module _ {N : Type 0} where
  abbrev pub field_names : Fields N → List Text
  field_names end = []
  field_names (field k v fs) = k ∷ field_names fs

  -- `as_object`
  abbrev pub object_of : Option (Json N) → Fields N
  object_of (some (obj fs)) = fs
  object_of (some (scalar s)) = end
  object_of (some (arr xs)) = end
  object_of none = end

  abbrev pub env_keys : Option (Json N) → List Text
  env_keys env = sort_texts (field_names (object_of env))

  -- The entries of an object that are strings.
  abbrev pub string_fields : Fields N → List (Text × Json N)
  string_fields end = []
  string_fields (field k (scalar (string s)) fs) = (k, string_value s) ∷ string_fields fs
  string_fields (field k v fs) = string_fields fs

module _ {N E K : Type 0} (libraries : DispatchLibraries N E K) where
  open libraries use {crates, hex_sha256, from_i64, float, from_f64}

  abbrev pub env_digest : Option (Json N) → Text
  env_digest env =
      hex_sha256 (or_no_bytes (canonicalize crates (object (string_fields (object_of env)))))

  module _ (p : SignedDispatchPayload N float.F) where
    abbrev pub is_command : Bool
    is_command = text_eq p.base.kind (text "command")

    abbrev pub has_signed_command : Bool
    has_signed_command = is_command && is_some p.base.command && is_some p.base.loom_env_digest

    abbrev signed_fields : List (Text × Json N)
    signed_fields =
        (text "op", string_value (text "dispatch"))
        ∷ (text "dispatcher_id", string_value p.dispatcher_id)
        ∷ (text "title", string_value p.base.title)
        ∷ (text "prompt", string_value p.base.prompt)
        ∷ (text "scope_globs", texts_value p.base.scope_globs)
        ∷ (text "base_commit", string_value p.base.base_commit)
        ∷ (text "branch", string_value p.base.branch)
        ∷ (text "todo_id", opt_value string_value p.base.todo_id)
        ∷ (text "timeout_minutes", scalar (number (from_i64 p.base.timeout_minutes)))
        ∷ (text "priority", scalar (number (from_i64 p.base.priority)))
        ∷ (text "metadata", p.base.metadata)
        ∷ (text "required_tools", opt_value texts_value p.base.required_tools)
        ∷ (text "required_tags", opt_value texts_value p.base.required_tags)
        ∷ (text "required_capabilities", opt_value texts_value p.base.required_capabilities)
        ∷ (text "secrets_needed", opt_value texts_value p.base.secrets_needed)
        ∷ (text "network_egress", opt_value (λ v. v) p.base.network_egress)
        ∷ (text "tenant", opt_value string_value p.base.tenant)
        ∷ (text "workspace_root", opt_value string_value p.base.workspace_root)
        ∷ (text "require_base_commit", scalar (bool p.base.require_base_commit))
        ∷ (text "kind", string_value p.base.kind)
        ∷ (text "max_cost_usd", opt_value (λ c. scalar (from_f64 c)) p.base.max_cost_usd)
        ∷ (text "timestamp", scalar (number (from_i64 p.timestamp)))
        ∷ (text "nonce", string_value p.nonce)
        ∷ []

    abbrev loom_fields : List (Text × Json N)
    loom_fields =
        (text "loom_command", texts_value (or_default_texts p.base.command))
        ∷ (text "loom_cwd", string_value (or_blank p.base.cwd))
        ∷ (text "loom_env_keys", texts_value (env_keys p.base.env))
        ∷ (text "loom_env_digest", opt_value string_value p.base.loom_env_digest)
        ∷ []

    abbrev pub dispatch_envelope : Json N
    dispatch_envelope =
        if has_signed_command then object (signed_fields ++ loom_fields) else object signed_fields
