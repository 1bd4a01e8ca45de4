-- ===== src/Hub/Claims.antt =====
-- crates/fabric-hub/src/routes/tasks.rs: the claim of a task by a runner. The store, the audit log and
-- the clock are the record `ClaimCalls`, over a world that only calls which write to it change.
pub mod Routes
pub mod Vetted
pub mod Quiet
pub mod Waiting
pub mod Unmet
pub mod Opened
pub mod Outcomes
mod Tests
use forgewire_fabric.Prelude.{
  ℕ, zero, suc, ◌+◌, Bool, true, false, not, ◌&&◌, ◌||◌, Option, none, some, List, [], ◌∷◌, ◌++◌,
  map, Text, text, text_eq, any, filter, is_empty, length, get_elem?, if◌then◌else◌,
}
use forgewire_fabric.Prelude.Int.{ℤ, pos, ltb_ℤ, leb_ℤ}
use forgewire_fabric.Prelude.Results.{Result, err, okay, and_then, ok_or}
use forgewire_fabric.Prelude.TextMaps.{TextMap, get, insert, keys}
use forgewire_fabric.Prelude.Json.{
  Scalar, null, number, string, Json, scalar, arr, obj, Items, nil, cons, string_value, object,
  array,
}
use forgewire_fabric.ClaimRouter.{CandidateTask, RunnerView, from_raw, pick_task}
use forgewire_fabric.Protocol.{Crates}
use forgewire_fabric.Secrets.{SecretError, missing_secret, provider_io, Crypto, open_envelope}
use forgewire_fabric.Hub.Store.{
  StoreError, not_found, store_text, TaskRow, RunnerRow, RunnerCapability, ClaimResult, claimed,
  already_claimed,
}
use forgewire_fabric.Hub.Signed.{check_skew, verify_sig}

-- `ClaimV2Payload`, less the three fields that no route reads.
pub record ClaimPayload : Type 0 where
  pub runner_id : Text
  pub scope_prefixes : List Text
  pub tools : List Text
  pub tags : List Text
  pub tenant : Option Text
  pub workspace_root : Option Text
  pub last_known_commit : Option Text
  pub ram_free_mb : Option ℤ
  pub timestamp : ℤ
  pub nonce : Text
  pub signature : Text

pub record ClaimCalls (W N : Type 0) : Type 0 where
  pub unix_secs : W → ℤ
  pub utc_now : W → Text
  pub runner_public_key : Text → W → Result StoreError (Option Text)
  pub get_runner : Text → W → Result StoreError (RunnerRow N)
  pub list_tasks : Text → ℕ → W → Result StoreError (List (TaskRow N))
  pub runner_capabilities : Text → W → Result StoreError (List RunnerCapability)
  pub secret_envelopes : List Text → W → Result StoreError (TextMap Text)
  pub claim_task : ℤ → Text → Text → Text → W → Result StoreError (ClaimResult N) × W
  pub append_audit : Text → Option ℤ → Json N → W → W

-- The errors of a claim: a status with a message, or an error of the secrets.
pub data ClaimError : Type 0 where
  failed : ℕ → Text → ClaimError
  secret : SecretError → ClaimError

-- Why a runner gets no task.
pub data Refusal : Type 0 where
  drain : Refusal
  concurrency_cap : ℤ → ℤ → Refusal
  resource_gate : ℤ → Refusal
  queue_empty : Refusal
  no_eligible_runner : ℕ → Refusal

-- The answers, with their reasons; a claimed task comes with its secrets.
pub data ClaimAnswer (N : Type 0) : Type 0 where
  refused : Refusal → ClaimAnswer N
  lost_claim_race : ClaimAnswer N
  won : TaskRow N → TextMap Text → ClaimAnswer N

-- Why a request stops before a task is chosen.
pub data Stop : Type 0 where
  fails : ℕ → Text → Stop
  answers : Refusal → Stop
  panics : Stop

abbrev pub unwrap_or_default {ℓ} : {E A : Type ℓ} → Result E (List A) → List A
unwrap_or_default (err e) = []
unwrap_or_default (okay xs) = xs

abbrev pub is_one : Text → Option Text → Bool
is_one s none = false
is_one s (some t) = text_eq t s

abbrev pub or_blank : Option Text → Text
or_blank none = []
or_blank (some s) = s

abbrev has_capability : Text → Text → List RunnerCapability → Bool
has_capability kind name = any (λ c. text_eq c.capability_kind kind && text_eq c.name name)

abbrev pub require : Bool → Stop → Result Stop (Unit {0})
require true stop = okay tt
require false stop = err stop

-- `None => Ok`, and less than 512 MB is too little.
abbrev pub has_ram : Option ℤ → Result Stop (Unit {0})
has_ram none = okay tt
has_ram (some ram) = require (not (ltb_ℤ ram (pos 512))) (answers (resource_gate ram))

abbrev pub server_error : StoreError → Stop
server_error e = fails 500 (store_text e)

abbrev pub registered : Result StoreError (Option Text) → Result Stop Text
registered (err e) = err (server_error e)
registered (okay none) = err (fails 404 (text "runner not registered"))
registered (okay (some key)) = okay key

module _ {N : Type 0} where
  -- The strings of an array, or none of them.
  abbrev strings : Items N → List Text
  strings nil = []
  strings (cons (scalar (string s)) xs) = s ∷ strings xs
  strings (cons x xs) = strings xs

  abbrev pub texts_of : Json N → List Text
  texts_of (arr xs) = strings xs
  texts_of (scalar s) = []
  texts_of (obj fs) = []

  abbrev pub texts_in : Option (Json N) → List Text
  texts_in none = []
  texts_in (some v) = texts_of v

  abbrev pub build_candidate : TaskRow N → CandidateTask
  build_candidate t = record {
    scope_globs = texts_of t.scope_globs;
    required_tools = texts_in t.required_tools;
    required_tags = texts_in t.required_tags;
    tenant = t.tenant;
    workspace_root = t.workspace_root;
    require_base_commit = t.require_base_commit;
    base_commit = t.base_commit;
  }

  abbrev pub has_kind : Text → Json N → Bool
  has_kind kind kinds = any (text_eq kind) (texts_of kinds)

  -- The filters of the two queues.
  abbrev pub offered : Text → TaskRow N → Bool
  offered kind t = not t.cancel_requested && text_eq t.kind kind

  abbrev pub is_capable : List RunnerCapability → TaskRow N → Bool
  is_capable caps t =
      if is_one (text "skill") t.dispatch
      then has_capability (text "prompt") (or_blank t.skill) caps
      else if is_one (text "tool") t.dispatch
      then has_capability (text "tool") (or_blank t.tool) caps
      else true

  abbrev pub is_held_by : Text → TaskRow N → Bool
  is_held_by runner_id t = is_one runner_id t.worker_id

  abbrev pub runner_row : Result StoreError (RunnerRow N) → Result Stop (RunnerRow N)
  runner_row (okay r) = okay r
  runner_row (err (not_found e)) = err (fails 404 (text "runner not registered"))
  runner_row (err e) = err (server_error e)

  abbrev pub at_index : Option ℕ × ℕ → List (TaskRow N) → Result Stop (TaskRow N)
  at_index (none, seen) tasks = err (answers (no_eligible_runner seen))
  at_index (some idx, seen) tasks = ok_or panics (get_elem? tasks idx)

  -- `pick_task` among tasks of which there is at least one.
  abbrev pub chosen : List (TaskRow N) → RunnerView → Result Stop (TaskRow N)
  chosen tasks view =
      and_then (require (not (is_empty tasks)) (answers queue_empty))
        (λ u. at_index (pick_task (map build_candidate tasks) view) tasks)

abbrev pub view_of : ClaimPayload → RunnerView
view_of p = from_raw p.scope_prefixes p.tools p.tags p.tenant p.workspace_root p.last_known_commit
