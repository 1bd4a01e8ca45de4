-- ===== src/Hub/Claims/Tests.antt =====
-- Claims at a small world: one runner, one queued task, and time stamps at the edge of the window.
use forgewire_fabric.Prelude.{
  map, filter, ℕ, zero, suc, ◌-◌, ◌≤◌, ◌≡◌, ◌⊎◌, refl, false, true, none, some, List, [], ◌∷◌, Text,
  text, if◌then◌else◌, text_eq, arith, ◌+◌, ◌^◌, ◌↔◌,
}
use forgewire_fabric.Prelude.Int.{ℤ, pos, negsuc}
use forgewire_fabric.Prelude.Results.{Result, err, okay}
use forgewire_fabric.Prelude.Json.{
  field, end, object, string_value, Json, scalar, string, arr, nil, cons,
}
use forgewire_fabric.Protocol.{Bytes, verify_envelope_hex, verify_signature_hex}
use forgewire_fabric.ClaimRouter.{pick_task, pick_from, matches, scopes_within, from_raw}
use forgewire_fabric.Secrets.{missing_secret}
use forgewire_fabric.Hub.Store.{StoreError, RunnerRow, TaskRow, claimed}
use forgewire_fabric.Hub.Signed.{check_timestamp_skew, verify_sig}
use forgewire_fabric.Hub.Signed.Skew.{check_timestamp_skew_iff}
use forgewire_fabric.Hub.Claims.{ClaimPayload, ClaimCalls, won}
use forgewire_fabric.Hub.Claims.Routes.{
  Libraries, claim_task_loom, admitted, choose, do_claim, resolve_secrets,
}
use forgewire_fabric.Hub.Capabilities.{Numbers, parse}
use forgewire_fabric.Hub.Capabilities.Matching.{match_required, collect_missing, outcome, evaluate}
use forgewire_fabric.Hub.Capabilities.Resolve.{resolve}
use forgewire_fabric.Hub.Claims.Waiting.{
  WaitingTask, is_online, scan, collect_waiting, list_waiting_tasks,
}
use forgewire_fabric.Hub.Claims.Unmet.{Lists, list_waiting_tasks-Lists}

abbrev zeros : ℕ → Bytes
zeros zero = []
zeros (suc n) = 0 ∷ zeros n

-- Hex is the identity, every signature of 64 bytes holds, and there are no secrets.
abbrev libraries : Libraries ℤ Text (Unit {0})
libraries = record {
  crates = record {
    number_json = λ n. [];
    decode = λ s. okay s;
    encode = λ b. b;
    key_from_bytes = λ b. some tt;
    verify = λ k m s. true;
    sign = λ sk m. zeros 64;
  };
  print_hex = λ e. e;
  from_i64 = λ n. n;
  crypto = record {
    encode = λ b. b;
    decode = λ s. none;
    accepts_key = λ key. false;
    encrypt = λ key nonce message aad. none;
    decrypt = λ key nonce ciphertext aad. none;
    load_key = err (missing_secret []);
  };
}

abbrev task : TaskRow ℤ
task = record {
  id = pos 7;
  title = text "t";
  scope_globs = arr nil;
  base_commit = text "c";
  branch = text "b";
  kind = text "command";
  worker_id = none;
  cancel_requested = false;
  required_tools = none;
  required_tags = none;
  tenant = none;
  workspace_root = none;
  require_base_commit = false;
  required_capabilities = none;
  secrets_needed = none;
  dispatch = none;
  skill = none;
  tool = none;
}

-- A world is the queue and the kinds of the entries of the audit log.
abbrev World : Type 0
World = List (TaskRow ℤ) × List Text

abbrev calls : ClaimCalls World ℤ
calls = record {
  unix_secs = λ w. pos 1000;
  utc_now = λ w. text "now";
  runner_public_key = λ r w. okay (some (zeros 32));
  get_runner = λ r w. okay (record {
    runner_id = text "r";
    hostname = text "h";
    state = text "online";
    max_concurrent = pos 1;
    capabilities = arr nil;
    drain_requested = false;
    kinds = arr (cons (scalar (string (text "command"))) nil);
  });
  list_tasks = λ status limit w. okay (if text_eq status (text "queued") then w.0 else []);
  runner_capabilities = λ r w. okay [];
  secret_envelopes = λ names w. okay [];
  claim_task = λ id worker host now w. (okay (claimed task), ([], w.1));
  append_audit = λ kind id payload w. (w.0, kind ∷ w.1);
}

abbrev payload : ClaimPayload
payload = record {
  runner_id = text "r";
  scope_prefixes = [];
  tools = [];
  tags = [];
  tenant = none;
  workspace_root = none;
  last_known_commit = none;
  ram_free_mb = some (pos 512);
  timestamp = pos 700;
  nonce = text "n";
  signature = zeros 64;
}

abbrev no_one : Json ℤ
no_one = scalar (string (text "nobody"))

wins :
    claim_task_loom libraries calls no_one payload (task ∷ [], [])
    ≡ (some (okay (won task [])), ([], text "claim" ∷ []))
unfolding claim_task_loom admitted choose do_claim resolve_secrets check_timestamp_skew verify_sig
    verify_envelope_hex verify_signature_hex pick_task pick_from matches scopes_within from_raw
wins = refl

check_timestamp_skew_iff_example :
    (check_timestamp_skew (pos 1300) (pos 1000) ≡ okay tt)
    ↔ (((1300 ≤ 1000 + 0 + 300) × (1000 + 0 ≤ 1300 + 300)) ⊎ (1000 + 0 ≡ 2 ^ 63 + 1300))
check_timestamp_skew_iff_example =
    check_timestamp_skew_iff (pos 1300) 1000 (omega arith) (omega arith) (omega arith)

-- The distance from the smallest `i64` is itself.
farthest : check_timestamp_skew (negsuc (2 ^ 63 - 1001)) (pos 1000) ≡ okay tt
unfolding check_timestamp_skew
farthest = refl

abbrev numbers : Numbers ℤ
numbers = record {
  from_i64 = λ n. n;
  parse_f64 = λ s. none;
  num_eq = λ a b. false;
  num_ltb = λ a b. false;
  num_leb = λ a b. false;
  to_string = λ v. [];
  to_lowercase = λ s. s;
}

abbrev gated : TaskRow ℤ
gated = record task { required_capabilities = some (arr (cons (string_value (text "gpu")) nil)) }

abbrev idle : RunnerRow ℤ
idle = record {
  runner_id = text "r";
  hostname = text "h";
  state = text "online";
  max_concurrent = pos 1;
  capabilities = object [];
  drain_requested = false;
  kinds = arr nil;
}

abbrev entry : WaitingTask ℤ
entry = record {
  task_id = pos 7;
  title = text "t";
  branch = text "b";
  required_capabilities = arr (cons (string_value (text "gpu")) nil);
  missing_per_runner = field (text "r") (arr (cons (string_value (text "missing gpu")) nil)) end;
}

waits :
    list_waiting_tasks numbers calls (λ w. okay (idle ∷ [])) (gated ∷ task ∷ [], [])
    ≡ okay (entry ∷ [], text "r" ∷ [])
unfolding list_waiting_tasks collect_waiting scan match_required collect_missing outcome evaluate
    parse resolve
waits = refl

list_waiting_tasks-Lists_example :
    (runners : List (RunnerRow ℤ)) × (tasks : List (TaskRow ℤ)) × Path
      (Result StoreError (List (RunnerRow ℤ)))
      (okay (idle ∷ []))
      (okay runners)
    × Path (Result StoreError (List (TaskRow ℤ))) (okay (gated ∷ task ∷ [])) (okay tasks)
    × Lists numbers (filter is_online runners) tasks (entry ∷ [])
    × ((text "r" ∷ []) ≡ map (λ (r : RunnerRow ℤ). r.runner_id) (filter is_online runners))
list_waiting_tasks-Lists_example =
    list_waiting_tasks-Lists numbers calls (λ w. okay (idle ∷ [])) (gated ∷ task ∷ [], [])
      (entry ∷ []) (text "r" ∷ []) waits
