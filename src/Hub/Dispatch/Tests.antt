-- ===== src/Hub/Dispatch/Tests.antt =====
-- Signed dispatches at a small world: one dispatcher, a policy with nothing forbidden, no caps.
use forgewire_fabric.Prelude.{
  ℕ, zero, suc, ◌≡◌, refl, false, true, none, some, List, [], ◌∷◌, map, Text, text, leb,
}
use forgewire_fabric.Prelude.Int.{ℤ, pos}
use forgewire_fabric.Prelude.Results.{err, okay}
use forgewire_fabric.Prelude.Json.{null, number, Json, scalar, arr, nil}
use forgewire_fabric.Protocol.{Bytes, verify_envelope_hex, verify_signature_hex}
use forgewire_fabric.Policy.{Float, FabricPolicy, BudgetPolicy}
use forgewire_fabric.Policy.Budget.{check_dispatch, has_cost_caps, effective_budget}
use forgewire_fabric.Policy.Gate.{new_gate, gate_dispatch}
use forgewire_fabric.Policy.Engine.{
  evaluate_dispatch, branch_blocked, branch_unlisted, branch_protected,
}
use forgewire_fabric.Policy.Globs.{glob_match}
use forgewire_fabric.Hub.Store.{TaskRow, CreateTaskParams}
use forgewire_fabric.Hub.Signed.{check_timestamp_skew, verify_sig}
use forgewire_fabric.Hub.Dispatch.{
  DispatchPayload, SignedDispatchPayload, DispatchCalls, DispatchLibraries, queued, held,
}
use forgewire_fabric.Hub.Dispatch.Checks.{checked, budget_denial}
use forgewire_fabric.Hub.Dispatch.Routes.{Dispatch, dispatch_task_signed}
use forgewire_fabric.Hub.Dispatch.Promise.{IsSound}
use forgewire_fabric.Hub.Dispatch.Outcomes.{dispatch-IsSound}

abbrev zeros : ℕ → Bytes
zeros zero = []
zeros (suc n) = 0 ∷ zeros n

abbrev cents : Float
cents = record { F = ℕ; geb = λ a b. leb b a; format4 = λ a. [] }

abbrev libraries : DispatchLibraries ℤ Text (Unit {0})
libraries = record {
  crates = record {
    number_json = λ n. [];
    decode = λ s. okay s;
    encode = λ b. b;
    key_from_bytes = λ b. some tt;
    verify = λ k m s. true;
    sign = λ sk m. zeros 64;
  };
  print_hex = λ e. e;
  hex_sha256 = λ b. text "digest";
  from_i64 = λ n. n;
  float = cents;
  from_f64 = λ c. number (pos c);
}

abbrev task_of : CreateTaskParams ℤ → TaskRow ℤ
task_of p = record {
  id = pos 7;
  title = p.title;
  scope_globs = arr nil;
  base_commit = p.base_commit;
  branch = p.branch;
  kind = p.kind;
  worker_id = none;
  cancel_requested = false;
  required_tools = none;
  required_tags = none;
  tenant = p.tenant;
  workspace_root = p.workspace_root;
  require_base_commit = false;
  required_capabilities = none;
  secrets_needed = none;
  dispatch = p.dispatch;
  skill = p.skill;
  tool = p.tool;
}

-- A world is the kinds of the entries of the audit log.
abbrev World : Type 0
World = List Text

abbrev calls : DispatchCalls World ℤ ℕ
calls = record {
  unix_secs = λ w. pos 1000;
  utc_now = λ w. text "now";
  get_dispatcher = λ d w. okay (record {
    dispatcher_id = d;
    public_key = zeros 32;
    label = text "l";
    hostname = none;
    metadata = scalar null;
  });
  consume_dispatcher_nonce = λ d n now w. (okay tt, w);
  current_budget = λ now w. okay (record { daily_spend_usd = 0; weekly_spend_usd = 0 });
  create_or_get_pending_approval =
      λ hash decision label branch globs id now w. (okay (text "a", true), w);
  create_task = λ p now w. (okay (task_of p), w);
  append_audit = λ kind id payload w. kind ∷ w;
  forgelink_enabled = false;
  route_approval = λ request w. (okay [], w);
}

abbrev caps : BudgetPolicy ℕ
caps = record { weekly_task_cap = none; daily_cost_cap_usd = none; weekly_cost_cap_usd = none }

abbrev policy : FabricPolicy ℕ
policy = record {
  protected_branches = text "main" ∷ [];
  blocked_branches = [];
  allowed_branches = [];
  forbidden_paths = [];
  allowed_scope_globs = [];
  blocked_scope_globs = [];
  require_approval_for_scopes = [];
  require_approval = [];
  egress_allowlist = [];
  max_diff_lines = none;
  max_concurrent_tasks = none;
  require_signed_dispatch = true;
  daily_budget_usd = none;
  weekly_budget_usd = none;
  weekly_alert_threshold = none;
  budget = caps;
}

abbrev command : Text → DispatchPayload ℤ ℕ
command branch = record {
  title = text "t";
  prompt = [];
  scope_globs = [];
  base_commit = [];
  branch = branch;
  todo_id = none;
  timeout_minutes = pos 60;
  priority = pos 100;
  kind = text "command";
  metadata = scalar null;
  required_tools = none;
  required_tags = none;
  tenant = none;
  workspace_root = none;
  require_base_commit = false;
  required_capabilities = none;
  secrets_needed = none;
  network_egress = none;
  approval_id = none;
  max_cost_usd = none;
  dispatch = none;
  skill = none;
  tool = none;
  args = none;
  input = none;
  command = some (text "ls" ∷ []);
  cwd = none;
  env = none;
  target = none;
  loom_env_digest = some (text "digest");
}

abbrev signed : Text → SignedDispatchPayload ℤ ℕ
signed branch = record {
  base = command branch;
  dispatcher_id = text "d";
  timestamp = pos 1000;
  nonce = text "n";
  signature = zeros 64;
}

abbrev no_one : Json ℤ
no_one = scalar null

-- The message or the name of the answer, and the audit log.
abbrev shown : Dispatch World ℤ → Text × List Text
shown (err e, w) = (e.1, w)
shown (okay (queued t), w) = (text "queued", w)
shown (okay (held t a r f), w) = (text "held", w)

abbrev run : Text → Text × List Text
run branch =
    shown (dispatch_task_signed libraries calls (new_gate policy) caps no_one (signed branch) [])

dispatch-IsSound_example :
    IsSound libraries calls
      (new_gate policy)
      caps
      no_one
      (signed (text "main"))
      []
      (dispatch_task_signed libraries calls (new_gate policy) caps no_one (signed (text "main")) [])
dispatch-IsSound_example =
    dispatch-IsSound libraries calls (new_gate policy) caps no_one (signed (text "main")) []

answers :
    map run (text "dev" ∷ text "main" ∷ [])
    ≡ (text "queued", text "dispatch" ∷ []) ∷ (text "held", text "dispatch_held" ∷ []) ∷ []
unfolding dispatch_task_signed checked check_timestamp_skew verify_sig verify_envelope_hex
    verify_signature_hex budget_denial gate_dispatch check_dispatch evaluate_dispatch has_cost_caps
    effective_budget branch_blocked branch_unlisted branch_protected glob_match
answers = refl
