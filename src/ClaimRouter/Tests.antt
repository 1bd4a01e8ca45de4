-- ===== src/ClaimRouter/Tests.antt =====
-- Runs of the claim router on small inputs.
use forgewire_fabric.Prelude.{◌≡◌, refl, false, none, some, List, [], ◌∷◌, Text, text}
use forgewire_fabric.ClaimRouter.{
  CandidateTask, RunnerView, from_raw, glob_static_prefix, scopes_within, matches, pick_task,
}
use forgewire_fabric.ClaimRouter.Pick.{Picked, pick_task-Picked}

abbrev task : Text → CandidateTask
task glob = record {
  scope_globs = glob ∷ [];
  required_tools = text "Cargo" ∷ [];
  required_tags = [];
  tenant = none;
  workspace_root = none;
  require_base_commit = false;
  base_commit = text "deadbeef";
}

abbrev prefixes : List Text
prefixes = text "modules\\jobs//" ∷ text "" ∷ []

abbrev runner : RunnerView
runner = record {
  scope_prefixes = text "modules/jobs/" ∷ [];
  tools = text "cargo" ∷ [];
  tags = [];
  tenant = none;
  workspace_root = none;
  last_known_commit = none;
}

abbrev tasks : List CandidateTask
tasks = task (text "docs/**") ∷ task (text "modules/jobs/**") ∷ []

static_prefixes :
    (glob_static_prefix (text "modules/jobs/**") ≡ text "modules/jobs/")
    × (glob_static_prefix (text "tests\\**\\test_x.py") ≡ text "tests/")
    × (glob_static_prefix (text "foo") ≡ [])
unfolding glob_static_prefix
static_prefixes = (refl, refl, refl)

normalised : (from_raw prefixes (text "cargo" ∷ []) [] none none none) ≡ runner
unfolding from_raw
normalised = refl

second_task : pick_task tasks runner ≡ (some 1, 2)
unfolding pick_task matches scopes_within glob_static_prefix
second_task = refl

pick_task-Picked_example : Picked runner tasks 0 (pick_task tasks runner)
pick_task-Picked_example = pick_task-Picked tasks runner
