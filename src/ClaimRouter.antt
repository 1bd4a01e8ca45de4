-- ===== src/ClaimRouter.antt =====
-- crates/fabric-claim-router/src/lib.rs: which of the candidate tasks a runner may claim.
pub mod Glob
pub mod Prefixes
pub mod Matches
pub mod Pick
mod Tests
use mathlib.Core.List.{reverse}
use forgewire_fabric.Prelude.{
  ℕ, ◌+◌, Bool, true, false, not, ◌||◌, Option, none, some, List, [], ◌∷◌, ◌++◌, map, Text, text_eq,
  starts_with, find_char, rfind_char, replace_char, eq_ignore_ascii_case, length, take, any, all,
  is_empty, filter, ◌==◌, if◌then◌else◌,
}

pub record CandidateTask : Type 0 where
  pub scope_globs : List Text
  pub required_tools : List Text
  pub required_tags : List Text
  pub tenant : Option Text
  pub workspace_root : Option Text
  pub require_base_commit : Bool
  pub base_commit : Text

pub record RunnerView : Type 0 where
  pub scope_prefixes : List Text
  pub tools : List Text
  pub tags : List Text
  pub tenant : Option Text
  pub workspace_root : Option Text
  pub last_known_commit : Option Text

-- `while s.ends_with('/') { s.pop(); }`, on the reversed text
pop_slashes : Text → Text
pop_slashes [] = []
pop_slashes (c ∷ s) = let rest = pop_slashes s in if c == b'/' then rest else c ∷ s

normalise_prefix : Text → Text
unfolding pop_slashes
normalise_prefix p = reverse (pop_slashes (reverse (replace_char 0x5c b'/' p))) ++ b'/' ∷ []

unfoldable pub from_raw :
    List Text → List Text → List Text → Option Text → Option Text → Option Text → RunnerView
unfolding normalise_prefix
from_raw scope_prefixes tools tags tenant workspace_root last_known_commit = record {
  scope_prefixes = map normalise_prefix (filter (λ p. not (is_empty p)) scope_prefixes);
  tools = tools;
  tags = tags;
  tenant = tenant;
  workspace_root = workspace_root;
  last_known_commit = last_known_commit;
}

abbrev pub is_wildcard : ℕ → Bool
is_wildcard c = c == b'*' || c == b'?' || c == b'['

abbrev pub is_slash : ℕ → Bool
is_slash c = c == b'/'

abbrev pub is_backslash : ℕ → Bool
is_backslash c = c == 0x5c

-- the text is copied only where it holds a backslash
pub slashed : Text → Text
slashed glob = if any is_backslash glob then replace_char 0x5c b'/' glob else glob

-- `find` of a wildcard, or the length where there is none
wildcard_cut : Text → ℕ
wildcard_cut norm = elim (find_char is_wildcard norm) [ none ↦ length norm | some i ↦ i ]

directory_of : Text → Text
directory_of head = elim (rfind_char is_slash head) [
  | none ↦ []
  | some i ↦ take i head ++ b'/' ∷ []
]

pub glob_static_prefix : Text → Text
unfolding slashed wildcard_cut directory_of
glob_static_prefix glob = let norm = slashed glob in directory_of (take (wildcard_cut norm) norm)

-- The loop over the globs returns `false` at the first that overlaps with no prefix.
scopes_loop : List Text → List Text → Bool
scopes_loop [] runner_prefixes = true
scopes_loop (glob ∷ rest) runner_prefixes =
    let head = glob_static_prefix glob in
    let ok = any (λ p. starts_with head p || starts_with p head) runner_prefixes in
    let later = scopes_loop rest runner_prefixes in if not ok then false else later

unfoldable pub scopes_within : List Text → List Text → Bool
unfolding scopes_loop
scopes_within task_globs runner_prefixes =
    if is_empty runner_prefixes then true else scopes_loop task_globs runner_prefixes

abbrev tenant_differs : Option Text → Option Text → Bool
tenant_differs none runner = false
tenant_differs (some t) none = true
tenant_differs (some t) (some r) = not (text_eq r t)

abbrev workspace_differs : Option Text → Option Text → Bool
workspace_differs (some t) (some r) = not (text_eq t r)
workspace_differs _ _ = false

abbrev pub all_offered : List Text → List Text → Bool
all_offered required offered = all (λ t. any (λ rt. eq_ignore_ascii_case rt t) offered) required

abbrev commit_differs : Option Text → Text → Bool
commit_differs none base = true
commit_differs (some rc) base = not (text_eq rc base)

unfoldable pub matches : CandidateTask → RunnerView → Bool
matches task runner =
    if tenant_differs task.tenant runner.tenant
    then false
    else if workspace_differs task.workspace_root runner.workspace_root
    then false
    else if not (scopes_within task.scope_globs runner.scope_prefixes)
    then false
    else if not (all_offered task.required_tools runner.tools)
    then false
    else if not (all_offered task.required_tags runner.tags)
    then false
    else if task.require_base_commit
    then not (commit_differs runner.last_known_commit task.base_commit)
    else true

-- The loop, from index `idx` with `seen` candidates counted.
unfoldable pub pick_from : RunnerView → List CandidateTask → ℕ → ℕ → Option ℕ × ℕ
pick_from runner [] idx seen = (none, seen)
pick_from runner (task ∷ rest) idx seen =
    let later = pick_from runner rest (idx + 1) (seen + 1) in
    if matches task runner then (some idx, seen + 1) else later

unfoldable pub pick_task : List CandidateTask → RunnerView → Option ℕ × ℕ
unfolding pick_from
pick_task tasks runner = pick_from runner tasks 0 0
