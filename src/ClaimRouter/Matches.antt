-- ===== src/ClaimRouter/Matches.antt =====
-- The match contract of a task and a runner, stated gate by gate, and that `matches` decides it.
use forgewire_fabric.Prelude.{
  ◌≡◌, refl, ◌↔◌, ◌⊎◌, inl, inr, true, false, not, ◌||◌, Option, none, some, List, [], ◌∷◌, arith,
  Text, All, Exists, IsPrefix, any, all, text_eq_iff, text_eq_sound, text_eq_self, starts_with,
  starts_with_iff, to_ascii_lowercase, all_iff, any_iff, or_iff, Bool-cases, if◌then◌else◌,
}
use forgewire_fabric.ClaimRouter.{
  CandidateTask, RunnerView, glob_static_prefix, scopes_loop, scopes_within, tenant_differs,
  workspace_differs, commit_differs, all_offered, matches,
}

-- One of two texts is a prefix of the other.
abbrev pub Overlaps : Text → Text → Type 0
Overlaps head p = IsPrefix p head ⊎ IsPrefix head p

-- The scopes of a task lie within the prefixes of a runner; no prefix at all accepts everything.
abbrev pub Covers : List Text → List Text → Type 0
Covers [] globs = Unit
Covers (p ∷ ps) globs = All (λ g. Exists (Overlaps (glob_static_prefix g)) (p ∷ ps)) globs

-- Each required name is offered, up to the case of ASCII letters.
abbrev pub Offers : List Text → List Text → Type 0
Offers offered required =
    All (λ t. Exists (λ rt. to_ascii_lowercase rt ≡ to_ascii_lowercase t) offered) required

pub record IsEligible (task : CandidateTask) (runner : RunnerView) : Type 0 where
  pub tenant : (t : Text) → task.tenant ≡ some t → runner.tenant ≡ some t
  pub workspace :
      (t r : Text) → task.workspace_root ≡ some t → runner.workspace_root ≡ some r → t ≡ r
  pub scope : Covers runner.scope_prefixes task.scope_globs
  pub tools : Offers runner.tools task.required_tools
  pub tags : Offers runner.tags task.required_tags
  pub commit : task.require_base_commit ≡ true → runner.last_known_commit ≡ some task.base_commit

Overlaps-iff :
    (head p : Text) → ((starts_with head p || starts_with p head) ≡ true) ↔ Overlaps head p
Overlaps-iff head p =
    or_iff (starts_with head p) (starts_with p head) (starts_with_iff head p)
      (starts_with_iff p head)

scopes_loop-eq-all :
    (globs ps : List Text)
    → scopes_loop globs ps
      ≡ all
          (λ g.
            any
              (λ p. starts_with (glob_static_prefix g) p || starts_with p (glob_static_prefix g))
              ps)
          globs
unfolding scopes_loop
scopes_loop-eq-all [] ps = refl
scopes_loop-eq-all (g ∷ gs) ps = ground (arith, scopes_loop-eq-all gs ps)

scopes_within_iff : (globs ps : List Text) → (scopes_within globs ps ≡ true) ↔ Covers ps globs
unfolding scopes_within
scopes_within_iff globs [] = (λ h. tt, λ h. refl)
scopes_within_iff globs (p ∷ ps) =
    rw scopes_loop-eq-all
      (all_iff _ (λ g. any_iff _ (λ q. Overlaps-iff (glob_static_prefix g) q) (p ∷ ps)) globs)

all_offered_iff :
    (required offered : List Text) → (all_offered required offered ≡ true) ↔ Offers offered required
all_offered_iff required offered =
    all_iff _
      (λ t. any_iff _ (λ rt. text_eq_iff (to_ascii_lowercase rt) (to_ascii_lowercase t)) offered)
      required

tenant_iff :
    (a b : Option Text) → (tenant_differs a b ≡ false) ↔ ((t : Text) → a ≡ some t → b ≡ some t)
tenant_iff none b = (λ h t e. cc, λ h. refl)
tenant_iff (some t) none = (λ h u e. cc, λ h. cc (h t refl))
tenant_iff (some t) (some r) = (
  λ h u e. cc (text_eq_sound r t (ground arith)),
  λ h. let e : r ≡ t = ground (arith, h t refl) in rw (e, text_eq_self t),
)

workspace_iff :
    (a b : Option Text)
    → (workspace_differs a b ≡ false) ↔ ((t r : Text) → a ≡ some t → b ≡ some r → t ≡ r)
workspace_iff none b = (λ h t r e f. cc, λ h. refl)
workspace_iff (some t) none = (λ h u r e f. cc, λ h. refl)
workspace_iff (some t) (some r) = (
  λ h u v e f. cc (text_eq_sound t r (ground arith)),
  λ h. let e : t ≡ r = h t r refl refl in rw (e, text_eq_self r),
)

commit_iff : (a : Option Text) (base : Text) → (commit_differs a base ≡ false) ↔ (a ≡ some base)
commit_iff none base = (λ h. cc, λ h. cc)
commit_iff (some rc) base = (
  λ h. cc (text_eq_sound rc base (ground arith)),
  λ h. let e : rc ≡ base = ground arith in rw (e, text_eq_self base),
)

-- A task matches a runner exactly if all six gates of the contract hold.
pub matches_iff :
    (task : CandidateTask) (runner : RunnerView)
    → (matches task runner ≡ true) ↔ IsEligible task runner
unfolding matches
matches_iff task runner = (
  λ h. record {
    tenant = (tenant_iff task.tenant runner.tenant).0 (ground arith);
    workspace = (workspace_iff task.workspace_root runner.workspace_root).0 (ground arith);
    scope = (scopes_within_iff task.scope_globs runner.scope_prefixes).0 (ground arith);
    tools = (all_offered_iff task.required_tools runner.tools).0 (ground arith);
    tags = (all_offered_iff task.required_tags runner.tags).0 (ground arith);
    commit = λ r. (commit_iff runner.last_known_commit task.base_commit).0 (ground arith);
  },
  λ e.
      let tenant = (tenant_iff task.tenant runner.tenant).1 e.tenant in
      let workspace = (workspace_iff task.workspace_root runner.workspace_root).1 e.workspace in
      let scope = (scopes_within_iff task.scope_globs runner.scope_prefixes).1 e.scope in
      let tools = (all_offered_iff task.required_tools runner.tools).1 e.tools in
      let tags = (all_offered_iff task.required_tags runner.tags).1 e.tags in
      rw (tenant, workspace, scope, tools, tags) (last (Bool-cases task.require_base_commit) e),
)
  where
    last :
        (task.require_base_commit ≡ true) ⊎ (task.require_base_commit ≡ false)
        → IsEligible task runner
        → (if task.require_base_commit
            then not (commit_differs runner.last_known_commit task.base_commit)
            else true)
          ≡ true
    last (inl needed) e =
        rw (needed, (commit_iff runner.last_known_commit task.base_commit).1 (e.commit needed))
    last (inr free) e = rw free
