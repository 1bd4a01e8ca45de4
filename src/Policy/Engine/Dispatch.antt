-- ===== src/Policy/Engine/Dispatch.antt =====
-- What a request must satisfy to be dispatched without approval, and that `evaluate_dispatch`
-- decides it.
use mathlib.Core.Path.{subst}
use forgewire_fabric.Prelude.{
  ◌≡◌, ◌≢◌, refl, ◌↔◌, ◌⊎◌, inl, inr, Bool, true, false, not, ◌&&◌, Option, none, some, List, [],
  ◌∷◌, Text, text, All, Exists, text_eq, text_eq_iff, text_eq_sound, starts_with, any, any_iff,
  is_empty, first_some, if◌then◌else◌, iff_trans, iff_×, not_iff, or_false_iff, Bool-cases,
}
use forgewire_fabric.Policy.{FabricPolicy, PolicyDecision, DispatchRequest}
use forgewire_fabric.Policy.Globs.{glob_match, trim_wildcards, scopes_overlap}
use forgewire_fabric.Policy.Engine.{
  branch_blocked, branch_unlisted, branch_protected, branch_checks, scope_blocked, scope_forbidden,
  scope_held, scope_checks, within_prefix, cwd_forbidden, cwd_escapes, cwd_checks, command_checks,
  evaluate_dispatch, or_next,
}
use forgewire_fabric.Policy.Engine.Options.{
  or_next-none_iff, return_if-none_iff, first_none_iff, Refuses, Refuses-or_next, Refuses-deny,
  Refuses-hold, Refuses-first, allowed_iff,
}

-- No pattern of the list relates to the value by the test.
abbrev pub NoneOf : (Text → Bool) → List Text → Type 0
NoneOf test = All (λ x. test x ≡ false)

-- An allowlist that is empty allows everything.
abbrev pub Listed : (Text → Bool) → List Text → Type 0
Listed test xs = (xs ≡ []) ⊎ Exists (λ x. test x ≡ true) xs

pub Listed-iff :
    (test : Text → Bool) (xs : List Text)
    → ((not (is_empty xs) && not (any test xs)) ≡ false) ↔ Listed test xs
Listed-iff test [] = (λ h. inl refl, λ h. refl)
Listed-iff test (x ∷ xs) = (
  λ h. inr ((any_iff test (λ y. (λ e. e, λ e. e)) (x ∷ xs)).0 ((not_iff _).0 h)),
  elim [ inl e ↦ cc | inr h ↦ (not_iff _).1 ((any_iff test (λ y. (λ e. e, λ e. e)) (x ∷ xs)).1 h) ],
)

module _ {F : Type 0} (p : FabricPolicy F) where
  abbrev pub BranchPermitted : Text → Type 0
  BranchPermitted branch =
      NoneOf (λ g. glob_match g branch) p.blocked_branches
      × (Listed (λ g. glob_match g branch) p.allowed_branches
          × NoneOf (λ g. glob_match g branch) p.protected_branches)

  abbrev pub ScopePermitted : Text → Type 0
  ScopePermitted glob =
      NoneOf (scopes_overlap glob) p.blocked_scope_globs
      × (NoneOf (scopes_overlap glob) p.forbidden_paths
          × NoneOf (scopes_overlap glob) p.require_approval_for_scopes)

  abbrev pub CwdPermitted : List Text → Text → Type 0
  CwdPermitted scope_globs cwd =
      All (λ f. (glob_match f cwd ≡ false) × (starts_with cwd (trim_wildcards f) ≡ false))
        p.forbidden_paths
      × Listed (within_prefix cwd) scope_globs

  pub record Permits (req : DispatchRequest) : Type 0 where
    pub branch : (b : Text) → req.target_branch ≡ some b → BranchPermitted b
    pub scopes : All ScopePermitted req.scope_globs
    pub command :
        (cwd : Text)
        → req.kind ≡ text "command"
        → req.cwd ≡ some cwd
        → cwd ≢ []
        → CwdPermitted req.scope_globs cwd

  branch_iff : (b : Text) → (branch_checks p (some b) ≡ none) ↔ BranchPermitted b
  unfolding branch_checks branch_blocked branch_unlisted branch_protected
  branch_iff b = iff_trans (or_next-none_iff _ _) (
      iff_× (first_none_iff _ (λ g. return_if-none_iff _ _) p.blocked_branches) (
        iff_trans (or_next-none_iff _ _) (
          iff_× (iff_trans (return_if-none_iff _ _) (Listed-iff _ p.allowed_branches))
            (first_none_iff _ (λ g. return_if-none_iff _ _) p.protected_branches))))

  scope_iff : (glob : Text) → (scope_checks p glob ≡ none) ↔ ScopePermitted glob
  unfolding scope_checks scope_blocked scope_forbidden scope_held
  scope_iff glob = iff_trans (or_next-none_iff _ _) (
      iff_× (first_none_iff _ (λ g. return_if-none_iff _ _) p.blocked_scope_globs) (
        iff_trans (or_next-none_iff _ _) (
          iff_× (first_none_iff _ (λ g. return_if-none_iff _ _) p.forbidden_paths)
            (first_none_iff _ (λ g. return_if-none_iff _ _) p.require_approval_for_scopes))))

  cwd_iff :
      (globs : List Text) (cwd : Text)
      → (or_next (cwd_forbidden p cwd) (cwd_escapes p globs cwd) ≡ none) ↔ CwdPermitted globs cwd
  unfolding cwd_forbidden cwd_escapes
  cwd_iff globs cwd = iff_trans (or_next-none_iff _ _) (
      iff_×
        (first_none_iff _ (λ g. iff_trans (return_if-none_iff _ _) (or_false_iff _ _))
          p.forbidden_paths)
        (iff_trans (return_if-none_iff _ _) (Listed-iff _ globs)))

  branches_iff :
      (o : Option Text) → (branch_checks p o ≡ none) ↔ ((b : Text) → o ≡ some b → BranchPermitted b)
  branches_iff none = (λ h b e. cc, λ h. unfold branch_checks in refl)
  branches_iff (some b) =
      (λ h c e. subst BranchPermitted (cc e) ((branch_iff b).0 h), λ h. (branch_iff b).1 (h b refl))

  working_iff :
      (req : DispatchRequest) (o : Option Text)
      → (cwd_checks p req o ≡ none)
        ↔ ((cwd : Text) → o ≡ some cwd → cwd ≢ [] → CwdPermitted req.scope_globs cwd)
  unfolding cwd_checks
  working_iff req none = (λ h cwd e ne. cc, λ h. refl)
  working_iff req (some []) = (λ h cwd e ne. absurd (ne (cc e)), λ h. refl)
  working_iff req (some (c ∷ cs)) = (
    λ h cwd e ne.
        subst (CwdPermitted req.scope_globs) (cc e) ((cwd_iff req.scope_globs (c ∷ cs)).0 h),
    λ h. (cwd_iff req.scope_globs (c ∷ cs)).1 (h (c ∷ cs) refl (λ e. cc e)),
  )

  commands_iff :
      (req : DispatchRequest)
      → (command_checks p req ≡ none) ↔ (
          (cwd : Text)
          → req.kind ≡ text "command"
          → req.cwd ≡ some cwd
          → cwd ≢ []
          → CwdPermitted req.scope_globs cwd)
  unfolding command_checks
  commands_iff req = split (text_eq req.kind (text "command")) refl
    where
      split :
          (b : Bool)
          → text_eq req.kind (text "command") ≡ b
          → ((if b then cwd_checks p req req.cwd else none) ≡ none) ↔ (
              (cwd : Text)
              → req.kind ≡ text "command"
              → req.cwd ≡ some cwd
              → cwd ≢ []
              → CwdPermitted req.scope_globs cwd)
      split true e = (
        λ h cwd k. (working_iff req req.cwd).0 h cwd,
        λ h. (working_iff req req.cwd).1 (λ cwd. h cwd (text_eq_sound req.kind (text "command") e)),
      )
      split false e = (λ h cwd k. cc (e, (text_eq_iff req.kind (text "command")).1 k), λ h. refl)

  Refuses-branch : (o : Option Text) → Refuses (branch_checks p o)
  unfolding branch_checks branch_blocked branch_unlisted branch_protected
  Refuses-branch none = tt
  Refuses-branch (some b) =
      Refuses-or_next _ _ (Refuses-first _ (λ g. Refuses-deny _ _) p.blocked_branches) (
        Refuses-or_next _ _ (Refuses-deny _ _)
          (Refuses-first _ (λ g. Refuses-hold _ _) p.protected_branches))

  Refuses-scope : (glob : Text) → Refuses (scope_checks p glob)
  unfolding scope_checks scope_blocked scope_forbidden scope_held
  Refuses-scope glob =
      Refuses-or_next _ _ (Refuses-first _ (λ g. Refuses-deny _ _) p.blocked_scope_globs) (
        Refuses-or_next _ _ (Refuses-first _ (λ g. Refuses-deny _ _) p.forbidden_paths)
          (Refuses-first _ (λ g. Refuses-hold _ _) p.require_approval_for_scopes))

  Refuses-cwd : (req : DispatchRequest) (o : Option Text) → Refuses (cwd_checks p req o)
  unfolding cwd_checks cwd_forbidden cwd_escapes
  Refuses-cwd req none = tt
  Refuses-cwd req (some []) = tt
  Refuses-cwd req (some (c ∷ cs)) =
      Refuses-or_next _ _ (Refuses-first _ (λ g. Refuses-deny _ _) p.forbidden_paths)
        (Refuses-deny _ _)

  Refuses-command : (req : DispatchRequest) → Refuses (command_checks p req)
  unfolding command_checks
  Refuses-command req = elim (Bool-cases (text_eq req.kind (text "command"))) [
    | inl e ↦ rw e (Refuses-cwd req req.cwd)
    | inr e ↦ rw e tt
  ]

  unfoldable pub first_refusal : DispatchRequest → Option PolicyDecision
  first_refusal req =
      or_next (branch_checks p req.target_branch)
        (or_next (first_some (scope_checks p) req.scope_globs) (command_checks p req))

  pub Refuses-first_refusal : (req : DispatchRequest) → Refuses (first_refusal req)
  unfolding first_refusal
  Refuses-first_refusal req =
      Refuses-or_next _ _ (Refuses-branch req.target_branch)
        (Refuses-or_next _ _ (Refuses-first _ Refuses-scope req.scope_globs) (Refuses-command req))

  pub evaluate_dispatch-Permits :
      (req : DispatchRequest) → ((evaluate_dispatch p req).allowed ≡ true) ↔ Permits req
  unfolding evaluate_dispatch first_refusal
  evaluate_dispatch-Permits req =
      iff_trans (allowed_iff (first_refusal req) (Refuses-first_refusal req)) (
        iff_trans (or_next-none_iff _ _) (
          iff_trans
            (iff_× (branches_iff req.target_branch) (
              iff_trans (or_next-none_iff _ _)
                (iff_× (first_none_iff _ scope_iff req.scope_globs) (commands_iff req))))
            (
              λ h. record { branch = h.0; scopes = h.1.0; command = h.1.1 },
              λ h. (h.branch, (h.scopes, h.command)),
            )))

  -- A dispatch is allowed at once exactly if its branch passes the three lists of branches, each of
  -- its scopes overlaps no blocked scope, forbidden path or scope for approval, and the working
  -- directory of a command lies off the forbidden paths and within its scopes. The list
  -- `allowed_scope_globs` has no part in the decision: any other list gives the same one.
  pub evaluate_dispatch_allowed_iff :
      (req : DispatchRequest)
      → (((evaluate_dispatch p req).allowed ≡ true) ↔ Permits req)
        × ((globs : List Text)
            → evaluate_dispatch (record p { allowed_scope_globs = globs }) req
              ≡ evaluate_dispatch p req)
  unfolding evaluate_dispatch branch_blocked branch_unlisted branch_protected scope_checks
      cwd_forbidden cwd_escapes scope_blocked scope_forbidden scope_held
  evaluate_dispatch_allowed_iff req = (evaluate_dispatch-Permits req, λ globs. refl)
