-- ===== src/Policy/Engine/Masking.antt =====
-- What an approval requirement on the branch hides from the later checks.
use forgewire_fabric.Prelude.{
  ◌≡◌, inl, inr, Bool, true, none, some, List, [], ◌∷◌, ◌++◌, arith, Text, text, Exists, first_some,
}
use forgewire_fabric.Policy.{FabricPolicy, PolicyDecision, require_approval, DispatchRequest}
use forgewire_fabric.Policy.Globs.{glob_match}
use forgewire_fabric.Policy.Engine.{
  branch_blocked, branch_unlisted, branch_protected, branch_checks, evaluate_dispatch, return_if,
}
use forgewire_fabric.Policy.Engine.Options.{first_none_iff, return_if-none_iff}
use forgewire_fabric.Policy.Engine.Dispatch.{NoneOf, Listed, Listed-iff}

first_hit :
    (test : Text → Bool) (d : PolicyDecision) (xs : List Text)
    → Exists (λ x. test x ≡ true) xs
    → first_some (λ x. return_if (test x) d) xs ≡ some d
first_hit test d [] h = elim h [ ]
first_hit test d (x ∷ xs) (inl e) = ground arith
first_hit test d (x ∷ xs) (inr h) = ground (arith, first_hit test d xs h)

module _ {F : Type 0} (p : FabricPolicy F) (branch : Text) where
  abbrev pub held_message : Text
  held_message = text "branch '" ++ branch ++ text "' is protected — operator approval required"

  branch_held :
      NoneOf (λ g. glob_match g branch) p.blocked_branches
      → Listed (λ g. glob_match g branch) p.allowed_branches
      → Exists (λ g. glob_match g branch ≡ true) p.protected_branches
      → branch_checks p (some branch) ≡ some (require_approval held_message)
  unfolding branch_checks
  branch_held unblocked listed protected =
      let blocked : branch_blocked p branch ≡ none =
        unfold branch_blocked in
        (first_none_iff _ (λ g. return_if-none_iff _ _) p.blocked_branches).1 unblocked in
      let unlisted : branch_unlisted p branch ≡ none =
        unfold branch_unlisted in
        (return_if-none_iff _ _).1 ((Listed-iff _ p.allowed_branches).1 listed) in
      let held : branch_protected p branch ≡ some (require_approval held_message) =
        unfold branch_protected in first_hit _ _ _ protected in
      rw (blocked, unlisted, held)

  -- A task for a protected branch that is neither blocked nor unlisted is held for approval, never
  -- denied, whatever its scopes and its working directory are: the paths that the policy
  -- forbids are not looked at.
  pub protected_branch_masks :
      (req : DispatchRequest)
      → req.target_branch ≡ some branch
      → NoneOf (λ g. glob_match g branch) p.blocked_branches
      → Listed (λ g. glob_match g branch) p.allowed_branches
      → Exists (λ g. glob_match g branch ≡ true) p.protected_branches
      → evaluate_dispatch p req ≡ require_approval held_message
  unfolding evaluate_dispatch
  protected_branch_masks req target unblocked listed protected =
      rw (target, branch_held unblocked listed protected)
