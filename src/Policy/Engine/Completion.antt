-- ===== src/Policy/Engine/Completion.antt =====
-- What a completed task must satisfy, and which actions are held.
use forgewire_fabric.Prelude.{
  ◌≡◌, refl, ◌↔◌, true, Option, none, some, arith, Text, All, Exists, text_eq_iff, any_iff,
  first_some, iff_trans, iff_×,
}
use forgewire_fabric.Prelude.Int.{ℤ, ◌≤ℤ◌}
use forgewire_fabric.Policy.{FabricPolicy, CompletionRequest}
use forgewire_fabric.Policy.Globs.{glob_match}
use forgewire_fabric.Policy.Engine.{
  diff_too_large, path_forbidden, evaluate_completion, evaluate_intent, or_next,
}
use forgewire_fabric.Policy.Engine.Options.{
  or_next-none_iff, return_if-none_iff, first_none_iff, Refuses, Refuses-or_next, Refuses-deny,
  Refuses-first, allowed_iff,
}
use forgewire_fabric.Policy.Engine.Dispatch.{NoneOf}

module _ {F : Type 0} (p : FabricPolicy F) where
  diff_iff :
      (lines : ℤ) (o : Option ℤ)
      → (diff_too_large p lines o ≡ none) ↔ ((max : ℤ) → o ≡ some max → lines ≤ℤ max)
  unfolding diff_too_large
  diff_iff lines none = (λ h max e. cc, λ h. refl)
  diff_iff lines (some max) =
      (λ h m e. ground arith, λ h. let fits : lines ≤ℤ max = h max refl in ground arith)

  path_iff :
      (path : Text)
      → (path_forbidden p path ≡ none) ↔ NoneOf (λ f. glob_match f path) p.forbidden_paths
  unfolding path_forbidden
  path_iff path = first_none_iff _ (λ g. return_if-none_iff _ _) p.forbidden_paths

  Refuses-diff : (lines : ℤ) (o : Option ℤ) → Refuses (diff_too_large p lines o)
  unfolding diff_too_large
  Refuses-diff lines none = tt
  Refuses-diff lines (some max) = Refuses-deny _ _

  Refuses-path : (path : Text) → Refuses (path_forbidden p path)
  unfolding path_forbidden
  Refuses-path path = Refuses-first _ (λ g. Refuses-deny _ _) p.forbidden_paths

  pub Refuses-completion :
      (req : CompletionRequest)
      → Refuses (
          or_next
            (diff_too_large p req.diff_lines p.max_diff_lines)
            (first_some (path_forbidden p) req.changed_paths))
  Refuses-completion req =
      Refuses-or_next _ _ (Refuses-diff req.diff_lines p.max_diff_lines)
        (Refuses-first _ Refuses-path req.changed_paths)

  -- A result is accepted exactly if its diff is no longer than the limit, where there is one, and no
  -- changed path matches a forbidden glob.
  pub evaluate_completion_allowed_iff :
      (req : CompletionRequest)
      → ((evaluate_completion p req).allowed ≡ true) ↔ (
          ((max : ℤ) → p.max_diff_lines ≡ some max → req.diff_lines ≤ℤ max)
          × All (λ path. NoneOf (λ f. glob_match f path) p.forbidden_paths) req.changed_paths)
  unfolding evaluate_completion
  evaluate_completion_allowed_iff req = iff_trans (allowed_iff _ (Refuses-completion req)) (
      iff_trans (or_next-none_iff _ _) (
        iff_× (diff_iff req.diff_lines p.max_diff_lines)
          (first_none_iff _ path_iff req.changed_paths)))

  -- An action is held exactly if the policy names it, and is allowed otherwise.
  pub evaluate_intent_iff :
      (action : Text)
      → ((evaluate_intent p action).needs_approval ≡ true)
        ↔ Exists (λ a. a ≡ action) p.require_approval
  unfolding evaluate_intent
  evaluate_intent_iff action =
      let named = any_iff _ (λ a. text_eq_iff a action) p.require_approval in
      (λ h. named.0 (ground arith), λ h. rw (named.1 h))
