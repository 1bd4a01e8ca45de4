-- ===== src/Policy/Engine/Options.antt =====
-- When a chain of checks goes on, and what it returns when it does not.
use forgewire_fabric.Prelude.{
  ◌≡◌, refl, ap, ◌↔◌, ◌⊎◌, inl, inr, Bool, true, false, Option, none, some, List, [], ◌∷◌, arith,
  Text, All, first_some,
}
use forgewire_fabric.Policy.{PolicyDecision, deny, require_approval}
use forgewire_fabric.Policy.Engine.{or_next, or_allow, return_if}

pub or_next-none_iff :
    (a b : Option PolicyDecision) → (or_next a b ≡ none) ↔ ((a ≡ none) × (b ≡ none))
or_next-none_iff none b = (λ h. (refl, h), λ h. h.1)
or_next-none_iff (some d) b = (λ h. cc, λ h. cc h.0)

pub return_if-none_iff : (t : Bool) (d : PolicyDecision) → (return_if t d ≡ none) ↔ (t ≡ false)
return_if-none_iff true d = (λ h. cc, λ h. cc)
return_if-none_iff false d = (λ h. refl, λ h. refl)

module _ {A : Type 0} {P : A → Type 0} (f : A → Option PolicyDecision)
    (decides : (x : A) → (f x ≡ none) ↔ P x) where
  pub first_none_iff : (xs : List A) → (first_some f xs ≡ none) ↔ All P xs
  first_none_iff [] = (λ h. tt, λ h. refl)
  first_none_iff (x ∷ xs) = (
    λ h. ((decides x).0 (ground arith), (first_none_iff xs).0 (ground arith)),
    λ h. let e = (decides x).1 h.0 in let rest = (first_none_iff xs).1 h.1 in ground arith,
  )

-- A decision that denies or holds, with one reason.
abbrev pub IsRefusal : PolicyDecision → Type 0
IsRefusal d = (reason : Text) × ((d ≡ deny reason) ⊎ (d ≡ require_approval reason))

-- Whatever is returned early is a refusal.
abbrev pub Refuses : Option PolicyDecision → Type 0
Refuses none = Unit
Refuses (some d) = IsRefusal d

pub Refuses-or_next : (a b : Option PolicyDecision) → Refuses a → Refuses b → Refuses (or_next a b)
Refuses-or_next none b h k = k
Refuses-or_next (some d) b h k = h

pub Refuses-deny : (t : Bool) (r : Text) → Refuses (return_if t (deny r))
Refuses-deny true r = (r, inl refl)
Refuses-deny false r = tt

pub Refuses-hold : (t : Bool) (r : Text) → Refuses (return_if t (require_approval r))
Refuses-hold true r = (r, inr refl)
Refuses-hold false r = tt

pub Refuses-first :
    {A : Type 0} (f : A → Option PolicyDecision)
    → ((x : A) → Refuses (f x))
    → (xs : List A) → Refuses (first_some f xs)
Refuses-first f h [] = tt
Refuses-first f h (x ∷ xs) = go (f x) (h x) (Refuses-first f h xs)
  where
    go :
        (o : Option PolicyDecision)
        → Refuses o
        → Refuses (first_some f xs)
        → Refuses (elim o [ some b ↦ some b | none ↦ first_some f xs ])
    go none k rest = rest
    go (some d) k rest = k

-- Where nothing returns but refusals, work is allowed exactly if nothing returned.
pub allowed_iff :
    (o : Option PolicyDecision) → Refuses o → ((or_allow o).allowed ≡ true) ↔ (o ≡ none)
allowed_iff none h = (λ e. refl, λ e. refl)
allowed_iff (some d) (r, inl e) = (λ a. cc (ap (λ (q : PolicyDecision). q.allowed) e), λ a. cc)
allowed_iff (some d) (r, inr e) = (λ a. cc (ap (λ (q : PolicyDecision). q.allowed) e), λ a. cc)
