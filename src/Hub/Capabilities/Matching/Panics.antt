-- ===== src/Hub/Capabilities/Matching/Panics.antt =====
-- crates/fabric-hub/src/capabilities.rs: when all predicates are met, and when one panics.
use mathlib.Core.Path.{subst}
use forgewire_fabric.Prelude.{
  ℕ, ◌≡◌, refl, sym, ap, ◌∙◌, ◌↔◌, ◌⊎◌, inl, inr, Bool, true, false, Option, none, some, List, [],
  ◌∷◌, Text, trim, All, iff_trans, some-injective, ◌==◌, ==_iff, Bool-cases, if◌then◌else◌,
}
use forgewire_fabric.Prelude.Json.{Json}
use forgewire_fabric.Hub.Capabilities.{Numbers, unquoted, literal_of, parse_literal}
use forgewire_fabric.Hub.Capabilities.Resolve.{as_str}
use forgewire_fabric.Hub.Capabilities.Matching.{
  Outcome, panic, failed, met, outcome, add_reason, add_text, collect_missing, required_items,
  match_required, with_verdict,
}

-- The two texts of a lone quotation mark.
abbrev pub IsLoneQuote : Text → Type 0
IsLoneQuote s = (s ≡ b'"' ∷ []) ⊎ (s ≡ b'\'' ∷ [])

unquoted_panics : (s : Text) → unquoted s ≡ none → IsLoneQuote s
unfolding unquoted
unquoted_panics [] h = cc
unquoted_panics (c ∷ []) h = elim (Bool-cases (c == b'"')) [
  | inl e ↦ inl (ap (λ d. d ∷ []) ((==_iff c b'"').0 e))
  | inr e ↦ elim (Bool-cases (c == b'\'')) [
    | inl f ↦ inr (ap (λ d. d ∷ []) ((==_iff c b'\'').0 f))
    | inr f ↦ elim (not_none (sym (kept c e f) ∙ h)) [ ]
  ]
]
  where
    kept : (c : ℕ) → (c == b'"') ≡ false → (c == b'\'') ≡ false → unquoted (c ∷ []) ≡ some (c ∷ [])
    kept c e f = rw (unquoted, e, f) refl

    not_none : {a : Text} → Path (Option Text) (some a) none → ⊥
    not_none h = cc
unquoted_panics (c ∷ d ∷ s) h = elim (some_either _ _ _ h) [ ]
  where
    some_either : (b : Bool) (x y : Text) → (if b then some x else some y) ≡ none → ⊥
    some_either true x y h = cc
    some_either false x y h = cc

lone_panics : (s : Text) → IsLoneQuote s → unquoted s ≡ none
unfolding unquoted
lone_panics s (inl e) = subst (λ t. unquoted t ≡ none) (sym e) refl
lone_panics s (inr e) = subst (λ t. unquoted t ≡ none) (sym e) refl

-- Reading a literal panics exactly if it is a lone quotation mark, up to white space around it.
pub parse_literal_panics_iff :
    {N : Type 0} (numbers : Numbers N) (token : Text)
    → (parse_literal numbers token ≡ none) ↔ IsLoneQuote (trim token)
unfolding parse_literal
parse_literal_panics_iff numbers token = (
  λ h. unquoted_panics (trim token) (literal (unquoted (trim token)) h),
  λ h. ap (literal_of numbers) (lone_panics (trim token) h),
)
  where
    literal : (o : Option Text) → literal_of numbers o ≡ none → o ≡ none
    literal none h = refl
    literal (some s) h = cc

-- A predicate that is a string is met by the capabilities; other values ask for nothing.
abbrev pub Meets : {N : Type 0} → Numbers N → Json N → Option Text → Type 0
Meets numbers caps none = Unit
Meets numbers caps (some raw) = outcome numbers raw caps ≡ met

module _ {N : Type 0} (numbers : Numbers N) (caps : Json N) where
  abbrev AllMeet : List (Json N) → Type 0
  AllMeet = All (λ v. Meets numbers caps (as_str v))

  add_reason_empty :
      (o : Outcome) (later : Option (List Text))
      → add_reason numbers o later ≡ some []
      → (o ≡ met) × (later ≡ some [])
  add_reason_empty panic later h = cc
  add_reason_empty met later h = (refl, h)
  add_reason_empty (failed reason) none h = cc
  add_reason_empty (failed reason) (some missing) h = cc

  add_text_empty :
      (o : Option Text) (later : Option (List Text))
      → add_text numbers o caps later ≡ some []
      → Meets numbers caps o × (later ≡ some [])
  add_text_empty none later h = (tt, h)
  add_text_empty (some raw) later h = add_reason_empty (outcome numbers raw caps) later h

  add_text_met :
      (o : Option Text) (later : Option (List Text))
      → Meets numbers caps o
      → later ≡ some []
      → add_text numbers o caps later ≡ some []
  add_text_met none later m h = h
  add_text_met (some raw) later m h = ap (λ o. add_reason numbers o later) m ∙ h

  collected : (vs : List (Json N)) → (collect_missing numbers vs caps ≡ some []) ↔ AllMeet vs
  unfolding collect_missing
  collected [] = (λ h. tt, λ h. refl)
  collected (v ∷ vs) = (
    λ h.
        let both = add_text_empty (as_str v) (collect_missing numbers vs caps) h in
        (both.0, (collected vs).0 both.1),
    λ h. add_text_met (as_str v) (collect_missing numbers vs caps) h.0 ((collected vs).1 h.1),
  )

verdict_true :
    {N : Type 0} (numbers : Numbers N) (o : Option (List Text)) (v : Bool × List Text)
    → with_verdict numbers o ≡ some v
    → (v.0 ≡ true) ↔ (o ≡ some [])
verdict_true numbers none v h = cc
verdict_true numbers (some []) v h =
    (λ e. refl, λ e. ap (λ (v : Bool × List Text). v.0) (some-injective (sym h)))
verdict_true numbers (some (m ∷ ms)) v h =
    (λ e. cc (ap (λ (v : Bool × List Text). v.0) (some-injective h), e), λ e. cc)

-- The verdict of a match says whether the capabilities match.
pub match_required_verdict :
    {N : Type 0} (numbers : Numbers N) (required caps : Json N) (v : Bool × List Text)
    → match_required numbers required caps ≡ some v
    → (v.0 ≡ true) ↔ All (λ v. Meets numbers caps (as_str v)) (required_items numbers required)
unfolding match_required
match_required_verdict numbers required caps v h =
    iff_trans
      (verdict_true numbers (collect_missing numbers (required_items numbers required) caps) v h)
      (collected numbers caps (required_items numbers required))
