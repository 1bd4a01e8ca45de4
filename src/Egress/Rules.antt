-- ===== src/Egress/Rules.antt =====
-- crates/fabric-egress/src/lib.rs, EgressPolicy::from_value: the rules of a parsed policy are the
-- declared ones, each once.
use mathlib.Core.Path.{subst}
use forgewire_fabric.Prelude.{
  ℕ, ◌+◌, ◌≡◌, ◌↔◌, ◌⊎◌, refl, sym, ap, ◌∙◌, inl, inr, false, Option-cases, Option, none, some,
  List, [], ◌∷◌, Text, text, Exists,
}
use forgewire_fabric.Prelude.Results.{Result-cases, okay-injective, Result, err, okay, and_then}
use forgewire_fabric.Prelude.Json.{
  null, bool, number, string, Json, scalar, arr, obj, Fields, get_field, to_list,
}
use forgewire_fabric.Egress.{
  Net, HostRule, EgressError, EgressPolicy, normalize_rule, parse_entry, push_rule, parse_entries,
  from_allow, from_value, allows, normalize_requested_host,
}
use forgewire_fabric.Egress.Listed.{Listed, IsDistinct, Listed-push, IsDistinct-push}

text_of : Json Text → Text
text_of (scalar (string s)) = s
text_of _ = []

module _ {Ip : Type 0} (net : Net Ip) where
  -- The entry is a text that normalizes to the rule.
  abbrev pub Declares : HostRule → Json Text → Type 0
  Declares r entry =
      (raw : Text) × (entry ≡ scalar (string raw)) × (normalize_rule net raw ≡ okay r)

  parse_entry_iff :
      (index : ℕ) (r : HostRule) (entry : Json Text)
      → (parse_entry net index entry ≡ okay r) ↔ Declares r entry
  unfolding parse_entry text_of
  parse_entry_iff index r (scalar (string raw)) =
      (λ h. (raw, refl, h), λ d. ap (normalize_rule net) (ap text_of d.1) ∙ d.2)
  parse_entry_iff index r (scalar null) = (λ h. cc, λ d. cc (d.1))
  parse_entry_iff index r (scalar (bool b)) = (λ h. cc, λ d. cc (d.1))
  parse_entry_iff index r (scalar (number n)) = (λ h. cc, λ d. cc (d.1))
  parse_entry_iff index r (arr xs) = (λ h. cc, λ d. cc (d.1))
  parse_entry_iff index r (obj fs) = (λ h. cc, λ d. cc (d.1))

  -- What `parse_entries` makes of rules found before and more entries.
  abbrev Gathers : List (Json Text) → List HostRule → List HostRule → Type 0
  Gathers entries rules out =
      ((r : HostRule) → Listed r out ↔ (Listed r rules ⊎ Exists (Declares r) entries))
      × (IsDistinct rules → IsDistinct out)

  Gathers-cons :
      (entry : Json Text) (entries : List (Json Text)) (s : HostRule) (rules out : List HostRule)
      → Declares s entry
      → ((r : HostRule) → Declares r entry → r ≡ s)
      → Gathers entries (push_rule s rules) out
      → Gathers (entry ∷ entries) rules out
  Gathers-cons entry entries s rules out d only (listed, distinct) =
      (λ r. (from_out r, to_out r), λ h. distinct (IsDistinct-push s rules h))
    where
      from_out :
          (r : HostRule) → Listed r out → Listed r rules ⊎ Exists (Declares r) (entry ∷ entries)
      from_out r h = elim ((listed r).0 h) [
        | inl l ↦ elim ((Listed-push r s rules).0 l) [
          | inl m ↦ inl m
          | inr same ↦ inr (inl (subst (λ t. Declares t entry) (sym same) d))
        ]
        | inr x ↦ inr (inr x)
      ]

      to_out :
          (r : HostRule) → Listed r rules ⊎ Exists (Declares r) (entry ∷ entries) → Listed r out
      to_out r (inl l) = (listed r).1 (inl ((Listed-push r s rules).1 (inl l)))
      to_out r (inr (inl dr)) = (listed r).1 (inl ((Listed-push r s rules).1 (inr (only r dr))))
      to_out r (inr (inr y)) = (listed r).1 (inr y)

  parse_entries-Gathers :
      (index : ℕ) (entries : List (Json Text)) (rules out : List HostRule)
      → parse_entries net index entries rules ≡ okay out
      → Gathers entries rules out
  unfolding parse_entries
  parse_entries-Gathers index [] rules out h =
      subst (Gathers [] rules) (okay-injective rules out h)
        (λ r. (λ l. inl l, λ l. elim l [ inl m ↦ m | inr m ↦ absurd m ]), λ k. k)
  parse_entries-Gathers index (entry ∷ entries) rules out h =
      elim (Result-cases (parse_entry net index entry)) [
        | inl (x, e) ↦ absurd (err_okay x out (sym (ap (λ p. and_then p next) e) ∙ h))
        | inr (s, e) ↦
            Gathers-cons entry entries s rules out ((parse_entry_iff index s entry).0 e)
              (λ r d. okay-injective r s (sym ((parse_entry_iff index r entry).1 d) ∙ e))
              (parse_entries-Gathers (index + 1) entries (push_rule s rules) out
                (sym (ap (λ p. and_then p next) e) ∙ h))
      ]
    where
      next : HostRule → Result EgressError (List HostRule)
      next normalized = parse_entries net (index + 1) entries (push_rule normalized rules)

      err_okay :
          (x : EgressError) (out : List HostRule)
          → Path (Result EgressError (List HostRule)) (err x) (okay out)
          → ⊥
      err_okay x out k = cc

  -- The entries that a policy declares: those of `allow`, none without it.
  abbrev pub entries_of : Option (Json Text) → List (Json Text)
  entries_of none = []
  entries_of (some (arr items)) = to_list items
  entries_of (some value) = []

  abbrev pub IsDeclared : List (Json Text) → List HostRule → Type 0
  IsDeclared entries rules =
      ((r : HostRule) → Listed r rules ↔ Exists (Declares r) entries) × IsDistinct rules

  gathered :
      (entries : List (Json Text)) (rules : List HostRule)
      → Gathers entries [] rules
      → IsDeclared entries rules
  gathered entries rules (listed, distinct) = (
    λ r. (λ l. elim ((listed r).0 l) [ inl m ↦ absurd m | inr x ↦ x ], λ x. (listed r).1 (inr x)),
    distinct tt,
  )

  from_allow-IsDeclared :
      (allow : Option (Json Text)) (policy : EgressPolicy)
      → from_allow net allow ≡ okay policy
      → IsDeclared (entries_of allow) policy.rules
  from_allow-IsDeclared none policy e =
      subst (λ p. IsDeclared [] p.rules) (okay-injective _ policy e) (λ r. (λ l. l, λ l. l), tt)
  from_allow-IsDeclared (some (scalar v)) policy e = cc
  from_allow-IsDeclared (some (obj fs)) policy e = cc
  from_allow-IsDeclared (some (arr items)) policy e =
      elim (Result-cases (parse_entries net 0 (to_list items) [])) [
        | inl (x, k) ↦ absurd (err_okay x (sym (ap (λ p. and_then p wrap) k) ∙ e))
        | inr (rules, k) ↦
            subst (λ p. IsDeclared (to_list items) p.rules)
              (okay-injective _ policy (sym (ap (λ p. and_then p wrap) k) ∙ e))
              (gathered (to_list items) rules (parse_entries-Gathers 0 (to_list items) [] rules k))
      ]
    where
      wrap : List HostRule → Result EgressError EgressPolicy
      wrap rules = okay (record { rules = rules })

      err_okay :
          (x : EgressError) → Path (Result EgressError EgressPolicy) (err x) (okay policy) → ⊥
      err_okay x k = cc

  -- A policy that parses has as its rules exactly the rules that the entries of `allow` declare,
  -- each of them once.
  pub from_value-IsDeclared :
      (fields : Fields Text) (policy : EgressPolicy)
      → from_value net (obj fields) ≡ okay policy
      → IsDeclared (entries_of (get_field (text "allow") fields)) policy.rules
  unfolding from_value
  from_value-IsDeclared fields policy h =
      from_allow-IsDeclared (get_field (text "allow") fields) policy h

  allows_nothing :
      (policy : EgressPolicy) (requested_host : Text)
      → policy.rules ≡ []
      → allows net policy requested_host ≡ false
  unfolding allows
  allows_nothing policy requested_host e =
      elim (Option-cases (normalize_requested_host net requested_host)) [
        | inl k ↦ rw (allows, k) refl
        | inr (host, k) ↦ rw (allows, k, e) refl
      ]

  -- A policy without `allow`, or with an empty one, allows no host.
  pub default_deny :
      (fields : Fields Text) (policy : EgressPolicy)
      → entries_of (get_field (text "allow") fields) ≡ []
      → from_value net (obj fields) ≡ okay policy
      → (requested_host : Text) → allows net policy requested_host ≡ false
  default_deny fields policy empty h requested_host = allows_nothing policy requested_host (
      no_rules policy.rules (λ r l.
        subst (Exists (Declares r)) empty (((from_value-IsDeclared fields policy h).0 r).0 l)))
    where
      no_rules : (rules : List HostRule) → ((r : HostRule) → Listed r rules → ⊥) → rules ≡ []
      no_rules [] none_listed = refl
      no_rules (r ∷ rules) none_listed = absurd (none_listed r (inl refl))
