-- ===== src/Egress/Listed.antt =====
-- crates/fabric-egress/src/lib.rs, rules.contains and rules.push: lists of rules without repetition.
use mathlib.Core.Path.{subst}
use forgewire_fabric.Prelude.{
  ◌≡◌, ◌↔◌, ◌⊎◌, sym, ap, ◌∙◌, inl, inr, true, false, Bool-cases, List, [], ◌∷◌, ◌++◌, arith,
  text_eq_iff, any, any_iff, Exists,
}
use forgewire_fabric.Egress.{HostRule, exact, suffix, rule_eq, push_rule}

rule_eq_iff : (r s : HostRule) → (rule_eq r s ≡ true) ↔ (r ≡ s)
rule_eq_iff (exact s) (exact t) =
    (λ h. ap exact ((text_eq_iff s t).0 h), λ e. (text_eq_iff s t).1 (ground arith))
rule_eq_iff (exact s) (suffix t) = (λ h. cc, λ e. cc)
rule_eq_iff (suffix s) (exact t) = (λ h. cc, λ e. cc)
rule_eq_iff (suffix s) (suffix t) =
    (λ h. ap suffix ((text_eq_iff s t).0 h), λ e. (text_eq_iff s t).1 (ground arith))

abbrev pub Listed : HostRule → List HostRule → Type 0
Listed r = Exists (λ s. r ≡ s)

abbrev pub IsDistinct : List HostRule → Type 0
IsDistinct [] = Unit
IsDistinct (r ∷ rules) = (Listed r rules → ⊥) × IsDistinct rules

any-Listed :
    (r : HostRule) (rules : List HostRule) → (any (rule_eq r) rules ≡ true) ↔ Listed r rules
any-Listed r = any_iff (rule_eq r) (rule_eq_iff r)

module _ (r : HostRule) where
  Listed-append : (rs ss : List HostRule) → Listed r (rs ++ ss) ↔ (Listed r rs ⊎ Listed r ss)
  Listed-append [] ss = (λ h. inr h, λ h. elim h [ inl e ↦ absurd e | inr k ↦ k ])
  Listed-append (s ∷ rs) ss =
      let ih = Listed-append rs ss in
      (
        λ h. elim h [
          | inl e ↦ inl (inl e)
          | inr k ↦ elim (ih.0 k) [ inl l ↦ inl (inr l) | inr l ↦ inr l ]
        ],
        λ h. elim h [
          | inl k ↦ elim k [ inl e ↦ inl e | inr l ↦ inr (ih.1 (inl l)) ]
          | inr l ↦ inr (ih.1 (inr l))
        ],
      )

-- A rule is listed after a push exactly if it was before, or is the one pushed.
pub Listed-push :
    (r s : HostRule) (rules : List HostRule)
    → Listed r (push_rule s rules) ↔ (Listed r rules ⊎ (r ≡ s))
Listed-push r s rules = elim (Bool-cases (any (rule_eq s) rules)) [
  | inl e ↦ rw e (
    λ h. inl h,
    λ h. elim h [
      | inl l ↦ l
      | inr same ↦ subst (λ t. Listed t rules) (sym same) ((any-Listed s rules).0 e)
    ],
  )
  | inr e ↦ rw e (
    λ h. elim ((Listed-append r rules (s ∷ [])).0 h) [
      | inl l ↦ inl l
      | inr k ↦ elim k [ inl same ↦ inr same | inr l ↦ absurd l ]
    ],
    λ h. (Listed-append r rules (s ∷ [])).1 (elim h [ inl l ↦ inl l | inr same ↦ inr (inl same) ]),
  )
]

IsDistinct-append :
    (rules : List HostRule) (s : HostRule)
    → IsDistinct rules
    → (Listed s rules → ⊥)
    → IsDistinct (rules ++ s ∷ [])
IsDistinct-append [] s h k = (λ l. l, tt)
IsDistinct-append (r ∷ rules) s h k = (
  λ l. elim ((Listed-append r rules (s ∷ [])).0 l) [
    | inl m ↦ h.0 m
    | inr m ↦ elim m [ inl same ↦ k (inl (sym same)) | inr l ↦ l ]
  ],
  IsDistinct-append rules s h.1 (λ l. k (inr l)),
)

pub IsDistinct-push :
    (s : HostRule) (rules : List HostRule) → IsDistinct rules → IsDistinct (push_rule s rules)
IsDistinct-push s rules h = elim (Bool-cases (any (rule_eq s) rules)) [
  | inl e ↦ rw e h
  | inr e ↦ rw e (IsDistinct-append rules s h (λ l. false_true (sym e ∙ (any-Listed s rules).1 l)))
]
  where
    false_true : false ≡ true → ⊥
    false_true k = cc
