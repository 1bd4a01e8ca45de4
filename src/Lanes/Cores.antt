-- ===== src/Lanes/Cores.antt =====
-- crates/fabric-compute-lanes/src/lib.rs, project_cpu: what sorting and dedup say of the cores.
use mathlib.Core.Path.{subst}
use forgewire_fabric.Prelude.{
  ℕ, suc, ◌≡◌, ◌↔◌, refl, sym, ap, ◌∙◌, inl, inr, true, false, Bool-cases, Option, none, some, List,
  [], ◌∷◌, map, arith, ltb, ==_iff, length, All,
}
use forgewire_fabric.Topology.{Printing, CoreTopology, ComputeTopologySnapshot}
use forgewire_fabric.Lanes.Cpu.{
  class_leb, class_eq, insert_class, sort_classes, dedup_after, dedup, project_cpu,
}

class_eq_iff : (a b : Option ℕ) → (class_eq a b ≡ true) ↔ (a ≡ b)
class_eq_iff none none = (λ h. refl, λ e. refl)
class_eq_iff none (some b) = (λ h. cc, λ e. cc)
class_eq_iff (some a) none = (λ h. cc, λ e. cc)
class_eq_iff (some a) (some b) =
    (λ h. ap some ((==_iff a b).0 h), λ e. (==_iff a b).1 (ground arith))

abbrev AllEqual : Option ℕ → List (Option ℕ) → Type 0
AllEqual a = All (λ b. b ≡ a)

module _ (a : Option ℕ) where
  insert_equal :
      (b : Option ℕ) (bs : List (Option ℕ))
      → AllEqual a (insert_class b bs) ↔ ((b ≡ a) × AllEqual a bs)
  insert_equal b [] = (λ h. (h.0, tt), λ h. (h.0, tt))
  insert_equal b (c ∷ bs) = elim (Bool-cases (class_leb b c)) [
    | inl e ↦ rw e (λ h. h, λ h. h)
    | inr e ↦ rw e (
      λ h. (((insert_equal b bs).0 h.1).0, (h.0, ((insert_equal b bs).0 h.1).1)),
      λ h. (h.1.0, (insert_equal b bs).1 (h.0, h.1.1)),
    )
  ]

  sort_equal : (bs : List (Option ℕ)) → AllEqual a (sort_classes bs) ↔ AllEqual a bs
  sort_equal [] = (λ h. h, λ h. h)
  sort_equal (b ∷ bs) =
      let ih = sort_equal bs in
      let step = insert_equal b (sort_classes bs) in
      (λ h. ((step.0 h).0, ih.0 (step.0 h).1), λ h. step.1 (h.0, ih.1 h.1))

false-true : false ≡ true → ⊥
false-true h = cc

-- Nothing is left behind the first exactly if all are equal to it.
dedup_after_equal : (a : Option ℕ) (bs : List (Option ℕ)) → (dedup_after a bs ≡ []) ↔ AllEqual a bs
dedup_after_equal a [] = (λ h. tt, λ h. refl)
dedup_after_equal a (b ∷ bs) = elim (Bool-cases (class_eq a b)) [
  | inl e ↦ rw e (
      let same : b ≡ a = sym ((class_eq_iff a b).0 e) in
      let ih = dedup_after_equal b bs in
      (
        λ h. (same, subst (λ x. AllEqual x bs) same (ih.0 h)),
        λ h. ih.1 (subst (λ x. AllEqual x bs) (sym same) h.1),
      ))
  | inr e ↦ rw e (λ h. cc, λ h. absurd (false-true (sym e ∙ (class_eq_iff a b).1 (sym h.0))))
]

abbrev IsUniformList : List (Option ℕ) → Type 0
IsUniformList [] = Unit
IsUniformList (a ∷ bs) = AllEqual a bs

uniform_to_equal : (l : List (Option ℕ)) → IsUniformList l → (a : Option ℕ) × AllEqual a l
uniform_to_equal [] h = (none, tt)
uniform_to_equal (a ∷ bs) h = (a, (refl, h))

equal_to_uniform : (a : Option ℕ) (l : List (Option ℕ)) → AllEqual a l → IsUniformList l
equal_to_uniform a [] h = tt
equal_to_uniform a (b ∷ bs) h = subst (λ x. AllEqual x bs) (sym h.0) h.1

sort_uniform : (l : List (Option ℕ)) → IsUniformList (sort_classes l) ↔ IsUniformList l
sort_uniform l = (
  λ h.
      let (a, k) = uniform_to_equal (sort_classes l) h in
      equal_to_uniform a l ((sort_equal a l).0 k),
  λ h.
      let (a, k) = uniform_to_equal l h in
      equal_to_uniform a (sort_classes l) ((sort_equal a l).1 k),
)

dedup_uniform : (l : List (Option ℕ)) → (ltb 1 (length (dedup l)) ≡ false) ↔ IsUniformList l
dedup_uniform [] = (λ h. tt, λ h. refl)
dedup_uniform (a ∷ bs) = (
  λ h. (dedup_after_equal a bs).0 (short_nil (dedup_after a bs) h),
  λ h. rw ((dedup_after_equal a bs).1 h) refl,
)
  where
    short_nil : (l : List (Option ℕ)) → ltb 1 (suc (length l)) ≡ false → l ≡ []
    short_nil [] h = refl
    short_nil (b ∷ l) h = ground arith

-- All cores are of the class of the first.
abbrev pub IsUniform : List CoreTopology → Type 0
IsUniform [] = Unit
IsUniform (c ∷ cores) = All (λ d. d.efficiency_class ≡ c.efficiency_class) cores

classes-IsUniform :
    (cores : List CoreTopology)
    → IsUniformList (map (λ c. c.efficiency_class) cores) ↔ IsUniform cores
classes-IsUniform [] = (λ h. h, λ h. h)
classes-IsUniform (c ∷ cores) = (to_cores cores, of_cores cores)
  where
    to_cores :
        (ds : List CoreTopology)
        → AllEqual c.efficiency_class (map (λ d. d.efficiency_class) ds)
        → All (λ d. d.efficiency_class ≡ c.efficiency_class) ds
    to_cores [] h = tt
    to_cores (d ∷ ds) h = (h.0, to_cores ds h.1)

    of_cores :
        (ds : List CoreTopology)
        → All (λ d. d.efficiency_class ≡ c.efficiency_class) ds
        → AllEqual c.efficiency_class (map (λ d. d.efficiency_class) ds)
    of_cores [] h = tt
    of_cores (d ∷ ds) h = (h.0, of_cores ds h.1)

-- The projection reports differing cores exactly if they are not all of one efficiency class.
pub heterogeneous_cores_iff :
    (printing : Printing) (topology : ComputeTopologySnapshot)
    → ((project_cpu printing topology).heterogeneous_cores ≡ false) ↔ IsUniform topology.cores
unfolding project_cpu
heterogeneous_cores_iff printing topology =
    let classes = map (λ c. c.efficiency_class) topology.cores in
    (
      λ h.
          (classes-IsUniform topology.cores).0
            ((sort_uniform classes).0 ((dedup_uniform (sort_classes classes)).0 h)),
      λ h.
          (dedup_uniform (sort_classes classes)).1
            ((sort_uniform classes).1 ((classes-IsUniform topology.cores).1 h)),
    )
