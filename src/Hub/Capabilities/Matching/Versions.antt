-- ===== src/Hub/Capabilities/Matching/Versions.antt =====
-- crates/fabric-hub/src/capabilities.rs: the order of versions, part by part, with 0 for parts that
-- are not there.
use forgewire_fabric.Prelude.{
  ℕ, zero, suc, ◌<◌, ◌≡◌, refl, ◌↔◌, ◌⊎◌, inl, inr, Bool, true, false, List, [], ◌∷◌, arith,
  iff_trans, ltb, ◌==◌, if◌then◌else◌,
}
use forgewire_fabric.Hub.Capabilities.{Numbers}
use forgewire_fabric.Hub.Capabilities.Resolve.{versions_ltb}

abbrev pub part : List ℕ → ℕ → ℕ
part [] k = 0
part (n ∷ a) zero = n
part (n ∷ a) (suc k) = part a k

-- At the first place where they differ, the first has the smaller part.
abbrev FirstSmaller : (ℕ → ℕ) → (ℕ → ℕ) → Type 0
FirstSmaller f g = (k : ℕ) × ((j : ℕ) → j < k → f j ≡ g j) × (f k < g k)

abbrev pub IsOlder : List ℕ → List ℕ → Type 0
IsOlder a b = FirstSmaller (part a) (part b)

first_step :
    (f g : ℕ → ℕ)
    → FirstSmaller f g
      ↔ ((f 0 < g 0) ⊎ ((f 0 ≡ g 0) × FirstSmaller (λ k. f (suc k)) (λ k. g (suc k))))
first_step f g = (there, back)
  where
    there :
        FirstSmaller f g
        → (f 0 < g 0) ⊎ ((f 0 ≡ g 0) × FirstSmaller (λ k. f (suc k)) (λ k. g (suc k)))
    there (zero, same, less) = inl less
    there (suc k, same, less) =
        inr (same 0 (omega arith), (k, λ j h. same (suc j) (omega arith), less))

    both :
        (k : ℕ)
        → f 0 ≡ g 0
        → ((j : ℕ) → j < k → f (suc j) ≡ g (suc j))
        → (j : ℕ) → j < suc k
        → f j ≡ g j
    both k e same zero h = e
    both k e same (suc j) h = same j (omega arith)

    back :
        (f 0 < g 0) ⊎ ((f 0 ≡ g 0) × FirstSmaller (λ k. f (suc k)) (λ k. g (suc k)))
        → FirstSmaller f g
    back (inl less) = (0, λ j h. absurd (omega arith), less)
    back (inr (e, (k, same, less))) = (suc k, both k e same, less)

module _ {P : Type 0} (v : Bool) (i : (v ≡ true) ↔ P) where
  both_parts :
      (m n : ℕ)
      → ((if ltb m n then true else if ltb n m then false else v) ≡ true)
        ↔ ((m < n) ⊎ ((m ≡ n) × P))
  both_parts m n = elim (three m n) [
    | inl l ↦ (λ h. inl l, λ h. ground arith)
    | inr (inl e) ↦
        let a : ltb m n ≡ false = ground arith in
        let b : ltb n m ≡ false = ground arith in
        rw (a, b) (λ h. inr (e, i.0 h), elim [ inl l ↦ absurd (omega arith) | inr p ↦ i.1 p.1 ])
    | inr (inr g) ↦
        let a : ltb m n ≡ false = ground arith in
        let b : ltb n m ≡ true = ground arith in
        rw (a, b) (λ h. cc, elim [ inl l ↦ absurd (omega arith) | inr p ↦ absurd (omega arith) ])
  ]
    where
      three : (m n : ℕ) → (m < n) ⊎ (m ≡ n) ⊎ (n < m)
      three m n = omega arith

  left_missing : (n : ℕ) → ((if n == 0 then v else true) ≡ true) ↔ ((0 < n) ⊎ ((0 ≡ n) × P))
  left_missing zero =
      (λ h. inr (refl, i.0 h), elim [ inl l ↦ absurd (omega arith) | inr p ↦ i.1 p.1 ])
  left_missing (suc n) =
      let a : (suc n == 0) ≡ false = ground arith in rw a (λ h. inl (omega arith), λ h. refl)

  right_missing : (m : ℕ) → ((if m == 0 then v else false) ≡ true) ↔ ((m < 0) ⊎ ((m ≡ 0) × P))
  right_missing zero =
      (λ h. inr (refl, i.0 h), elim [ inl l ↦ absurd (omega arith) | inr p ↦ i.1 p.1 ])
  right_missing (suc m) =
      let a : (suc m == 0) ≡ false = ground arith in
      rw a (λ h. cc, elim [ inl l ↦ absurd (omega arith) | inr p ↦ absurd (omega arith) ])

iff_back : {P Q : Type 0} → P ↔ Q → Q ↔ P
iff_back i = (i.1, i.0)

pub versions_ltb_iff :
    {N : Type 0} (numbers : Numbers N) (a b : List ℕ)
    → (versions_ltb numbers a b ≡ true) ↔ IsOlder a b
versions_ltb_iff numbers [] [] = (λ h. cc, λ o. absurd (omega arith))
versions_ltb_iff numbers [] (n ∷ b) =
    iff_trans (left_missing (versions_ltb numbers [] b) (versions_ltb_iff numbers [] b) n)
      (iff_back (first_step (part []) (part (n ∷ b))))
versions_ltb_iff numbers (m ∷ a) [] =
    iff_trans (right_missing (versions_ltb numbers a []) (versions_ltb_iff numbers a []) m)
      (iff_back (first_step (part (m ∷ a)) (part [])))
versions_ltb_iff numbers (m ∷ a) (n ∷ b) =
    iff_trans (both_parts (versions_ltb numbers a b) (versions_ltb_iff numbers a b) m n)
      (iff_back (first_step (part (m ∷ a)) (part (n ∷ b))))
