-- ===== src/Topology/Placed.antt =====
-- crates/fabric-topology/src/linux.rs, topology_from_raw_cpus: where a logical processor is.
use forgewire_fabric.Prelude.{
  ℕ, ◌≡◌, ◌↔◌, ◌⊎◌, refl, sym, ap, ◌∙◌, inl, inr, Bool, true, Bool-cases, List, [], ◌∷◌, ◌++◌, map,
  arith, Text, leb, ==_iff, Exists,
}
use forgewire_fabric.Topology.{CoreTopology}
use forgewire_fabric.Topology.Linux.{
  RawCpu, Key, key_of, key_eq, key_ltb, add_cpu, group_cpus, insert_by, sort_by, processor, core_of,
  core_before, cores_of, topology_from_raw_cpus,
}

module _ {A : Type 0} (before : A → A → Bool) (P : A → Type 0) where
  Exists-insert_by : (a : A) (bs : List A) → Exists P (insert_by before a bs) ↔ (P a ⊎ Exists P bs)
  Exists-insert_by a [] = (λ h. h, λ h. h)
  Exists-insert_by a (b ∷ bs) = elim (Bool-cases (before a b)) [
    | inl e ↦ rw e (λ h. h, λ h. h)
    | inr e ↦
        let ih = Exists-insert_by a bs in
        rw e (
          λ h. elim h [
            | inl p ↦ inr (inl p)
            | inr q ↦ elim (ih.0 q) [ inl p ↦ inl p | inr r ↦ inr (inr r) ]
          ],
          λ h. elim h [
            | inl p ↦ inr (ih.1 (inl p))
            | inr q ↦ elim q [ inl p ↦ inl p | inr r ↦ inr (ih.1 (inr r)) ]
          ],
        )
  ]

  Exists-sort_by : (l : List A) → Exists P (sort_by before l) ↔ Exists P l
  Exists-sort_by [] = (λ h. h, λ h. h)
  Exists-sort_by (a ∷ l) =
      let ih = Exists-sort_by l in
      let step = Exists-insert_by a (sort_by before l) in
      (
        λ h. elim (step.0 h) [ inl p ↦ inl p | inr q ↦ inr (ih.0 q) ],
        λ h. step.1 (elim h [ inl p ↦ inl p | inr q ↦ inr (ih.1 q) ]),
      )

module _ {A B : Type 0} (f : A → B) (P : B → Type 0) (Q : A → Type 0)
    (same : (a : A) → P (f a) ↔ Q a) where
  Exists-map : (l : List A) → Exists P (map f l) ↔ Exists Q l
  Exists-map [] = (λ h. h, λ h. h)
  Exists-map (a ∷ l) =
      let ih = Exists-map l in
      (
        λ h. elim h [ inl p ↦ inl ((same a).0 p) | inr q ↦ inr (ih.0 q) ],
        λ h. elim h [ inl p ↦ inl ((same a).1 p) | inr q ↦ inr (ih.1 q) ],
      )

module _ {A : Type 0} (P : A → Type 0) where
  Exists-push : (l : List A) (a : A) → Exists P (l ++ a ∷ []) ↔ (P a ⊎ Exists P l)
  Exists-push [] a = (λ h. h, λ h. h)
  Exists-push (b ∷ l) a =
      let ih = Exists-push l a in
      (
        λ h. elim h [
          | inl p ↦ inr (inl p)
          | inr q ↦ elim (ih.0 q) [ inl p ↦ inl p | inr r ↦ inr (inr r) ]
        ],
        λ h. elim h [
          | inl p ↦ inr (ih.1 (inl p))
          | inr q ↦ elim q [ inl p ↦ inl p | inr r ↦ inr (ih.1 (inr r)) ]
        ],
      )

key_eq_sound : (a b : Key) → key_eq a b ≡ true → a ≡ b
key_eq_sound (a, b) (c, d) h =
    ap2_key ((==_iff a c).0 (ground arith)) ((==_iff b d).0 (ground arith))
  where
    ap2_key : a ≡ c → b ≡ d → Path Key (a, b) (c, d)
    ap2_key e f = rw (e, f) refl

module _ (package_id core_id index : ℕ) where
  -- The map has the index under the package and the core.
  abbrev Grouped : List (Key × List ℕ) → Type 0
  Grouped = Exists (λ e. (e.0 ≡ (package_id, core_id)) × Exists (λ i. i ≡ index) e.1)

  abbrev pub IsAt : RawCpu → Type 0
  IsAt cpu = (key_of cpu ≡ (package_id, core_id)) × (cpu.logical_index ≡ index)

  only : {A B : Type 0} → A × (B ⊎ ⊥) → A × B
  only (k, inl p) = (k, p)
  only (k, inr z) = absurd z

  abbrev new_entry : RawCpu → Key × List ℕ
  new_entry cpu = (key_of cpu, cpu.logical_index ∷ [])

  Grouped-new :
      (cpu : RawCpu) (m : List (Key × List ℕ))
      → Grouped (new_entry cpu ∷ m) ↔ (IsAt cpu ⊎ Grouped m)
  Grouped-new cpu m = (
    λ h. elim h [ inl x ↦ inl (only x) | inr g ↦ inr g ],
    λ h. elim h [ inl x ↦ inl (x.0, inl x.1) | inr g ↦ inr g ],
  )

  Grouped-more :
      (cpu : RawCpu) (e : Key × List ℕ) (m : List (Key × List ℕ))
      → key_of cpu ≡ e.0
      → Grouped ((e.0, e.1 ++ cpu.logical_index ∷ []) ∷ m) ↔ (IsAt cpu ⊎ Grouped (e ∷ m))
  Grouped-more cpu e m same = (to_old, of_old)
    where
      pushed :
          Exists (λ i. i ≡ index) (e.1 ++ cpu.logical_index ∷ [])
          ↔ ((cpu.logical_index ≡ index) ⊎ Exists (λ i. i ≡ index) e.1)
      pushed = Exists-push (λ i. i ≡ index) e.1 cpu.logical_index

      to_old : Grouped ((e.0, e.1 ++ cpu.logical_index ∷ []) ∷ m) → IsAt cpu ⊎ Grouped (e ∷ m)
      to_old (inl (k, x)) = elim (pushed.0 x) [
        | inl p ↦ inl (same ∙ k, p)
        | inr q ↦ inr (inl (k, q))
      ]
      to_old (inr g) = inr (inr g)

      of_old : IsAt cpu ⊎ Grouped (e ∷ m) → Grouped ((e.0, e.1 ++ cpu.logical_index ∷ []) ∷ m)
      of_old (inl (k, p)) = inl (sym same ∙ k, pushed.1 (inl p))
      of_old (inr (inl (k, q))) = inl (k, pushed.1 (inr q))
      of_old (inr (inr g)) = inr g

  Grouped-later :
      (cpu : RawCpu) (e : Key × List ℕ) (m m' : List (Key × List ℕ))
      → (Grouped m' ↔ (IsAt cpu ⊎ Grouped m))
      → Grouped (e ∷ m') ↔ (IsAt cpu ⊎ Grouped (e ∷ m))
  Grouped-later cpu e m m' ih = (
    λ h. elim h [
      | inl x ↦ inr (inl x)
      | inr g ↦ elim (ih.0 g) [ inl p ↦ inl p | inr r ↦ inr (inr r) ]
    ],
    λ h. elim h [
      | inl p ↦ inr (ih.1 (inl p))
      | inr q ↦ elim q [ inl x ↦ inl x | inr g ↦ inr (ih.1 (inr g)) ]
    ],
  )

  Grouped-add_cpu :
      (cpu : RawCpu) (m : List (Key × List ℕ)) → Grouped (add_cpu cpu m) ↔ (IsAt cpu ⊎ Grouped m)
  Grouped-add_cpu cpu [] = Grouped-new cpu []
  Grouped-add_cpu cpu (e ∷ m) = elim (Bool-cases (key_eq (key_of cpu) e.0)) [
    | inl k ↦ rw k (Grouped-more cpu e m (key_eq_sound (key_of cpu) e.0 k))
    | inr k ↦ elim (Bool-cases (key_ltb (key_of cpu) e.0)) [
      | inl l ↦ rw (k, l) (Grouped-new cpu (e ∷ m))
      | inr l ↦ rw (k, l) (Grouped-later cpu e m (add_cpu cpu m) (Grouped-add_cpu cpu m))
    ]
  ]

  Grouped-group_cpus :
      (cpus : List RawCpu) (m : List (Key × List ℕ))
      → Grouped (group_cpus cpus m) ↔ (Exists IsAt cpus ⊎ Grouped m)
  Grouped-group_cpus [] m = (λ h. inr h, λ h. elim h [ inl z ↦ absurd z | inr g ↦ g ])
  Grouped-group_cpus (cpu ∷ cpus) m =
      let ih = Grouped-group_cpus cpus (add_cpu cpu m) in
      let step = Grouped-add_cpu cpu m in
      (
        λ h. elim (ih.0 h) [
          | inl x ↦ inl (inr x)
          | inr g ↦ elim (step.0 g) [ inl p ↦ inl (inl p) | inr r ↦ inr r ]
        ],
        λ h. elim h [
          | inl x ↦ elim x [ inl p ↦ ih.1 (inr (step.1 (inl p))) | inr y ↦ ih.1 (inl y) ]
          | inr r ↦ ih.1 (inr (step.1 (inr r)))
        ],
      )

  -- A core of the package with the number has the processor.
  abbrev pub Holds : CoreTopology → Type 0
  Holds c =
      (Path Key (c.package_id, c.core_id) (package_id, core_id))
      × Exists (λ l. l ≡ processor index) c.logical_processors

  core_of-Holds :
      (e : Key × List ℕ)
      → Holds (core_of e) ↔ ((e.0 ≡ (package_id, core_id)) × Exists (λ i. i ≡ index) e.1)
  core_of-Holds e =
      let mapped =
        Exists-map processor (λ l. l ≡ processor index) (λ i. i ≡ index)
          (λ i. (λ h. ap (λ l. l.index) h, λ h. ap processor h)) (sort_by leb e.1) in
      let sorted = Exists-sort_by leb (λ i. i ≡ index) e.1 in
      (λ h. (h.0, sorted.0 (mapped.0 h.1)), λ h. (h.0, mapped.1 (sorted.1 h.1)))

  cores_of-Holds : (cpus : List RawCpu) → Exists Holds (cores_of cpus) ↔ Exists IsAt cpus
  cores_of-Holds cpus =
      let sorted = Exists-sort_by core_before Holds (map core_of (group_cpus cpus [])) in
      let mapped =
        Exists-map core_of Holds (λ e. (e.0 ≡ (package_id, core_id)) × Exists (λ i. i ≡ index) e.1)
          core_of-Holds (group_cpus cpus []) in
      let grouped = Grouped-group_cpus cpus [] in
      (
        λ h. elim (grouped.0 (mapped.0 (sorted.0 h))) [ inl x ↦ x | inr z ↦ absurd z ],
        λ h. sorted.1 (mapped.1 (grouped.1 (inl h))),
      )

  -- A core of the snapshot has a logical processor exactly if one of the CPUs that were read has
  -- this number, package and core: none is lost, moved or made up.
  pub topology_from_raw_cpus-Holds :
      (arch host_id captured_at : Text) (cpus : List RawCpu) (numa : List (ℕ × List ℕ))
      → (warnings : List Text)
      → Exists Holds (topology_from_raw_cpus arch host_id captured_at cpus numa warnings).cores
        ↔ Exists IsAt cpus
  unfolding topology_from_raw_cpus
  topology_from_raw_cpus-Holds arch host_id captured_at cpus numa warnings = cores_of-Holds cpus
