-- ===== src/Lanes/Cpu.antt =====
-- crates/fabric-compute-lanes/src/lib.rs, project_cpu: the summary of the processors.
use forgewire_fabric.Prelude.{
  ℕ, ◌%◌, ◌^◌, Bool, true, false, Option, none, some, List, [], ◌∷◌, map, ltb, leb, ◌==◌,
  if◌then◌else◌, any, length,
}
use forgewire_fabric.Topology.{
  Printing, CoreTopology, ComputeTopologySnapshot, topology_fingerprint,
}
use forgewire_fabric.Lanes.{ProjectedCpu}

-- `efficiency_class` is ordered with none first.
abbrev pub class_leb : Option ℕ → Option ℕ → Bool
class_leb none b = true
class_leb (some a) none = false
class_leb (some a) (some b) = leb a b

abbrev pub class_eq : Option ℕ → Option ℕ → Bool
class_eq none none = true
class_eq none (some b) = false
class_eq (some a) none = false
class_eq (some a) (some b) = a == b

abbrev pub insert_class : Option ℕ → List (Option ℕ) → List (Option ℕ)
insert_class a [] = a ∷ []
insert_class a (b ∷ bs) =
    let rest = insert_class a bs in if class_leb a b then a ∷ b ∷ bs else b ∷ rest

abbrev pub sort_classes : List (Option ℕ) → List (Option ℕ)
sort_classes [] = []
sort_classes (a ∷ more) = insert_class a (sort_classes more)

-- `dedup`: of equal neighbours the first is kept.
abbrev pub dedup_after : Option ℕ → List (Option ℕ) → List (Option ℕ)
dedup_after a [] = []
dedup_after a (b ∷ bs) = let rest = dedup_after b bs in if class_eq a b then rest else b ∷ rest

abbrev pub dedup : List (Option ℕ) → List (Option ℕ)
dedup [] = []
dedup (a ∷ more) = a ∷ dedup_after a more

abbrev pub heterogeneous : List CoreTopology → Bool
heterogeneous cores = ltb 1 (length (dedup (sort_classes (map (λ c. c.efficiency_class) cores))))

unfoldable pub project_cpu : Printing → ComputeTopologySnapshot → ProjectedCpu
project_cpu printing topology = record {
  arch = topology.arch;
  processor_packages = topology.processor_packages;
  physical_cores = topology.physical_cores;
  logical_processors = topology.logical_processors;
  processor_groups = length topology.processor_groups % 2 ^ 32;
  numa_nodes = length topology.numa_nodes % 2 ^ 32;
  has_smt = any (λ c. ltb 1 (length c.logical_processors)) topology.cores;
  heterogeneous_cores = heterogeneous topology.cores;
  topology_fingerprint = topology_fingerprint printing topology;
}
