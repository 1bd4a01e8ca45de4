-- ===== src/Topology/Linux.antt =====
-- crates/fabric-topology/src/linux.rs, topology_from_raw_cpus, and the probe of unsupported.rs.
-- The names of the operating system and of the architecture are parameters.
use forgewire_fabric.Prelude.{
  ℕ, ◌%◌, ◌^◌, Bool, ◌&&◌, ◌||◌, none, List, [], ◌∷◌, ◌++◌, map, Text, text, ltb, leb, ◌==◌,
  if◌then◌else◌, length,
}
use forgewire_fabric.Topology.{
  LogicalProcessorId, CoreTopology, NumaNode, linux_procfs_and_sysfs, unsupported,
  ComputeTopologySnapshot,
}

pub record RawCpu : Type 0 where
  pub logical_index : ℕ
  pub package_id : ℕ
  pub core_id : ℕ

-- A key of the map is a package and a core, ordered in this order.
abbrev pub Key : Type 0
Key = ℕ × ℕ

abbrev pub key_of : RawCpu → Key
key_of cpu = (cpu.package_id, cpu.core_id)

abbrev pub key_eq : Key → Key → Bool
key_eq a b = a.0 == b.0 && a.1 == b.1

abbrev pub key_ltb : Key → Key → Bool
key_ltb a b = ltb a.0 b.0 || (a.0 == b.0 && ltb a.1 b.1)

-- `by_core.entry(key).or_default().push(index)`
abbrev pub add_cpu : RawCpu → List (Key × List ℕ) → List (Key × List ℕ)
add_cpu cpu [] = (key_of cpu, cpu.logical_index ∷ []) ∷ []
add_cpu cpu (e ∷ es) =
    let rest = add_cpu cpu es in
    if key_eq (key_of cpu) e.0
    then (e.0, e.1 ++ cpu.logical_index ∷ []) ∷ es
    else if key_ltb (key_of cpu) e.0
    then (key_of cpu, cpu.logical_index ∷ []) ∷ e ∷ es
    else e ∷ rest

abbrev pub group_cpus : List RawCpu → List (Key × List ℕ) → List (Key × List ℕ)
group_cpus [] by_core = by_core
group_cpus (cpu ∷ cpus) by_core = group_cpus cpus (add_cpu cpu by_core)

-- `packages.insert(id)`
abbrev pub add_package : ℕ → List ℕ → List ℕ
add_package id [] = id ∷ []
add_package id (p ∷ ps) =
    let rest = add_package id ps in
    if id == p then p ∷ ps else if ltb id p then id ∷ p ∷ ps else p ∷ rest

abbrev pub packages_of : List RawCpu → List ℕ → List ℕ
packages_of [] packages = packages
packages_of (cpu ∷ cpus) packages = packages_of cpus (add_package cpu.package_id packages)

-- A sort by an order; equal elements keep their places.
module _ {A : Type 0} (before : A → A → Bool) where
  abbrev pub insert_by : A → List A → List A
  insert_by a [] = a ∷ []
  insert_by a (b ∷ bs) = let rest = insert_by a bs in if before a b then a ∷ b ∷ bs else b ∷ rest

  abbrev pub sort_by : List A → List A
  sort_by [] = []
  sort_by (a ∷ rest) = insert_by a (sort_by rest)

abbrev pub processor : ℕ → LogicalProcessorId
processor index = record { group = 0; index = index }

abbrev pub core_of : Key × List ℕ → CoreTopology
core_of e = record {
  core_id = e.0.1;
  package_id = e.0.0;
  logical_processors = map processor (sort_by leb e.1);
  efficiency_class = none;
}

abbrev pub core_before : CoreTopology → CoreTopology → Bool
core_before c d =
    key_ltb (c.package_id, c.core_id) (d.package_id, d.core_id)
    || key_eq (c.package_id, c.core_id) (d.package_id, d.core_id)

abbrev pub cores_of : List RawCpu → List CoreTopology
cores_of cpus = sort_by core_before (map core_of (group_cpus cpus []))

abbrev pub node_of : ℕ × List ℕ → NumaNode
node_of n = record { node_id = n.0; logical_processors = map processor (sort_by leb n.1) }

unfoldable pub topology_from_raw_cpus :
    Text → Text → Text → List RawCpu → List (ℕ × List ℕ) → List Text → ComputeTopologySnapshot
topology_from_raw_cpus arch host_id captured_at cpus numa_membership warnings = record {
  schema_version = 1;
  host_id = host_id;
  os = text "linux";
  arch = arch;
  processor_packages = length (packages_of cpus []) % 2 ^ 32;
  physical_cores = length (cores_of cpus) % 2 ^ 32;
  logical_processors = length cpus % 2 ^ 32;
  processor_groups = record { group = 0; active_processor_count = length cpus % 2 ^ 32 } ∷ [];
  numa_nodes = map node_of numa_membership;
  cores = cores_of cpus;
  probe_source = linux_procfs_and_sysfs;
  probe_warnings = warnings;
  captured_at = captured_at;
}

abbrev pub unsupported_probe : Text → Text → Text → Text → ComputeTopologySnapshot
unsupported_probe os arch host_id captured_at = record {
  schema_version = 1;
  host_id = host_id;
  os = os;
  arch = arch;
  processor_packages = 0;
  physical_cores = 0;
  logical_processors = 0;
  processor_groups = [];
  numa_nodes = [];
  cores = [];
  probe_source = unsupported;
  probe_warnings =
      (text "no CPU topology probe implemented for target_os="
        ++ os
        ++ text "; not validated on physical hardware, per 114F non-goals")
      ∷ [];
  captured_at = captured_at;
}
