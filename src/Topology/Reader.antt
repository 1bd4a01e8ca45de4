-- ===== src/Topology/Reader.antt =====
-- crates/fabric-topology/src/lib.rs: nothing of a snapshot is lost in its fingerprint. The proof
-- reads the snapshot back from its canonical value.
use forgewire_fabric.Prelude.{
  ℕ, ◌≡◌, refl, sym, ap, ◌∙◌, Option, none, some, List, [], ◌∷◌, map, Text, text, text_eq,
  if◌then◌else◌,
}
use forgewire_fabric.Prelude.Int.{pos}
use forgewire_fabric.Prelude.Json.{
  number, string, scalar, arr, obj, to_list, get_field, array, string_value,
}
use forgewire_fabric.Topology.{
  Value, Printing, LogicalProcessorId, logical_processor_value, CoreTopology, core_value,
  ProcessorGroup, processor_group_value, NumaNode, numa_node_value, ProbeSource,
  windows_logical_processor_information_ex, linux_procfs_and_sysfs, unsupported, probe_source_str,
  ComputeTopologySnapshot, snapshot_value, canonical_json, topology_fingerprint, efficiency_value,
}

abbrev member : Text → Value → Option Value
member key (obj fs) = get_field key fs
member key _ = none

abbrev read_text : Option Value → Text
read_text (some (scalar (string s))) = s
read_text _ = []

abbrev read_natural : Option Value → ℕ
read_natural (some (scalar (number (pos n)))) = n
read_natural _ = 0

abbrev read_option : Option Value → Option ℕ
read_option (some (scalar (number (pos n)))) = some n
read_option _ = none

abbrev elements : Option Value → List Value
elements (some (arr xs)) = to_list xs
elements _ = []

abbrev read_list {ℓ} : {A : Type ℓ} → (Value → A) → Option Value → List A
read_list f v = map f (elements v)

pub read_list-array {ℓ} :
    {A : Type ℓ} (f : A → Value) (g : Value → A)
    → ((a : A) → g (f a) ≡ a)
    → (xs : List A) → read_list g (some (array f xs)) ≡ xs
read_list-array f g back [] = refl
read_list-array f g back (x ∷ xs) = rw (back x, read_list-array f g back xs) refl

abbrev read_processor : Value → LogicalProcessorId
read_processor v = record {
  group = read_natural (member (text "group") v);
  index = read_natural (member (text "index") v);
}

abbrev read_core : Value → CoreTopology
read_core v = record {
  core_id = read_natural (member (text "core_id") v);
  package_id = read_natural (member (text "package_id") v);
  logical_processors = read_list read_processor (member (text "logical_processors") v);
  efficiency_class = read_option (member (text "efficiency_class") v);
}

abbrev read_group : Value → ProcessorGroup
read_group v = record {
  group = read_natural (member (text "group") v);
  active_processor_count = read_natural (member (text "active_processor_count") v);
}

abbrev read_node : Value → NumaNode
read_node v = record {
  node_id = read_natural (member (text "node_id") v);
  logical_processors = read_list read_processor (member (text "logical_processors") v);
}

abbrev read_source : Text → ProbeSource
read_source s =
    if text_eq s (text "linux_procfs_and_sysfs")
    then linux_procfs_and_sysfs
    else if text_eq s (text "unsupported")
    then unsupported
    else windows_logical_processor_information_ex

abbrev read_snapshot : Value → ComputeTopologySnapshot
read_snapshot v = record {
  schema_version = read_natural (member (text "schema_version") v);
  host_id = read_text (member (text "host_id") v);
  os = read_text (member (text "os") v);
  arch = read_text (member (text "arch") v);
  processor_packages = read_natural (member (text "processor_packages") v);
  physical_cores = read_natural (member (text "physical_cores") v);
  logical_processors = read_natural (member (text "logical_processors") v);
  processor_groups = read_list read_group (member (text "processor_groups") v);
  numa_nodes = read_list read_node (member (text "numa_nodes") v);
  cores = read_list read_core (member (text "cores") v);
  probe_source = read_source (read_text (member (text "probe_source") v));
  probe_warnings = read_list (λ w. read_text (some w)) (member (text "probe_warnings") v);
  captured_at = read_text (member (text "captured_at") v);
}

processors_back :
    (ps : List LogicalProcessorId)
    → read_list read_processor (some (array logical_processor_value ps)) ≡ ps
processors_back = read_list-array logical_processor_value read_processor (λ p. refl)

option_back : (o : Option ℕ) → read_option (some (efficiency_value o)) ≡ o
option_back none = refl
option_back (some n) = refl

core_back : (c : CoreTopology) → read_core (core_value c) ≡ c
core_back c = rw (processors_back c.logical_processors, option_back c.efficiency_class) refl

node_back : (n : NumaNode) → read_node (numa_node_value n) ≡ n
node_back n = rw (processors_back n.logical_processors) refl

source_back : (p : ProbeSource) → read_source (probe_source_str p) ≡ p
source_back windows_logical_processor_information_ex = refl
source_back linux_procfs_and_sysfs = refl
source_back unsupported = refl

snapshot_back : (s : ComputeTopologySnapshot) → read_snapshot (snapshot_value s) ≡ s
unfolding snapshot_value
snapshot_back s =
    rw
      (
        read_list-array processor_group_value read_group (λ g. refl) s.processor_groups,
        read_list-array numa_node_value read_node node_back s.numa_nodes,
        read_list-array core_value read_core core_back s.cores,
        source_back s.probe_source,
        read_list-array string_value (λ w. read_text (some w)) (λ w. refl) s.probe_warnings,
      )
      refl

-- Snapshots with the same fingerprint are the same, if on the two of them neither the print of
-- serde_json nor SHA-256 makes different things alike.
topology_fingerprint-injective :
    (printing : Printing) (a b : ComputeTopologySnapshot)
    → (printing.to_string_pretty (snapshot_value a) ≡ printing.to_string_pretty (snapshot_value b)
        → snapshot_value a ≡ snapshot_value b)
    → (printing.hex_sha256 (canonical_json printing a)
          ≡ printing.hex_sha256 (canonical_json printing b)
        → canonical_json printing a ≡ canonical_json printing b)
    → topology_fingerprint printing a ≡ topology_fingerprint printing b
    → a ≡ b
unfolding topology_fingerprint canonical_json
topology_fingerprint-injective printing a b print_distinct no_collision h =
    sym (snapshot_back a) ∙ ap read_snapshot (print_distinct (no_collision h)) ∙ snapshot_back b
