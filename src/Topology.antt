-- ===== src/Topology.antt =====
-- crates/fabric-topology/src/lib.rs: the snapshot of a host's processors with its canonical JSON
-- and its fingerprint. The pretty print of serde_json and SHA-256 in hex are parameters.
pub mod Reader
pub mod Linux
pub mod Placed
mod Tests
use forgewire_fabric.Prelude.{ℕ, Bool, Option, none, some, List, [], ◌∷◌, Text, text}
use forgewire_fabric.Prelude.Int.{ℤ, pos}
use forgewire_fabric.Prelude.Json.{
  Scalar, null, bool, number, Json, scalar, object, array, string_value,
}

abbrev pub Value : Type 0
Value = Json ℤ

-- `Value::from` of an unsigned integer.
abbrev pub natural : ℕ → Value
natural n = scalar (number (pos n))

-- `serde_json::to_string_pretty`, and SHA-256 of a text in hex.
pub record Printing : Type 0 where
  pub to_string_pretty : Value → Text
  pub hex_sha256 : Text → Text

pub record LogicalProcessorId : Type 0 where
  pub group : ℕ
  pub index : ℕ

abbrev pub logical_processor_value : LogicalProcessorId → Value
logical_processor_value p =
    object ((text "group", natural p.group) ∷ (text "index", natural p.index) ∷ [])

pub record CoreTopology : Type 0 where
  pub core_id : ℕ
  pub package_id : ℕ
  pub logical_processors : List LogicalProcessorId
  pub efficiency_class : Option ℕ

abbrev pub efficiency_value : Option ℕ → Value
efficiency_value none = scalar null
efficiency_value (some v) = natural v

abbrev pub core_value : CoreTopology → Value
core_value c = object (
    (text "core_id", natural c.core_id)
    ∷ (text "package_id", natural c.package_id)
    ∷ (text "logical_processors", array logical_processor_value c.logical_processors)
    ∷ (text "efficiency_class", efficiency_value c.efficiency_class)
    ∷ [])

pub record ProcessorGroup : Type 0 where
  pub group : ℕ
  pub active_processor_count : ℕ

abbrev pub processor_group_value : ProcessorGroup → Value
processor_group_value g = object (
    (text "group", natural g.group)
    ∷ (text "active_processor_count", natural g.active_processor_count)
    ∷ [])

pub record NumaNode : Type 0 where
  pub node_id : ℕ
  pub logical_processors : List LogicalProcessorId

abbrev pub numa_node_value : NumaNode → Value
numa_node_value n = object (
    (text "node_id", natural n.node_id)
    ∷ (text "logical_processors", array logical_processor_value n.logical_processors)
    ∷ [])

pub data ProbeSource : Type 0 where
  windows_logical_processor_information_ex : ProbeSource
  linux_procfs_and_sysfs : ProbeSource
  unsupported : ProbeSource

abbrev pub probe_source_str : ProbeSource → Text
probe_source_str windows_logical_processor_information_ex =
    text "windows_logical_processor_information_ex"
probe_source_str linux_procfs_and_sysfs = text "linux_procfs_and_sysfs"
probe_source_str unsupported = text "unsupported"

pub record ComputeTopologySnapshot : Type 0 where
  pub schema_version : ℕ
  pub host_id : Text
  pub os : Text
  pub arch : Text
  pub processor_packages : ℕ
  pub physical_cores : ℕ
  pub logical_processors : ℕ
  pub processor_groups : List ProcessorGroup
  pub numa_nodes : List NumaNode
  pub cores : List CoreTopology
  pub probe_source : ProbeSource
  pub probe_warnings : List Text
  pub captured_at : Text

unfoldable pub snapshot_value : ComputeTopologySnapshot → Value
snapshot_value s = object (
    (text "schema_version", natural s.schema_version)
    ∷ (text "host_id", string_value s.host_id)
    ∷ (text "os", string_value s.os)
    ∷ (text "arch", string_value s.arch)
    ∷ (text "processor_packages", natural s.processor_packages)
    ∷ (text "physical_cores", natural s.physical_cores)
    ∷ (text "logical_processors", natural s.logical_processors)
    ∷ (text "processor_groups", array processor_group_value s.processor_groups)
    ∷ (text "numa_nodes", array numa_node_value s.numa_nodes)
    ∷ (text "cores", array core_value s.cores)
    ∷ (text "probe_source", string_value (probe_source_str s.probe_source))
    ∷ (text "probe_warnings", array string_value s.probe_warnings)
    ∷ (text "captured_at", string_value s.captured_at)
    ∷ [])

module _ (printing : Printing) where
  open printing use {to_string_pretty, hex_sha256}

  unfoldable pub canonical_json : ComputeTopologySnapshot → Text
  canonical_json s = to_string_pretty (snapshot_value s)

  unfoldable pub topology_fingerprint : ComputeTopologySnapshot → Text
  unfolding canonical_json
  topology_fingerprint s = hex_sha256 (canonical_json s)
