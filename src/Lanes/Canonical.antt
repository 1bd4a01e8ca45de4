-- ===== src/Lanes/Canonical.antt =====
-- crates/fabric-compute-lanes/src/lib.rs: the canonical JSON of projected devices and of the whole
-- projection, and their fingerprints.
use forgewire_fabric.Prelude.{Bool, [], ◌∷◌, Text, text}
use forgewire_fabric.Prelude.Int.{ℤ}
use forgewire_fabric.Prelude.Json.{bool, number, scalar, object, array, string_value}
use forgewire_fabric.Topology.{Value, natural, Printing}
use forgewire_fabric.Lanes.{
  Capability, DeviceMemory, lane_str, BackendAdapter, ProjectedDevice, ProjectedCpu,
  ComputeCapabilityProjection,
}

abbrev pub boolean : Bool → Value
boolean b = scalar (bool b)

abbrev pub integer : ℤ → Value
integer n = scalar (number n)

module _ {B M : Type 0} (capability : Capability B M) where
  open capability use {backend_str, memory_str, class_str}

  abbrev pub adapter_value : BackendAdapter B → Value
  adapter_value a = object (
      (text "id", string_value a.id)
      ∷ (text "backends", array (λ b. string_value (backend_str b)) a.backends)
      ∷ [])

  abbrev pub memory_value : DeviceMemory M → Value
  memory_value m = object (
      (text "dedicated_mb", integer m.dedicated_mb)
      ∷ (text "host_visible_heap_mb", integer m.host_visible_heap_mb)
      ∷ (text "model", string_value (memory_str m.model))
      ∷ (text "shared_mb", integer m.shared_mb)
      ∷ (text "supports_pinned_host", boolean m.supports_pinned_host)
      ∷ (text "supports_unified_addressing", boolean m.supports_unified_addressing)
      ∷ [])

  unfoldable pub device_value : ProjectedDevice B M → Value
  device_value d = object (
      (text "device_id", string_value d.device_id)
      ∷ (text "lane_kind", string_value (lane_str d.lane_kind))
      ∷ (text "vendor", string_value d.vendor)
      ∷ (text "name", string_value d.name)
      ∷ (text "compute_class", string_value (class_str d.compute_class))
      ∷ (text "supported_backends", array (λ b. string_value (backend_str b)) d.supported_backends)
      ∷ (text "preferred_backend", string_value (backend_str d.preferred_backend))
      ∷ (text "memory", memory_value d.memory)
      ∷ (text "adapters", array adapter_value d.adapters)
      ∷ [])

  unfoldable pub compute_fingerprint : Printing → ProjectedDevice B M → Text
  unfolding device_value
  compute_fingerprint printing d = printing.hex_sha256 (printing.to_string_pretty (device_value d))

  -- `serde_json::to_value(&self.cpu)`
  abbrev pub cpu_value : ProjectedCpu → Value
  cpu_value c = object (
      (text "arch", string_value c.arch)
      ∷ (text "processor_packages", natural c.processor_packages)
      ∷ (text "physical_cores", natural c.physical_cores)
      ∷ (text "logical_processors", natural c.logical_processors)
      ∷ (text "processor_groups", natural c.processor_groups)
      ∷ (text "numa_nodes", natural c.numa_nodes)
      ∷ (text "has_smt", boolean c.has_smt)
      ∷ (text "heterogeneous_cores", boolean c.heterogeneous_cores)
      ∷ (text "topology_fingerprint", string_value c.topology_fingerprint)
      ∷ [])

  unfoldable pub projection_value : ComputeCapabilityProjection B M → Value
  unfolding device_value
  projection_value p = object (
      (text "schema_version", natural p.schema_version)
      ∷ (text "host_id", string_value p.host_id)
      ∷ (text "cpu", cpu_value p.cpu)
      ∷ (text "devices", array device_value p.devices)
      ∷ (text "available_runtimes", array (λ b. string_value (backend_str b)) p.available_runtimes)
      ∷ (text "backend_matrix_fingerprint", string_value p.backend_matrix_fingerprint)
      ∷ (text "projection_warnings", array string_value p.projection_warnings)
      ∷ (text "projected_at", string_value p.projected_at)
      ∷ [])

  unfoldable pub projection_fingerprint : Printing → ComputeCapabilityProjection B M → Text
  unfolding projection_value
  projection_fingerprint printing p =
      printing.hex_sha256 (printing.to_string_pretty (projection_value p))
