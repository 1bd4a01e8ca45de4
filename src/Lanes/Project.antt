-- ===== src/Lanes/Project.antt =====
-- crates/fabric-compute-lanes/src/lib.rs, `project`: the matrix and the topology made into the
-- view that is advertised, with its warnings in the order in which they are raised.
use forgewire_fabric.Prelude.{
  ℕ, Bool, not, Option, none, some, List, [], ◌∷◌, ◌++◌, map, Text, text, text_eq, if◌then◌else◌,
  any, is_empty, decimal,
}
use forgewire_fabric.Topology.{Printing, ComputeTopologySnapshot}
use forgewire_fabric.Lanes.{
  DeviceDescriptor, Capability, BackendMatrixSnapshot, older_than, from_compute_class,
  BackendAdapter, ProjectedDevice, ComputeCapabilityProjection,
}
use forgewire_fabric.Lanes.Cpu.{project_cpu}
use forgewire_fabric.Lanes.Canonical.{compute_fingerprint}
use forgewire_fabric.Lanes.Redact.{RedactionOutcome, clean, redacted, redact_field}

abbrev pub AdapterRegistry : Type 0 → Type 0
AdapterRegistry B = List (Text × List (BackendAdapter B))

-- `adapters.get(&device.id).cloned().unwrap_or_default()`
abbrev pub adapters_of : {B : Type 0} → Text → AdapterRegistry B → List (BackendAdapter B)
adapters_of id [] = []
adapters_of id (e ∷ es) = if text_eq e.0 id then e.1 else adapters_of id es

abbrev stale_warning : Option ℕ → ℕ → Text
stale_warning (some age) max_age =
    text "backend matrix snapshot is stale: "
    ++ decimal age
    ++ text "s old exceeds max_snapshot_age_seconds="
    ++ decimal max_age
stale_warning none max_age = text "backend matrix snapshot age is unknown; treated as stale"

abbrev pub redaction_warning : Text → Text → RedactionOutcome → List Text
redaction_warning id field (clean v) = []
redaction_warning id field (redacted v reason) =
    (text "device " ++ id ++ text ": " ++ field ++ text " redacted (" ++ reason ++ text ")") ∷ []

abbrev pub redacted_value : RedactionOutcome → Text
redacted_value (clean v) = v
redacted_value (redacted v reason) = v

module _ {B M : Type 0} (capability : Capability B M) (printing : Printing)
    (env : Text → Option Text) where
  open capability use {backend_str, backend_eq}

  -- The value, and the warnings with that of a redaction pushed.
  abbrev pub apply_redaction : Text → Text → Text → List Text → Text × List Text
  apply_redaction value device_id field warnings =
      let outcome = redact_field env value in
      (redacted_value outcome, warnings ++ redaction_warning device_id field outcome)

  abbrev supports : DeviceDescriptor B M → B → Bool
  supports device b = any (λ s. backend_eq s b) device.supported_backends

  abbrev pub preferred_warning : DeviceDescriptor B M → List Text
  preferred_warning device =
      if not (supports device device.preferred_backend)
      then (text "device "
          ++ device.id
          ++ text ": preferred_backend "
          ++ backend_str device.preferred_backend
          ++ text " is not in supported_backends")
        ∷ []
      else []

  abbrev pub adapter_warnings : DeviceDescriptor B M → List (BackendAdapter B) → List Text
  adapter_warnings device [] = []
  adapter_warnings device (a ∷ more) =
      let rest = adapter_warnings device more in
      if not (any (supports device) a.backends)
      then (text "device "
          ++ device.id
          ++ text ": adapter "
          ++ a.id
          ++ text " declares no backend this device supports")
        ∷ rest
      else rest

  unfoldable pub project_device :
      DeviceDescriptor B M → AdapterRegistry B → List Text → ProjectedDevice B M × List Text
  unfolding compute_fingerprint
  project_device device adapters warnings =
      let vendor = apply_redaction device.vendor device.id (text "vendor") warnings in
      let name = apply_redaction device.name device.id (text "name") vendor.1 in
      let projected : ProjectedDevice B M = record {
        device_id = device.id;
        lane_kind = from_compute_class device.compute_class;
        vendor = vendor.0;
        name = name.0;
        compute_class = device.compute_class;
        supported_backends = device.supported_backends;
        preferred_backend = device.preferred_backend;
        memory = device.memory;
        adapters = adapters_of device.id adapters;
        fingerprint = [];
      } in
      (
        record {
          device_id = projected.device_id;
          lane_kind = projected.lane_kind;
          vendor = projected.vendor;
          name = projected.name;
          compute_class = projected.compute_class;
          supported_backends = projected.supported_backends;
          preferred_backend = projected.preferred_backend;
          memory = projected.memory;
          adapters = projected.adapters;
          fingerprint = compute_fingerprint capability printing projected;
        },
        (name.1 ++ preferred_warning device) ++ adapter_warnings device projected.adapters,
      )

  unfoldable pub project_devices :
      List (DeviceDescriptor B M)
      → AdapterRegistry B
      → List Text
      → List (ProjectedDevice B M) × List Text
  unfolding project_device
  project_devices [] adapters warnings = ([], warnings)
  project_devices (d ∷ ds) adapters warnings =
      let first = project_device d adapters warnings in
      let rest = project_devices ds adapters first.1 in (first.0 ∷ rest.0, rest.1)

  -- The warnings raised before the devices are looked at.
  abbrev pub early_warnings : BackendMatrixSnapshot B M → ComputeTopologySnapshot → ℕ → List Text
  early_warnings snapshot topology max_age =
      ((if older_than snapshot.age_seconds max_age
          then stale_warning snapshot.age_seconds max_age ∷ []
          else [])
        ++ map (λ w. text "cpu topology: " ++ w) topology.probe_warnings)
      ++ (if is_empty snapshot.matrix.devices
          then text "backend matrix declares no devices" ∷ []
          else [])

  unfoldable pub project :
      Text
      → BackendMatrixSnapshot B M
      → ComputeTopologySnapshot
      → AdapterRegistry B
      → Text
      → ℕ
      → ComputeCapabilityProjection B M
  unfolding project_devices project_cpu
  project host_id snapshot topology adapters projected_at max_snapshot_age_seconds =
      let devices =
        project_devices snapshot.matrix.devices adapters
          (early_warnings snapshot topology max_snapshot_age_seconds) in
      record {
        schema_version = 1;
        host_id = host_id;
        cpu = project_cpu printing topology;
        devices = devices.0;
        available_runtimes = snapshot.matrix.available_runtimes;
        backend_matrix_fingerprint = snapshot.matrix_fingerprint;
        projection_warnings = devices.1;
        projected_at = projected_at;
      }
