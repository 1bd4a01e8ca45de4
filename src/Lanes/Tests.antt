-- ===== src/Lanes/Tests.antt =====
-- Runs of the projection on one device, with backends that are numbers.
use forgewire_fabric.Prelude.{
  ℕ, ◌≡◌, ◌≢◌, refl, true, false, Option, none, some, [], ◌∷◌, ◌++◌, arith, Text, text, text_eq_iff,
  ◌==◌,
}
use forgewire_fabric.Prelude.Int.{pos}
use forgewire_fabric.Prelude.Results.{okay}
use forgewire_fabric.Topology.{
  Printing, linux_procfs_and_sysfs, CoreTopology, ComputeTopologySnapshot,
}
use forgewire_fabric.Lanes.{modern_cuda, DeviceDescriptor, Capability, BackendMatrixSnapshot}
use forgewire_fabric.Lanes.Redact.{
  clean, redacted, value_of, looks_like_path, contains_current_username, long_opaque_run,
  redact_field,
}
use forgewire_fabric.Lanes.Project.{project_device}
use forgewire_fabric.Lanes.Cpu.{project_cpu}
use forgewire_fabric.Lanes.Hidden.{redact_field_hidden}
use forgewire_fabric.Lanes.Carried.{projected_alone}

abbrev env : Text → Option Text
env name = none

abbrev printing : Printing
printing = record { to_string_pretty = λ v. []; hex_sha256 = λ s. s }

abbrev capability : Capability ℕ ℕ
capability = record {
  backend_str = λ b. text "cuda";
  backend_eq = λ a b. a == b;
  memory_str = λ m. text "dedicated";
  class_str = λ c. text "modern_cuda";
  supported_version = text "1";
  from_canonical_json =
      λ s. okay (record { schema_version = text "1"; devices = []; available_runtimes = [] });
  fingerprint = λ m. [];
}

abbrev gpu : DeviceDescriptor ℕ ℕ
gpu = record {
  id = text "gpu0";
  vendor = text "NVIDIA";
  name = text "/opt/rocm/lib";
  driver_version = text "550.1";
  compute_class = modern_cuda;
  supported_backends = 0 ∷ [];
  preferred_backend = 1;
  memory = record {
    model = 0;
    dedicated_mb = pos 8192;
    shared_mb = pos 0;
    host_visible_heap_mb = pos 256;
    supports_unified_addressing = false;
    supports_pinned_host = true;
  };
}

abbrev snapshot : BackendMatrixSnapshot ℕ ℕ
snapshot = record {
  matrix = record { schema_version = text "1"; devices = gpu ∷ []; available_runtimes = 0 ∷ [] };
  matrix_fingerprint = text "f";
  observed_at = text "now";
  age_seconds = none;
}

abbrev core_of_class : ℕ → CoreTopology
core_of_class n = record {
  core_id = n;
  package_id = 0;
  logical_processors = [];
  efficiency_class = some n;
}

abbrev topology : ComputeTopologySnapshot
topology = record {
  schema_version = 1;
  host_id = text "host";
  os = text "linux";
  arch = text "x86_64";
  processor_packages = 1;
  physical_cores = 2;
  logical_processors = 2;
  processor_groups = [];
  numa_nodes = [];
  cores = core_of_class 0 ∷ core_of_class 1 ∷ core_of_class 0 ∷ [];
  probe_source = linux_procfs_and_sysfs;
  probe_warnings = text "numa unknown" ∷ [];
  captured_at = text "now";
}

path_redacted :
    redact_field env (text "/opt/rocm/lib")
    ≡ redacted (text "[redacted-path]") (text "contained a Unix filesystem path")
unfolding redact_field looks_like_path
path_redacted = refl

model_passes : redact_field env (text "Intel(R) i9-14900K") ≡ clean (text "Intel(R) i9-14900K")
unfolding redact_field looks_like_path contains_current_username long_opaque_run
model_passes = refl

mixed_cores : (project_cpu printing topology).heterogeneous_cores ≡ true
unfolding project_cpu
mixed_cores = refl

name_altered : (projected_alone capability printing env [] gpu).name ≢ text "/opt/rocm/lib"
unfolding project_device redact_field looks_like_path
name_altered e = cc ((text_eq_iff (text "[redacted-path]") (text "/opt/rocm/lib")).1 e)

redact_field_hidden_example :
    value_of (redact_field env (text "/home/ann/key" ++ text "\n")) ≡ text "/home/ann/key"
redact_field_hidden_example = redact_field_hidden env (text "/home/ann/key") refl refl (omega arith)
