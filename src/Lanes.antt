-- ===== src/Lanes.antt =====
-- crates/fabric-compute-lanes/src/lib.rs: the types of the capability projection, their canonical
-- JSON, the snapshot of the backend matrix, and the health of a device. The crate
-- forgewire_capability is no part of the repository: its backends and memory models are type
-- parameters, and of its records only the fields that the code reads are here.
pub mod Canonical
pub mod Health
pub mod Redact
pub mod Cpu
pub mod Project
pub mod Clean
pub mod Hidden
pub mod Runs
pub mod Carried
pub mod Cores
mod Tests
use forgewire_fabric.Prelude.{
  ℕ, Bool, true, false, not, ◌||◌, Option, none, some, List, [], ◌∷◌, Text, text, text_eq, ltb,
  if◌then◌else◌, filter,
}
use forgewire_fabric.Prelude.Int.{ℤ}
use forgewire_fabric.Prelude.Json.{Scalar, bool, number, Json, scalar, object, array, string_value}
use forgewire_fabric.Prelude.Results.{Result, err, okay, and_then}
use forgewire_fabric.Topology.{Value, natural, Printing}

pub data ComputeClass : Type 0 where
  cpu_only : ComputeClass
  openvino_npu : ComputeClass
  modern_cuda : ComputeClass
  legacy_cuda : ComputeClass
  discrete_vulkan : ComputeClass
  integrated_vulkan : ComputeClass
  metal : ComputeClass
  directml_only : ComputeClass

pub record DeviceMemory (M : Type 0) : Type 0 where
  pub model : M
  pub dedicated_mb : ℤ
  pub shared_mb : ℤ
  pub host_visible_heap_mb : ℤ
  pub supports_unified_addressing : Bool
  pub supports_pinned_host : Bool

pub record DeviceDescriptor (B M : Type 0) : Type 0 where
  pub id : Text
  pub vendor : Text
  pub name : Text
  pub driver_version : Text
  pub compute_class : ComputeClass
  pub supported_backends : List B
  pub preferred_backend : B
  pub memory : DeviceMemory M

pub record ForgeCoreBackendMatrix (B M : Type 0) : Type 0 where
  pub schema_version : Text
  pub devices : List (DeviceDescriptor B M)
  pub available_runtimes : List B

-- The functions of forgewire_capability that are called.
pub record Capability (B M : Type 0) : Type 0 where
  pub backend_str : B → Text
  pub backend_eq : B → B → Bool
  pub memory_str : M → Text
  pub class_str : ComputeClass → Text
  pub supported_version : Text
  pub from_canonical_json : Text → Result Text (ForgeCoreBackendMatrix B M)
  pub fingerprint : ForgeCoreBackendMatrix B M → Text

pub data ProjectionError : Type 0 where
  malformed_snapshot : Text → ProjectionError
  unreadable_snapshot : Text → ProjectionError
  unsupported_schema : Text → Text → ProjectionError

pub record BackendMatrixSnapshot (B M : Type 0) : Type 0 where
  pub matrix : ForgeCoreBackendMatrix B M
  pub matrix_fingerprint : Text
  pub observed_at : Text
  pub age_seconds : Option ℕ

module _ {B M : Type 0} (capability : Capability B M) where
  open capability use {supported_version, from_canonical_json, fingerprint}

  pub from_matrix :
      ForgeCoreBackendMatrix B M
      → Text
      → Option ℕ
      → Result ProjectionError (BackendMatrixSnapshot B M)
  from_matrix matrix observed_at age_seconds =
      if not (text_eq matrix.schema_version supported_version)
      then err (unsupported_schema matrix.schema_version supported_version)
      else okay (record {
        matrix = matrix;
        matrix_fingerprint = fingerprint matrix;
        observed_at = observed_at;
        age_seconds = age_seconds;
      })

  abbrev malformed :
      Result Text (ForgeCoreBackendMatrix B M) → Result ProjectionError (ForgeCoreBackendMatrix B M)
  malformed (err e) = err (malformed_snapshot e)
  malformed (okay matrix) = okay matrix

  pub from_json : Text → Text → Option ℕ → Result ProjectionError (BackendMatrixSnapshot B M)
  unfolding from_matrix
  from_json json observed_at age_seconds =
      and_then (malformed (from_canonical_json json))
        (λ matrix. from_matrix matrix observed_at age_seconds)

abbrev pub older_than : Option ℕ → ℕ → Bool
older_than (some age) max_age_seconds = ltb max_age_seconds age
older_than none max_age_seconds = true

pub data LaneKind : Type 0 where
  cpu_lane : LaneKind
  gpu_lane : LaneKind
  accelerator_lane : LaneKind

abbrev pub from_compute_class : ComputeClass → LaneKind
from_compute_class cpu_only = cpu_lane
from_compute_class openvino_npu = accelerator_lane
from_compute_class _ = gpu_lane

abbrev pub lane_str : LaneKind → Text
lane_str cpu_lane = text "cpu"
lane_str gpu_lane = text "gpu"
lane_str accelerator_lane = text "accelerator"

abbrev pub lane_eq : LaneKind → LaneKind → Bool
lane_eq cpu_lane cpu_lane = true
lane_eq gpu_lane gpu_lane = true
lane_eq accelerator_lane accelerator_lane = true
lane_eq _ _ = false

pub record BackendAdapter (B : Type 0) : Type 0 where
  pub id : Text
  pub backends : List B

pub record ProjectedDevice (B M : Type 0) : Type 0 where
  pub device_id : Text
  pub lane_kind : LaneKind
  pub vendor : Text
  pub name : Text
  pub compute_class : ComputeClass
  pub supported_backends : List B
  pub preferred_backend : B
  pub memory : DeviceMemory M
  pub adapters : List (BackendAdapter B)
  pub fingerprint : Text

pub record ProjectedCpu : Type 0 where
  pub arch : Text
  pub processor_packages : ℕ
  pub physical_cores : ℕ
  pub logical_processors : ℕ
  pub processor_groups : ℕ
  pub numa_nodes : ℕ
  pub has_smt : Bool
  pub heterogeneous_cores : Bool
  pub topology_fingerprint : Text

pub record ComputeCapabilityProjection (B M : Type 0) : Type 0 where
  pub schema_version : ℕ
  pub host_id : Text
  pub cpu : ProjectedCpu
  pub devices : List (ProjectedDevice B M)
  pub available_runtimes : List B
  pub backend_matrix_fingerprint : Text
  pub projection_warnings : List Text
  pub projected_at : Text
