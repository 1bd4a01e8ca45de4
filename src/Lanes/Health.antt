-- ===== src/Lanes/Health.antt =====
-- crates/fabric-compute-lanes/src/lib.rs: the health of a device, kept apart from what it can do,
-- and the look-up of devices in a projection.
use forgewire_fabric.Prelude.{
  Bool, true, false, Option, none, some, List, [], ◌∷◌, Text, text_eq, if◌then◌else◌, filter,
}
use forgewire_fabric.Lanes.{LaneKind, lane_eq, ProjectedDevice, ComputeCapabilityProjection}

pub data HealthState : Type 0 where
  available : HealthState
  busy : HealthState
  degraded : HealthState
  cooling : HealthState
  drained : HealthState
  quarantined : HealthState
  unavailable : HealthState

pub data HealthReason : Type 0 where
  operator_drain : HealthReason
  capacity_exhausted : HealthReason
  memory_pressure : HealthReason
  thermal_threshold : HealthReason
  throttling : HealthReason
  driver_reset : HealthReason
  device_lost : HealthReason
  repeated_process_failure : HealthReason
  probe_mismatch : HealthReason
  missing_backend : HealthReason
  unsupported_placement : HealthReason
  stale_capability_snapshot : HealthReason
  identity_conflict : HealthReason

pub record ComputeHealthOverlay : Type 0 where
  pub device_id : Text
  pub state : HealthState
  pub reason : Option HealthReason
  pub detail : Option Text
  pub observed_at : Text

abbrev pub available_overlay : Text → Text → ComputeHealthOverlay
available_overlay device_id observed_at = record {
  device_id = device_id;
  state = available;
  reason = none;
  detail = none;
  observed_at = observed_at;
}

abbrev pub unhealthy_overlay : Text → HealthState → HealthReason → Text → ComputeHealthOverlay
unhealthy_overlay device_id state reason observed_at = record {
  device_id = device_id;
  state = state;
  reason = some reason;
  detail = none;
  observed_at = observed_at;
}

abbrev pub admitting : HealthState → Bool
admitting available = true
admitting busy = true
admitting degraded = true
admitting _ = false

abbrev pub admits_work : ComputeHealthOverlay → Bool
admits_work overlay = admitting overlay.state

module _ {B M : Type 0} where
  abbrev find_device : Text → List (ProjectedDevice B M) → Option (ProjectedDevice B M)
  find_device device_id [] = none
  find_device device_id (d ∷ ds) =
      if text_eq d.device_id device_id then some d else find_device device_id ds

  abbrev pub device : ComputeCapabilityProjection B M → Text → Option (ProjectedDevice B M)
  device projection device_id = find_device device_id projection.devices

  abbrev pub devices_of_kind :
      ComputeCapabilityProjection B M → LaneKind → List (ProjectedDevice B M)
  devices_of_kind projection kind = filter (λ d. lane_eq d.lane_kind kind) projection.devices
