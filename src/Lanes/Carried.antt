-- ===== src/Lanes/Carried.antt =====
-- crates/fabric-compute-lanes/src/lib.rs, project: what the view keeps of the matrix, and that
-- nothing is altered without a warning.
use forgewire_fabric.Prelude.{
  ℕ, ◌≡◌, ◌≢◌, ◌⊎◌, refl, sym, ap, ◌∙◌, inl, inr, Option, List, [], ◌∷◌, ◌++◌, map, Text, text,
}
use forgewire_fabric.Topology.{Printing, ComputeTopologySnapshot}
use forgewire_fabric.Lanes.{Capability, DeviceDescriptor, BackendMatrixSnapshot, ProjectedDevice}
use forgewire_fabric.Lanes.Redact.{RedactionOutcome, clean, redacted, redact_field}
use forgewire_fabric.Lanes.Project.{
  AdapterRegistry, redacted_value, redaction_warning, preferred_warning, adapter_warnings,
  adapters_of, early_warnings, project_device, project_devices, project,
}
use forgewire_fabric.Lanes.Clean.{clean_same}
use mathlib.Core.List.{append_assoc, append-nil}

regroup : (w a b c d : List Text) → (((w ++ a) ++ b) ++ c) ++ d ≡ w ++ (((a ++ b) ++ c) ++ d)
regroup w a b c d =
    ap (λ l. (l ++ c) ++ d) (append_assoc w a b)
    ∙ ap (λ l. l ++ d) (append_assoc w (a ++ b) c)
    ∙ append_assoc w ((a ++ b) ++ c) d

nil_left : (a b : List Text) → a ++ b ≡ [] → a ≡ []
nil_left [] b h = refl
nil_left (x ∷ a) b h = cc

nil_right : (a b : List Text) → a ++ b ≡ [] → b ≡ []
nil_right [] b h = h
nil_right (x ∷ a) b h = cc

not_nil : (x : Text) → Path (List Text) (x ∷ []) [] → ⊥
not_nil x h = cc

module _ {B M : Type 0} (capability : Capability B M) (printing : Printing)
    (env : Text → Option Text) (adapters : AdapterRegistry B) where
  -- What one device gives: its projection, and the warnings about it.
  abbrev pub projected_alone : DeviceDescriptor B M → ProjectedDevice B M
  projected_alone d = (project_device capability printing env d adapters []).0

  abbrev pub warnings_alone : DeviceDescriptor B M → List Text
  warnings_alone d = (project_device capability printing env d adapters []).1

  abbrev pub all_warnings : List (DeviceDescriptor B M) → List Text
  all_warnings [] = []
  all_warnings (d ∷ ds) = warnings_alone d ++ all_warnings ds

  device_alone :
      (d : DeviceDescriptor B M) (w : List Text)
      → project_device capability printing env d adapters w
        ≡ (projected_alone d, w ++ warnings_alone d)
  unfolding project_device
  device_alone d w =
      ap (λ l. (projected_alone d, l))
        (regroup w (redaction_warning d.id (text "vendor") (redact_field env d.vendor))
          (redaction_warning d.id (text "name") (redact_field env d.name))
          (preferred_warning capability printing env d)
          (adapter_warnings capability printing env d (adapters_of d.id adapters)))

  devices_alone :
      (ds : List (DeviceDescriptor B M)) (w : List Text)
      → project_devices capability printing env ds adapters w
        ≡ (map projected_alone ds, w ++ all_warnings ds)
  unfolding project_devices
  devices_alone [] w = ap (λ l. ([], l)) (sym (append-nil w))
  devices_alone (d ∷ ds) w =
      ap
        (λ f.
          let rest = project_devices capability printing env ds adapters f.1 in
          (f.0 ∷ rest.0, rest.1))
        (device_alone d w)
      ∙ ap (λ r. (projected_alone d ∷ r.0, r.1)) (devices_alone ds (w ++ warnings_alone d))
      ∙ ap (λ l. (projected_alone d ∷ map projected_alone ds, l))
          (append_assoc w (warnings_alone d) (all_warnings ds))

  -- Every device is projected on its own and in order, and the warnings are those on the inputs
  -- followed by those of the devices in turn.
  pub project-devices :
      (host_id : Text) (snapshot : BackendMatrixSnapshot B M) (topology : ComputeTopologySnapshot)
      → (projected_at : Text) (max_age : ℕ)
      → let view =
          project capability printing env host_id snapshot topology adapters projected_at max_age in
        (view.devices ≡ map projected_alone snapshot.matrix.devices)
        × (view.projection_warnings
            ≡ early_warnings capability printing env snapshot topology max_age
              ++ all_warnings snapshot.matrix.devices)
  unfolding project
  project-devices host_id snapshot topology projected_at max_age =
      let both =
        devices_alone snapshot.matrix.devices
          (early_warnings capability printing env snapshot topology max_age) in
      (ap (λ p. p.0) both, ap (λ p. p.1) both)

  altered_warns :
      (id field value : Text)
      → redacted_value (redact_field env value) ≢ value
      → (x : Text) × (redaction_warning id field (redact_field env value) ≡ x ∷ [])
  altered_warns id field value altered =
      of_outcome (redact_field env value) (λ v. clean_same env value v) altered
    where
      of_outcome :
          (o : RedactionOutcome)
          → ((v : Text) → o ≡ clean v → v ≡ value)
          → redacted_value o ≢ value
          → (x : Text) × (redaction_warning id field o ≡ x ∷ [])
      of_outcome (clean v) same h = absurd (h (same v refl))
      of_outcome (redacted v reason) same h = (_, refl)

  -- A device whose vendor or name is advertised otherwise than it was found has a warning.
  pub project_device-altered :
      (d : DeviceDescriptor B M)
      → ((projected_alone d).vendor ≢ d.vendor) ⊎ ((projected_alone d).name ≢ d.name)
      → warnings_alone d ≢ []
  unfolding project_device
  project_device-altered d altered none_raised = elim altered [
    | inl h ↦
        let (x, e) = altered_warns d.id (text "vendor") d.vendor h in
        not_nil x (sym e ∙ nil_left vendor name redactions)
    | inr h ↦
        let (x, e) = altered_warns d.id (text "name") d.name h in
        not_nil x (sym e ∙ nil_right vendor name redactions)
  ]
    where
      vendor : List Text
      vendor = redaction_warning d.id (text "vendor") (redact_field env d.vendor)

      name : List Text
      name = redaction_warning d.id (text "name") (redact_field env d.name)

      redactions : vendor ++ name ≡ []
      redactions =
          nil_left (vendor ++ name) _ (
            nil_left ((vendor ++ name) ++ preferred_warning capability printing env d) _
              none_raised)

  -- The device with the version of its driver left out.
  abbrev pub without_driver : DeviceDescriptor B M → DeviceDescriptor B M
  without_driver d = record {
    id = d.id;
    vendor = d.vendor;
    name = d.name;
    driver_version = [];
    compute_class = d.compute_class;
    supported_backends = d.supported_backends;
    preferred_backend = d.preferred_backend;
    memory = d.memory;
  }

  -- The version of the driver has no influence on what a device gives.
  pub project_device-without_driver :
      (d : DeviceDescriptor B M) (w : List Text)
      → project_device capability printing env (without_driver d) adapters w
        ≡ project_device capability printing env d adapters w
  unfolding project_device
  project_device-without_driver d w = refl
