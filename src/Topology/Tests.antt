-- ===== src/Topology/Tests.antt =====
-- Runs of the topology snapshot, with a stand-in print that keeps the host and the architecture.
use forgewire_fabric.Prelude.{
  ◌+◌, ◌≡◌, ◌↔◌, refl, Exists, Option, none, some, List, [], ◌∷◌, ◌++◌, map, Text, text,
}
use forgewire_fabric.Prelude.Json.{string, scalar, obj, get_field}
use forgewire_fabric.Topology.{
  Value, Printing, linux_procfs_and_sysfs, ComputeTopologySnapshot, snapshot_value, canonical_json,
  topology_fingerprint,
}
use forgewire_fabric.Topology.Linux.{RawCpu, topology_from_raw_cpus}
use forgewire_fabric.Topology.Placed.{Holds, IsAt, topology_from_raw_cpus-Holds}

abbrev string_of : Option Value → Text
string_of (some (scalar (string s))) = s
string_of _ = []

abbrev print : Value → Text
print (obj fs) = string_of (get_field (text "host_id") fs) ++ string_of (get_field (text "arch") fs)
print _ = []

abbrev printing : Printing
printing = record { to_string_pretty = print; hex_sha256 = map (λ c. c + 1) }

abbrev snapshot : ComputeTopologySnapshot
snapshot = record {
  schema_version = 1;
  host_id = text "host";
  os = text "linux";
  arch = text "x86_64";
  processor_packages = 1;
  physical_cores = 1;
  logical_processors = 2;
  processor_groups = [];
  numa_nodes = [];
  cores =
      record {
        core_id = 0;
        package_id = 0;
        logical_processors = record { group = 0; index = 0 } ∷ record { group = 0; index = 1 } ∷ [];
        efficiency_class = some 1;
      }
      ∷ [];
  probe_source = linux_procfs_and_sysfs;
  probe_warnings = text "numa unknown" ∷ [];
  captured_at = text "2026-01-01T00:00:00Z";
}

fingerprint_run : topology_fingerprint printing snapshot ≡ text "iptuy97`75"
unfolding topology_fingerprint canonical_json snapshot_value
fingerprint_run = refl

abbrev cpus : List RawCpu
cpus =
    record { logical_index = 1; package_id = 0; core_id = 4 }
    ∷ record { logical_index = 0; package_id = 0; core_id = 4 }
    ∷ record { logical_index = 2; package_id = 0; core_id = 0 }
    ∷ []

siblings_share_a_core :
    (topology_from_raw_cpus (text "x86_64") (text "h") (text "now") cpus [] []).cores
    ≡ record {
      core_id = 0;
      package_id = 0;
      logical_processors = record { group = 0; index = 2 } ∷ [];
      efficiency_class = none;
    }
      ∷ record {
        core_id = 4;
        package_id = 0;
        logical_processors = record { group = 0; index = 0 } ∷ record { group = 0; index = 1 } ∷ [];
        efficiency_class = none;
      }
      ∷ []
unfolding topology_from_raw_cpus
siblings_share_a_core = refl

topology_from_raw_cpus-Holds_example :
    Exists
      (Holds 0 4 1)
      (topology_from_raw_cpus (text "x86_64") (text "h") (text "now") cpus [] []).cores
    ↔ Exists (IsAt 0 4 1) cpus
topology_from_raw_cpus-Holds_example =
    topology_from_raw_cpus-Holds 0 4 1 (text "x86_64") (text "h") (text "now") cpus [] []
