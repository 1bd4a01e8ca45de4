-- ===== src/Runner.antt =====
-- crates/fabric-runner/src: what a runner knows of its peers.
pub mod Directory
pub mod Merging
pub mod Changes
pub mod Conflicts
pub mod Hosts
mod Tests
