-- ===== src/Hub.antt =====
-- crates/fabric-hub/src: the decisions of the hub that its routes share, on who may call which route,
-- on the time stamps, on the cluster and on the capabilities of runners, and the routes that change a
-- setting, dispatch a task and claim one.
pub mod Roles
pub mod Routes
pub mod Authorities
mod Tests
pub mod Normal
pub mod Guards
pub mod Agreement
pub mod Calendar
pub mod Cluster
pub mod Capabilities
pub mod Signed
pub mod Store
pub mod Claims
pub mod Dispatch
pub mod Mutation
