-- ===== src/Lib.antt =====
-- ForgeWire Fabric: the decisions of its control plane.
--
-- The repository is a self-hosted control plane for remote execution: a hub takes signed tasks,
-- decides by policy whether they may run, hands them to runners that are eligible for them, keeps
-- their output as numbered streams, and keeps a record of what happened. The modules here model
-- the crates that make these decisions, in the order in which a task meets them.
--
-- * Policy (crates/fabric-policy/src/lib.rs): the gate before the queue. `Policy` has the policy
--   and its decisions, `Policy.Budget` the budget and its enforcer, `Policy.Globs` the glob
--   helpers, `Policy.Engine` the checks of `PolicyEngine` in the order of the source,
--   `Policy.Gate` the `DispatchGate` that puts budget and engine together. A check that may return
--   early gives an optional decision. Amounts of type `f64` are a parameter with their comparison
--   and their print. The file policy.yaml is not read or written here.
-- * ClaimRouter (crates/fabric-claim-router/src/lib.rs): which task a runner may claim. `matches`
--   and `pick_task` are the functions of the source, `from_raw` is `RunnerView::from_raw`,
--   `glob_static_prefix` the prefix that scopes are compared by.
-- * Streams (crates/fabric-streams/src/lib.rs): sequence numbers (`StreamCounter`) and write
--   buffers (`StreamBuffer`) of the output of tasks. A method returns its result and the new
--   state. Every method locks one mutex from end to end, so threads are modelled as sequences of
--   whole operations of any tasks.
-- * Audit (crates/fabric-audit/src/lib.rs): the hash chain of events, over bytes; the print of
--   scalars by serde_json and SHA-256 in hex are parameters.
-- * Egress (crates/fabric-egress/src/lib.rs): the outgoing connections of a task. `Egress` has the
--   host rules, `from_value` and `allows`; `Egress.Wire` the messages of the SOCKS5 proxy,
--   `Egress.Socks` the proxy itself with `serve_connection`. The record `Net` holds what is asked
--   of the standard library and the network: IP addresses with their parse, name resolution, which
--   addresses can be connected to, which writes to the client succeed and whether the proxy's own
--   socket can be bound. A client is the bytes that it sends before it stops, so a read is short
--   where the source sees the end of the stream.
-- * Topology (crates/fabric-topology/src/lib.rs): the snapshot of a host's processors, its
--   canonical JSON (`snapshot_value`, with `Map::insert` as sorted insertion) and its fingerprint.
--   The pretty print of serde_json and SHA-256 in hex are parameters. `Topology.Linux` is linux.rs
--   from the facts read to the snapshot, with its maps as sorted lists, and unsupported.rs;
--   reading the files and the Windows probe are not modelled.
-- * Lanes (crates/fabric-compute-lanes/src): what a host advertises of its devices. `Lanes` has
--   the types, `Lanes.Canonical` their JSON and fingerprints, `Lanes.Health` the health overlay,
--   `Lanes.Redact` the redaction of names (redact.rs), `Lanes.Cpu` the summary of the processors,
--   `Lanes.Project` the function `project` with its warnings threaded in order. The crate
--   forgewire_capability is not part of the repository: backends and memory models are type
--   parameters, its functions a record, and of its records only the fields that are read are
--   modelled. The environment variables are a function.
-- * Secrets (crates/fabric-secrets/src/lib.rs): sealed secrets. `seal` and `open_envelope`
--   (`SecretBroker::seal` and `open`), and the redaction of secret values from text
--   (`redact_text`) and from JSON (`redact_value`). Base64, AES-256-GCM and the provider of the
--   key are the record `Crypto`; the random nonce is an argument. `str::replace` recurs on fuel,
--   one more than the length of the text, and every round takes a character or an occurrence off.
-- * Hub (crates/fabric-hub/src): the decisions that the routes of the hub share. `Hub.Roles` has
--   the context of a request, `Hub.Routes` the routing table of auth.rs with `required_roles`,
--   `requires_step_up` and `is_authorized`, `Hub.Authorities` the roles of tokens
--   (`normalize_roles`) and the authorities of `GET /whoami`, `Hub.Calendar` the time stamps of
--   utils.rs with their parser and the step-up window of auth.rs, `Hub.Cluster` the decisions of
--   cluster_manager.rs. The `Debug` print of a text is a parameter. The loop over years has as
--   fuel one more than the days, of which every round takes a year off; stamps are printed of
--   times from 1970 on. Arithmetic on the fields of a parsed stamp wraps as `i64` does in a
--   release build.
-- * Runner (crates/fabric-runner/src/directory.rs): `Runner.Directory` the directory of peers
--   (`merge`, `expire`, and the part of `directory_tick` between its queries and files),
--   `Runner.Hosts` the managed block of the hosts file (`render_block`, `splice_block`, and the
--   decision of `reconcile_hosts_file`). Addresses are the texts that `IpAddr` prints.
-- * History (crates/fabric-history/src/lib.rs): the exporter (`tick`) over the traits
--   `ExportSource` and `HistoryTarget`, which are the record `Backends` of calls that pass on the
--   state of an arbitrary world.
-- * Hub capabilities (crates/fabric-hub/src/capabilities.rs): `Hub.Capabilities` parses the
--   predicates that a task puts on a runner, `Hub.Capabilities.Resolve` has `resolve` and the
--   comparison of versions, `Hub.Capabilities.Matching` has `evaluate` and `match_required`. A
--   panic is the absence of a result. The numbers of JSON, the lower case of Unicode and the print
--   of values by serde_json are parameters.
-- * Protocol (crates/fabric-protocol/src/lib.rs): the canonical bytes of an envelope and the
--   signatures over them. The print of numbers, the hex codec and Ed25519 are the record `Crates`.
--   `Protocol.Reading` has a reader of JSON string literals, which is not of the source and serves
--   to state that nothing is lost.
-- * Settings (crates/fabric-settings/src/lib.rs): `Settings` has the overlay of documents
--   (`merge`), the paths into them and `derive_read_only`, `Settings.Validation` the checks by the
--   schema, `Settings.Snapshot` the snapshots (`new_snapshot` is `SettingsSnapshot::new`,
--   `get_setting` is `get`), `Settings.Redaction` what `serialize` writes. The two documents that
--   are compiled in are the record `Documents`, with the error of a failed parse; the numbers of
--   serde_json are the record `Numbers`. An assignment that panics is none. `Settings.Changes` has
--   `import_hub` with its list of changes, which is sorted where the source walks the sorted keys.
-- * Hub mutations (crates/fabric-hub/src/routes/settings.rs): `Hub.Mutation` has the route that
--   sets or resets a setting. The store of the settings, the audit log and the clock are the
--   record `Calls` over a world; the answer of the route is the snapshot that it serializes.
-- * Hub tasks (crates/fabric-hub/src/routes/tasks.rs, with utils.rs and forgelink.rs beside it):
--   `Hub.Signed` has the window of time stamps (crates/fabric-types/src/lib.rs) and the check of a
--   signature, `Hub.Dispatch` the route for a signed dispatch: its envelope, its checks
--   (`Checks`), what the store is given (`Params`), the request for an approval (`Forgelink`), and
--   the route itself, which goes through the budget and the gate of `Policy`.
--   `Hub.Dispatch.Intent` has the route where a runner asks before an action. `Hub.Claims` has the
--   two routes for signed claims, which go through `ClaimRouter`, and `Hub.Claims.Waiting` the
--   unsigned claim and the list of tasks that wait for a capability (`Hub.Capabilities`). The
--   calls of the store (`Hub.Store`), the audit log, the clock and ForgeLink are records over a
--   world; only calls that write change it. An answer is its JSON before it is printed.
--
-- Conventions. A text is the list of its characters (`Prelude.Text`), with the methods of Rust's
-- `str` written out; `len()` counts UTF-8 bytes. Task ids are compared only, and are natural
-- numbers; other integers of type `i64` are signed, and wrap where the source adds to them;
-- sequence numbers are taken modulo 2^64. Hash maps are association lists, whose order never
-- shows. Loops over collections are recursions on the list. `trim_end_matches` recurs on fuel, the
-- length of the text, which suffices since every round but the last takes a character off; the
-- decimal print takes more rounds than a number has digits.
--
-- Not modelled: the HTTP routes but for those of a setting, of dispatch, of claims and of intents,
-- the rqlite store, child processes, the network, the file system and the desktop and editor
-- clients; the manifest lists every part.
pub mod Audit
pub mod ClaimRouter
pub mod Egress
pub mod History
pub mod Hub
pub mod Lanes
pub mod Policy
pub mod Prelude
pub mod Protocol
pub mod Runner
pub mod Secrets
pub mod Settings
pub mod Streams
pub mod Topology
