-- ===== src/Runner/Directory.antt =====
-- crates/fabric-runner/src/directory.rs: the directory of peers by host name. An address is the text
-- that `IpAddr` prints; the clock is read for each record, so its readings come with the records.
use forgewire_fabric.Prelude.{
  ℕ, ◌-◌, Bool, true, false, not, ◌&&◌, Option, none, some, List, [], ◌∷◌, Text, text_eq, ltb,
  filter, if◌then◌else◌,
}
use forgewire_fabric.Prelude.TextMaps.{TextMap, get, insert, remove, keys}

pub record DirectoryEntry : Type 0 where
  pub hostname : Text
  pub ip : Text
  pub node_id : Text
  pub last_seen : ℕ
  pub verified : Bool
  pub record_ts : ℕ

-- The part of an `ObservedPresence` and of its record that the directory reads, with the clock.
pub record Observed : Type 0 where
  pub node_id : Text
  pub hostname : Text
  pub ts : ℕ
  pub source : Text
  pub sig_valid : Bool
  pub now : ℕ

abbrev pub NodeDirectory : Type 0
NodeDirectory = TextMap DirectoryEntry

abbrev pub entry_of : Observed → DirectoryEntry
entry_of o = record {
  hostname = o.hostname;
  ip = o.source;
  node_id = o.node_id;
  last_seen = o.now;
  verified = true;
  record_ts = o.ts;
}

-- What becomes of a record: nothing, or an entry, which is reported as changed or not.
pub data Verdict : Type 0 where
  skipped : Verdict
  stored : Bool → Verdict

abbrev pub judge : Option DirectoryEntry → Observed → Verdict
judge none o = stored true
judge (some existing) o =
    if not (text_eq existing.ip o.source) && ltb o.ts existing.record_ts
    then skipped
    else stored (not (text_eq existing.ip o.source))

abbrev pub relevant : Text → Observed → Bool
relevant self_node_id o = o.sig_valid && not (text_eq o.node_id self_node_id)

abbrev pub apply : Verdict → Observed → NodeDirectory → NodeDirectory
apply skipped o entries = entries
apply (stored changed) o entries = insert o.hostname (entry_of o) entries

abbrev pub report : Verdict → Observed → List Text → List Text
report skipped o changed = changed
report (stored true) o changed = o.hostname ∷ changed
report (stored false) o changed = changed

unfoldable pub merge : NodeDirectory → List Observed → Text → NodeDirectory × List Text
merge entries [] self_node_id = (entries, [])
merge entries (o ∷ observed) self_node_id =
    let verdict = judge (get o.hostname entries) o in
    let skip = merge entries observed self_node_id in
    let rest = merge (apply verdict o entries) observed self_node_id in
    if relevant self_node_id o then (rest.0, report verdict o rest.1) else skip

-- `now.saturating_sub(e.last_seen) > cutoff`
abbrev pub silent : ℕ → ℕ → DirectoryEntry → Bool
silent now cutoff e = ltb cutoff (now - e.last_seen)

abbrev pub remove_all : List Text → NodeDirectory → NodeDirectory
remove_all [] entries = entries
remove_all (h ∷ dead) entries = remove_all dead (remove h entries)

unfoldable pub expire : ℕ → ℕ → NodeDirectory → NodeDirectory × List Text
expire now cutoff entries =
    let dead = keys (filter (λ e. silent now cutoff e.1) entries) in (remove_all dead entries, dead)

-- What a cycle of `directory_tick` does to the directory, between its queries and its files: the
-- directory, the hosts that changed and those that expired.
unfoldable pub directory_tick :
    NodeDirectory → List Observed → Text → ℕ → ℕ → NodeDirectory × List Text × List Text
unfolding merge expire
directory_tick entries observed self_node_id now cutoff =
    let merged = merge entries observed self_node_id in
    let kept = expire now cutoff merged.0 in (kept.0, merged.1, kept.1)
