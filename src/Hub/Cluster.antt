-- ===== src/Hub/Cluster.antt =====
-- crates/fabric-hub/src/cluster_manager.rs: the decisions of the hub on which rqlite nodes vote and
-- which one leads. Carrying them out is a matter of HTTP calls.
pub mod Decisions
pub mod Settling
use forgewire_fabric.Prelude.{
  ℕ, zero, suc, ◌+◌, ◌/◌, Bool, true, false, not, ◌&&◌, Option, none, some, List, [], ◌∷◌, ◌++◌,
  map, Text, text, text_eq, length, filter, ltb, ◌==◌, if◌then◌else◌,
}
use forgewire_fabric.Hub.Calendar.{month_days, year_loop, month_loop, date_text, time_text}

pub record RqliteNode : Type 0 where
  pub id : Text
  pub api_addr : Text
  pub addr : Text
  pub voter : Bool
  pub reachable : Bool
  pub leader : Bool

pub data TopologyAction : Type 0 where
  nothing : TopologyAction
  promote : List Text → TopologyAction
  demote : Text → TopologyAction
  emergency_promote : Text → TopologyAction

-- `iter().find`
abbrev pub find : (RqliteNode → Bool) → List RqliteNode → Option RqliteNode
find p [] = none
find p (n ∷ nodes) = if p n then some n else find p nodes

abbrev pub is_voter : RqliteNode → Bool
is_voter n = n.voter

abbrev pub is_standby : RqliteNode → Bool
is_standby n = not n.voter

abbrev pub may_demote : RqliteNode → Bool
may_demote n = n.voter && (not n.leader && n.reachable)

abbrev pub is_reachable : RqliteNode → Bool
is_reachable n = n.reachable

abbrev pub demoting : Option RqliteNode → TopologyAction
demoting none = nothing
demoting (some target) = demote target.id

abbrev pub promoting : Option RqliteNode → TopologyAction
promoting none = nothing
promoting (some n) = emergency_promote n.id

-- Two nodes, by the number of voters.
abbrev pub decide_pair : ℕ → List RqliteNode → TopologyAction
decide_pair voters nodes =
    if voters == 1
    then nothing
    else if voters == 2
    then demoting (find may_demote nodes)
    else if voters == 0
    then promoting (find is_reachable (filter is_standby nodes))
    else nothing

abbrev pub promote_all : List Text → TopologyAction
promote_all [] = nothing
promote_all (id ∷ ids) = promote (id ∷ ids)

-- Three nodes or more.
abbrev pub decide_many : List RqliteNode → TopologyAction
decide_many nodes = promote_all (map (λ n. n.id) (filter is_reachable (filter is_standby nodes)))

unfoldable pub decide_topology : List RqliteNode → TopologyAction
decide_topology [] = nothing
decide_topology (n ∷ []) = nothing
decide_topology (n ∷ m ∷ []) = decide_pair (length (filter is_voter (n ∷ m ∷ []))) (n ∷ m ∷ [])
decide_topology (n ∷ m ∷ l ∷ nodes) = decide_many (n ∷ m ∷ l ∷ nodes)

-- The node that leadership is to be transferred to, if any, and the leader to ask for it.
abbrev pub transfer_between : Option RqliteNode → Option RqliteNode → Text → Option (Text × Text)
transfer_between none preferred preferred_id = none
transfer_between (some leader) none preferred_id = none
transfer_between (some leader) (some preferred) preferred_id =
    if not (text_eq leader.id preferred_id) && (preferred.reachable && preferred.voter)
    then some (leader.api_addr, preferred_id)
    else none

abbrev pub transfer_preferred : Option Text → List RqliteNode → Option (Text × Text)
transfer_preferred none nodes = none
transfer_preferred (some preferred_id) nodes =
    transfer_between (find (λ n. n.leader) nodes) (find (λ n. text_eq n.id preferred_id) nodes)
      preferred_id

unfoldable pub maybe_transfer_leadership : Option Text → List RqliteNode → Option (Text × Text)
maybe_transfer_leadership preferred nodes =
    if ltb (length nodes) 3 then none else transfer_preferred preferred nodes

-- The time of an action, from the seconds since 1970.
unfoldable pub chrono_iso : ℕ → Text
unfolding year_loop month_loop
chrono_iso secs =
    let year = year_loop (secs / 86400 + 1) 1970 (secs / 86400) in
    date_text year.0 (month_loop (month_days year.0) 0 year.1)
    ++ b'T' ∷ (time_text secs ++ b'Z' ∷ [])
