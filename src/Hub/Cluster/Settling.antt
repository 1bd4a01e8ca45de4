-- ===== src/Hub/Cluster/Settling.antt =====
-- crates/fabric-hub/src/cluster_manager.rs: a decision that is carried out leaves nothing to decide.
use mathlib.Core.Path.{subst}
use forgewire_fabric.Prelude.{
  filter-true, filter-false, ◌≡◌, refl, sym, ap, ◌∙◌, Bool, true, false, not, ◌&&◌, ◌||◌, inl, inr,
  List, [], ◌∷◌, map, arith, Text, text_eq, text_eq_self, text_eq_sound, filter, any, All,
  Bool-cases,
}
use forgewire_fabric.Hub.Cluster.{
  RqliteNode, TopologyAction, nothing, promote, demote, emergency_promote, promote_all, decide_many,
  decide_topology,
}
use forgewire_fabric.Hub.Cluster.Decisions.{may_promote, decide_many_lem}

-- The nodes that rqlite reports once it has done as it was told, with all else unchanged.
abbrev pub enacted : TopologyAction → RqliteNode → RqliteNode
enacted nothing n = n
enacted (promote ids) n = record n { voter = n.voter || any (text_eq n.id) ids }
enacted (demote id) n = record n { voter = n.voter && not (text_eq n.id id) }
enacted (emergency_promote id) n = record n { voter = n.voter || text_eq n.id id }

abbrev pub HasDistinctIds : List RqliteNode → Type 0
HasDistinctIds [] = Unit
HasDistinctIds (n ∷ nodes) = All (λ m. text_eq n.id m.id ≡ false) nodes × HasDistinctIds nodes

pair_settles :
    (n m : RqliteNode)
    → text_eq n.id m.id ≡ false
    → text_eq m.id n.id ≡ false
    → decide_topology (map (enacted (decide_topology (n ∷ m ∷ []))) (n ∷ m ∷ [])) ≡ nothing
unfolding decide_topology
pair_settles n m d e = by_fields n.voter m.voter n.leader m.leader n.reachable m.reachable
  where
    node : RqliteNode → Bool → Bool → Bool → RqliteNode
    node n v l r = record {
      id = n.id;
      api_addr = n.api_addr;
      addr = n.addr;
      voter = v;
      reachable = r;
      leader = l;
    }

    by_fields :
        (vn vm ln lm rn rm : Bool)
        → decide_topology (
            map
              (enacted (decide_topology (node n vn ln rn ∷ node m vm lm rm ∷ [])))
              (node n vn ln rn ∷ node m vm lm rm ∷ []))
          ≡ nothing
    by_fields true true true true rn rm = refl
    by_fields true true false lm true rm = rw (text_eq_self n.id, e) refl
    by_fields true true false true false rm = refl
    by_fields true true false false false true = rw (text_eq_self m.id, d) refl
    by_fields true true false false false false = refl
    by_fields true true true false rn true = rw (text_eq_self m.id, d) refl
    by_fields true true true false rn false = refl
    by_fields true false ln lm rn rm = refl
    by_fields false true ln lm rn rm = refl
    by_fields false false ln lm true rm = rw (text_eq_self n.id, e) refl
    by_fields false false ln lm false true = rw (text_eq_self m.id, d) refl
    by_fields false false ln lm false false = refl

other_way : (s t : Text) → text_eq s t ≡ false → text_eq t s ≡ false
other_way s t h = elim (Bool-cases (text_eq t s)) [
  | inl e ↦
      let same : text_eq s t ≡ true = ap (text_eq s) (text_eq_sound t s e) ∙ text_eq_self s in
      ground arith
  | inr e ↦ e
]

-- Those that may be promoted are named among the ids.
abbrev Covers : List Text → List RqliteNode → Type 0
Covers ids = All (λ n. may_promote n ≡ true → any (text_eq n.id) ids ≡ true)

none_to_promote :
    (ids : List Text) (nodes : List RqliteNode)
    → Covers ids nodes
    → filter may_promote (map (enacted (promote ids)) nodes) ≡ []
none_to_promote ids [] c = refl
none_to_promote ids (n ∷ nodes) c = rw (filter, promoted n (c.0)) (none_to_promote ids nodes c.1)
  where
    promoted :
        (n : RqliteNode)
        → (may_promote n ≡ true → any (text_eq n.id) ids ≡ true)
        → may_promote (enacted (promote ids) n) ≡ false
    promoted n h = elim (Bool-cases (any (text_eq n.id) ids)) [
      | inl e ↦ ground arith
      | inr e ↦ elim (Bool-cases (may_promote n)) [
        | inl f ↦ let named = h f in ground arith
        | inr f ↦ ground arith
      ]
    ]

Covers-later :
    (id : Text) (ids : List Text) (nodes : List RqliteNode)
    → Covers ids nodes
    → Covers (id ∷ ids) nodes
Covers-later id ids [] c = tt
Covers-later id ids (n ∷ nodes) c =
    ((λ h. let k = c.0 h in ground arith), Covers-later id ids nodes c.1)

abbrev ids_of : List RqliteNode → List Text
ids_of = map (λ n. n.id)

Covers-all : (nodes : List RqliteNode) → Covers (ids_of (filter may_promote nodes)) nodes
Covers-all [] = tt
Covers-all (n ∷ nodes) = elim (Bool-cases (may_promote n)) [
  | inl e ↦
      subst (λ ns. Covers (ids_of ns) (n ∷ nodes)) (sym (filter-true may_promote n nodes e))
        (
          λ h. rw (text_eq_self n.id) refl,
          Covers-later n.id (ids_of (filter may_promote nodes)) nodes (Covers-all nodes),
        )
  | inr e ↦
      subst (λ ns. Covers (ids_of ns) (n ∷ nodes)) (sym (filter-false may_promote n nodes e))
        ((λ h. ground arith), Covers-all nodes)
]

map-nothing : (nodes : List RqliteNode) → map (enacted nothing) nodes ≡ nodes
map-nothing [] = refl
map-nothing (n ∷ nodes) = ap (λ ns. n ∷ ns) (map-nothing nodes)

many_settle :
    (nodes : List RqliteNode) → decide_many (map (enacted (decide_many nodes)) nodes) ≡ nothing
many_settle nodes =
    subst (λ a. decide_many (map (enacted a) nodes) ≡ nothing) (sym (decide_many_lem nodes))
      (by_ids (ids_of (filter may_promote nodes)) refl (Covers-all nodes))
  where
    by_ids :
        (ids : List Text)
        → ids_of (filter may_promote nodes) ≡ ids
        → Covers ids nodes
        → decide_many (map (enacted (promote_all ids)) nodes) ≡ nothing
    by_ids [] e c = ap decide_many (map-nothing nodes) ∙ (decide_many_lem nodes ∙ ap promote_all e)
    by_ids (id ∷ ids) e c =
        decide_many_lem (map (enacted (promote (id ∷ ids))) nodes)
        ∙ ap (λ ns. promote_all (ids_of ns)) (none_to_promote (id ∷ ids) nodes c)

-- If rqlite carries out what was decided and nothing else changes, the next decision is to do
-- nothing, in a cluster of nodes with different ids.
pub decide_topology_settles :
    (nodes : List RqliteNode)
    → HasDistinctIds nodes
    → decide_topology (map (enacted (decide_topology nodes)) nodes) ≡ nothing
unfolding decide_topology
decide_topology_settles [] d = refl
decide_topology_settles (n ∷ []) d = refl
decide_topology_settles (n ∷ m ∷ []) d = pair_settles n m d.0.0 (other_way n.id m.id d.0.0)
decide_topology_settles (n ∷ m ∷ l ∷ nodes) d = many_settle (n ∷ m ∷ l ∷ nodes)
