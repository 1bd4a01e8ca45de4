-- ===== src/Hub/Cluster/Decisions.antt =====
-- crates/fabric-hub/src/cluster_manager.rs: what a decision on the topology can be.
use mathlib.Core.Path.{subst}
use forgewire_fabric.Prelude.{
  filter-true, filter-false, some-injective, ℕ, ◌≤◌, ◌≡◌, refl, sym, ap, ◌∙◌, inl, inr, Bool, true,
  false, not, ◌&&◌, Option, none, some, List, [], ◌∷◌, map, arith, Text, length, filter, ◌==◌, All,
  Exists, Bool-cases, ==_iff, if◌then◌else◌,
}
use forgewire_fabric.Hub.Cluster.{
  RqliteNode, TopologyAction, nothing, promote, demote, emergency_promote, find, is_voter,
  is_standby, may_demote, is_reachable, decide_pair, demoting, promoting, promote_all, decide_many,
  decide_topology,
}

-- A node of the cluster with an id, of which a test holds.
abbrev pub Names : (RqliteNode → Bool) → List RqliteNode → Text → Type 0
Names p nodes id = Exists (λ n. (n.id ≡ id) × (p n ≡ true)) nodes

abbrev pub may_promote : RqliteNode → Bool
may_promote n = not n.voter && n.reachable

-- A voter that follows and answers.
abbrev pub follows : RqliteNode → Bool
follows n = n.voter && (not n.leader && n.reachable)

-- What has to be so when an action is decided on.
abbrev pub IsJustified : TopologyAction → List RqliteNode → Type 0
IsJustified nothing nodes = Unit
IsJustified (promote ids) nodes = (3 ≤ length nodes) × All (Names may_promote nodes) ids
IsJustified (demote id) nodes =
    (length nodes ≡ 2) × (length (filter is_voter nodes) ≡ 2) × Names follows nodes id
IsJustified (emergency_promote id) nodes =
    (length nodes ≡ 2) × (length (filter is_voter nodes) ≡ 0) × Names may_promote nodes id

find-Names :
    (p : RqliteNode → Bool) (nodes : List RqliteNode) (n : RqliteNode)
    → find p nodes ≡ some n
    → Names p nodes n.id
find-Names p [] n h = cc
find-Names p (m ∷ nodes) n h = elim (Bool-cases (p m)) [
  | inl e ↦ inl (
    ap (λ k. k.id) (some-injective (sym (ap (λ b. if b then some m else find p nodes) e) ∙ h)),
    e,
  )
  | inr e ↦ inr (find-Names p nodes n (sym (ap (λ b. if b then some m else find p nodes) e) ∙ h))
]

-- Reachable nodes among the standbys.
filter-filter :
    (nodes : List RqliteNode)
    → filter is_reachable (filter is_standby nodes) ≡ filter may_promote nodes
filter-filter [] = refl
filter-filter (n ∷ nodes) = elim (Bool-cases (is_standby n)) [
  | inl e ↦
      ap (filter is_reachable) (filter-true is_standby n nodes e)
      ∙ elim (Bool-cases (is_reachable n)) [
        | inl f ↦
            filter-true is_reachable n (filter is_standby nodes) f
            ∙ (ap (λ ns. n ∷ ns) (filter-filter nodes)
                ∙ sym (filter-true may_promote n nodes (both n e f)))
        | inr f ↦
            filter-false is_reachable n (filter is_standby nodes) f
            ∙ (filter-filter nodes ∙ sym (filter-false may_promote n nodes (right n f)))
      ]
  | inr e ↦
      ap (filter is_reachable) (filter-false is_standby n nodes e)
      ∙ (filter-filter nodes ∙ sym (filter-false may_promote n nodes (left n e)))
]
  where
    both : (n : RqliteNode) → is_standby n ≡ true → is_reachable n ≡ true → may_promote n ≡ true
    both n e f = ground arith

    right : (n : RqliteNode) → is_reachable n ≡ false → may_promote n ≡ false
    right n f = ground arith

    left : (n : RqliteNode) → is_standby n ≡ false → may_promote n ≡ false
    left n e = ground arith

find-filter :
    (p q : RqliteNode → Bool) (nodes : List RqliteNode)
    → find q (filter p nodes) ≡ find (λ n. p n && q n) nodes
find-filter p q [] = refl
find-filter p q (n ∷ nodes) = elim (Bool-cases (p n)) [
  | inl e ↦
      ap (find q) (filter-true p n nodes e)
      ∙ (ap (λ o. if q n then some n else o) (find-filter p q nodes)
          ∙ ap (λ b. if b && q n then some n else find (λ m. p m && q m) nodes) (sym e))
  | inr e ↦
      ap (find q) (filter-false p n nodes e)
      ∙ (find-filter p q nodes
          ∙ ap (λ b. if b && q n then some n else find (λ m. p m && q m) nodes) (sym e))
]

All-later :
    (p : RqliteNode → Bool) (n : RqliteNode) (nodes : List RqliteNode) (ids : List Text)
    → All (Names p nodes) ids
    → All (Names p (n ∷ nodes)) ids
All-later p n nodes [] h = tt
All-later p n nodes (id ∷ ids) h = (inr h.0, All-later p n nodes ids h.1)

filter-Names :
    (p : RqliteNode → Bool) (nodes : List RqliteNode)
    → All (Names p nodes) (map (λ n. n.id) (filter p nodes))
filter-Names p [] = tt
filter-Names p (n ∷ nodes) = elim (Bool-cases (p n)) [
  | inl e ↦
      subst (λ ns. All (Names p (n ∷ nodes)) (map (λ n. n.id) ns)) (sym (filter-true p n nodes e))
        (
          inl (refl, e),
          All-later p n nodes (map (λ n. n.id) (filter p nodes)) (filter-Names p nodes),
        )
  | inr e ↦
      subst (λ ns. All (Names p (n ∷ nodes)) (map (λ n. n.id) ns)) (sym (filter-false p n nodes e))
        (All-later p n nodes (map (λ n. n.id) (filter p nodes)) (filter-Names p nodes))
]

pub decide_many_lem :
    (nodes : List RqliteNode)
    → decide_many nodes ≡ promote_all (map (λ n. n.id) (filter may_promote nodes))
decide_many_lem nodes = ap (λ ns. promote_all (map (λ n. n.id) ns)) (filter-filter nodes)

promote_all-IsJustified :
    (ids : List Text) (nodes : List RqliteNode)
    → 3 ≤ length nodes
    → All (Names may_promote nodes) ids
    → IsJustified (promote_all ids) nodes
promote_all-IsJustified [] nodes h a = tt
promote_all-IsJustified (id ∷ ids) nodes h a = (h, a)

module _ (nodes : List RqliteNode) (two : length nodes ≡ 2) where
  abbrev voters : ℕ
  voters = length (filter is_voter nodes)

  demoting-IsJustified :
      (target : Option RqliteNode)
      → find may_demote nodes ≡ target
      → voters ≡ 2
      → IsJustified (demoting target) nodes
  demoting-IsJustified none e v = tt
  demoting-IsJustified (some n) e v = (two, v, find-Names may_demote nodes n e)

  promoting-IsJustified :
      (target : Option RqliteNode)
      → find is_reachable (filter is_standby nodes) ≡ target
      → voters ≡ 0
      → IsJustified (promoting target) nodes
  promoting-IsJustified none e v = tt
  promoting-IsJustified (some n) e v =
      (two, v, find-Names may_promote nodes n (sym (find-filter is_standby is_reachable nodes) ∙ e))

  pair-IsJustified : IsJustified (decide_pair voters nodes) nodes
  pair-IsJustified = elim (Bool-cases (voters == 1)) [
    | inl e ↦ rw e tt
    | inr e ↦ elim (Bool-cases (voters == 2)) [
      | inl f ↦
          rw (e, f) (demoting-IsJustified (find may_demote nodes) refl ((==_iff voters 2).0 f))
      | inr f ↦ elim (Bool-cases (voters == 0)) [
        | inl g ↦
            rw (e, f, g)
              (promoting-IsJustified (find is_reachable (filter is_standby nodes)) refl
                ((==_iff voters 0).0 g))
        | inr g ↦ rw (e, f, g) tt
      ]
    ]
  ]

-- Whatever the nodes report, an action is decided on only where it is safe: nodes are promoted in
-- clusters of three or more nodes, and each is a reachable standby; a node is demoted in a cluster
-- of two voters only, and is a reachable voter that does not lead; and a standby is promoted in an
-- emergency only if neither of two nodes votes, and is reachable.
pub decide_topology-IsJustified :
    (nodes : List RqliteNode) → IsJustified (decide_topology nodes) nodes
unfolding decide_topology
decide_topology-IsJustified [] = tt
decide_topology-IsJustified (n ∷ []) = tt
decide_topology-IsJustified (n ∷ m ∷ []) = pair-IsJustified (n ∷ m ∷ []) refl
decide_topology-IsJustified (n ∷ m ∷ l ∷ nodes) =
    let all = n ∷ m ∷ l ∷ nodes in
    subst (λ a. IsJustified a all) (sym (decide_many_lem all))
      (promote_all-IsJustified (map (λ n. n.id) (filter may_promote all)) all (omega arith)
        (filter-Names may_promote all))
