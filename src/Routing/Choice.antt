-- ===== src/Routing/Choice.antt =====
-- backend/voidswitch/services/routing.py, rank_nodes and group_routes: the routes of a group of nodes,
-- the best first. The score of a node is a float of the code and stays abstract.
use void_switch.Base.{
  ℕ, Option, none, some, List, [], ◌∷◌, Bool, true, false, not, ◌&&◌, ◌||◌, leb, keep, map, ◌≡◌,
  refl, inl, inr, ◌⊎◌, All, arith, Perm, if◌then◌else◌,
}
use void_switch.Base.Sort.{
  sort_by, then_by, sort_by-perm, sort_by-IsSorted, IsPreorder, IsSorted, by-IsPreorder,
  before-IsPreorder, least_first, most_first,
}
use void_switch.Routing.{Latencies, Node, NodeStatus, Route, direct_route, node_route}
use void_switch.Routing.Groups.{has}

module _ (lib : Latencies) (Score : Type 0) (score_le : Score → Score → Bool)
    (score : Node lib → Score) where
  abbrev pub is_live_status : NodeStatus → Bool
  is_live_status NodeStatus.active = true
  is_live_status status = false

  abbrev pub unpinned : List ℕ → Node lib → ℕ
  unpinned pinned n = if has n.id pinned then 0 else 1

  -- The sort key of rank_nodes: pinned first, score, weight (`weight or 1`, heavier first), id.
  abbrev pub node_le : List ℕ → Node lib → Node lib → Bool
  node_le pinned a b =
      then_by (leb (unpinned pinned a) (unpinned pinned b))
        (leb (unpinned pinned b) (unpinned pinned a))
        (then_by (score_le (score a) (score b)) (score_le (score b) (score a))
          (then_by (leb b.weight a.weight) (leb a.weight b.weight) (leb a.id b.id)))

  unfoldable pub rank_nodes : List ℕ → List (Node lib) → List (Node lib)
  rank_nodes pinned nodes = sort_by (node_le pinned) nodes

  abbrev pub live : Bool → List (Node lib) → List (Node lib)
  live include_disabled nodes =
      if include_disabled
      then nodes
      else keep (λ (n : Node lib). n.enabled && is_live_status n.status) nodes

  abbrev pub routes_for_nodes : List (Node lib) → List (Route × Option ℕ)
  routes_for_nodes nodes = map (λ (n : Node lib). (node_route lib n, some n.id)) nodes

  abbrev or_direct_route : List ℕ → List (Node lib) → List (Route × Option ℕ)
  or_direct_route pinned [] = (direct_route, none) ∷ []
  or_direct_route pinned (n ∷ nodes) = routes_for_nodes (rank_nodes pinned (n ∷ nodes))

  -- `nodes` and `pinned` are those of the group's expansion.
  unfoldable pub group_routes : Bool → List ℕ → List (Node lib) → List (Route × Option ℕ)
  unfolding rank_nodes
  group_routes include_disabled pinned nodes = or_direct_route pinned (live include_disabled nodes)

  node_le-IsPreorder : (pinned : List ℕ) → IsPreorder score_le → IsPreorder (node_le pinned)
  node_le-IsPreorder pinned h = before-IsPreorder _ _ (least_first (unpinned pinned)) (
      before-IsPreorder _ _ (by-IsPreorder score_le score h)
        (before-IsPreorder _ _ (most_first (λ n. n.weight)) (least_first (λ n. n.id))))

  -- Behind a node that is not pinned there is no pinned one.
  abbrev pub PinnedFirst : List ℕ → List (Node lib) → Type 0
  PinnedFirst pinned [] = Unit
  PinnedFirst pinned (n ∷ nodes) =
      All (λ (m : Node lib). (has n.id pinned || not (has m.id pinned)) ≡ true) nodes
      × PinnedFirst pinned nodes

  after_unpinned :
      (pinned : List ℕ) (n : Node lib) (nodes : List (Node lib))
      → All (λ m. node_le pinned n m ≡ true) nodes
      → All (λ (m : Node lib). (has n.id pinned || not (has m.id pinned)) ≡ true) nodes
  after_unpinned pinned n [] h = tt
  after_unpinned pinned n (m ∷ nodes) h = (one h.0, after_unpinned pinned n nodes h.1)
    where
      one : node_le pinned n m ≡ true → (has n.id pinned || not (has m.id pinned)) ≡ true
      one e = ground arith

  sorted-PinnedFirst :
      (pinned : List ℕ) (nodes : List (Node lib))
      → IsSorted (node_le pinned) nodes
      → PinnedFirst pinned nodes
  sorted-PinnedFirst pinned [] h = tt
  sorted-PinnedFirst pinned (n ∷ nodes) h =
      (after_unpinned pinned n nodes h.0, sorted-PinnedFirst pinned nodes h.1)

  -- The routes of a group are those of its live nodes (of all its nodes, if disabled ones count),
  -- each as often as the node, with the pinned nodes first and each part ordered by score, weight
  -- and id; a group without such nodes has the direct route, if the scores are compared by a total
  -- preorder.
  pub group_routes-PinnedFirst :
      (include_disabled : Bool) (pinned : List ℕ) (nodes : List (Node lib))
      → IsPreorder score_le
      → let usable = live include_disabled nodes in
        ((usable ≡ []) × (group_routes include_disabled pinned nodes ≡ (direct_route, none) ∷ []))
        ⊎ ((ranked : List (Node lib)) × (group_routes include_disabled pinned nodes
              ≡ routes_for_nodes ranked)
            × Perm ranked usable
            × IsSorted (node_le pinned) ranked
            × PinnedFirst pinned ranked)
  unfolding group_routes rank_nodes
  group_routes-PinnedFirst include_disabled pinned nodes h = by_nodes (live include_disabled nodes)
    where
      by_nodes :
          (usable : List (Node lib))
          → ((usable ≡ []) × (or_direct_route pinned usable ≡ (direct_route, none) ∷ []))
            ⊎ ((ranked : List (Node lib)) × (or_direct_route pinned usable
                  ≡ routes_for_nodes ranked)
                × Perm ranked usable
                × IsSorted (node_le pinned) ranked
                × PinnedFirst pinned ranked)
      by_nodes [] = inl (refl, refl)
      by_nodes (n ∷ more) =
          let sorted = sort_by-IsSorted (node_le pinned) (node_le-IsPreorder pinned h) (n ∷ more) in
          inr (
            sort_by (node_le pinned) (n ∷ more),
            refl,
            sort_by-perm (node_le pinned) (n ∷ more),
            sorted,
            sorted-PinnedFirst pinned _ sorted,
          )
