-- ===== src/Routing/Tests.antt =====
-- Groups that inherit from each other in a circle.
use void_switch.Base.{List, [], ◌∷◌, true, false, ◌≡◌, refl, ◌↔◌, arith}
use void_switch.Base.Sort.{sort_by, IsSorted, leb-IsPreorder}
use void_switch.Base.{ℕ, Bool, leb, map, none, Perm, ◌⊎◌}
use void_switch.Routing.{Latencies, Node, NodeStatus, NodeType, direct_route}
use void_switch.Routing.Choice.{
  rank_nodes, live, group_routes, routes_for_nodes, node_le, PinnedFirst, group_routes-PinnedFirst,
}
use void_switch.Routing.Groups.{node, inherited, Group, collect_group, collect_group_members}
use void_switch.Routing.Found.{is_found}
use void_switch.Routing.Reach.{Reach}
use void_switch.Routing.Expansion.{collect_group-members, collect_group_members-Reach}

abbrev europe : Group
europe = record { id = 1; members = node 10 false ∷ inherited 2 ∷ inherited 9 ∷ [] }

abbrev groups : List Group
groups =
    europe
    ∷ record { id = 2; members = inherited 1 ∷ inherited 3 ∷ node 20 false ∷ [] }
    ∷ record { id = 3; members = node 30 true ∷ node 10 false ∷ [] }
    ∷ []

collect_runs : collect_group_members groups europe ≡ (10 ∷ 30 ∷ 20 ∷ [], 30 ∷ [])
unfolding collect_group_members
collect_runs = refl

collect_group-members_example :
    collect_group 9 groups [] europe ≡ collect_group_members groups europe
collect_group-members_example = collect_group-members groups 9 europe refl (omega arith)

collect_group_members-Reach_example :
    (is_found true 30 (collect_group_members groups europe) ≡ true) ↔ Reach true 30 groups europe
collect_group_members-Reach_example = collect_group_members-Reach groups true 30 europe refl

abbrev latencies : Latencies
latencies = record { Latency = ℕ; rounded = λ x. x; folded = λ a b. a }

abbrev hop : ℕ → NodeStatus → ℕ → Node latencies
hop n status failures = record {
  id = n;
  kind = NodeType.http;
  url = "http://proxy";
  local_address = none;
  enabled = true;
  status = status;
  failed_count = failures;
  weight = 1;
  disabled_reason = none;
  latency_ms = none;
  latency_ewma = none;
  last_used_at = none;
  last_checked_at = none;
}

abbrev hops : List (Node latencies)
hops =
    hop 1 NodeStatus.active 0
    ∷ hop 2 NodeStatus.disabled 0
    ∷ hop 3 NodeStatus.active 2
    ∷ hop 4 NodeStatus.active 1
    ∷ []

abbrev failures : Node latencies → ℕ
failures n = n.failed_count

abbrev at_most : ℕ → ℕ → Bool
at_most a b = leb a b

-- The pinned node leads, however often it failed; the disabled one is left out.
rank_nodes_runs :
    map
      (λ (n : Node latencies). n.id)
      (rank_nodes latencies ℕ at_most failures
        (3 ∷ [])
        (live latencies ℕ at_most failures false hops))
    ≡ 3 ∷ 1 ∷ 4 ∷ []
unfolding rank_nodes sort_by
rank_nodes_runs = refl

group_routes-PinnedFirst_example :
    let usable = live latencies ℕ at_most failures false hops in
    let routes = group_routes latencies ℕ at_most failures false (3 ∷ []) hops in
    ((usable ≡ []) × (routes ≡ (direct_route, none) ∷ []))
    ⊎ ((ranked : List (Node latencies)) × (routes
          ≡ routes_for_nodes latencies ℕ at_most failures ranked)
        × Perm ranked usable
        × IsSorted (node_le latencies ℕ at_most failures (3 ∷ [])) ranked
        × PinnedFirst latencies ℕ at_most failures (3 ∷ []) ranked)
group_routes-PinnedFirst_example =
    group_routes-PinnedFirst latencies ℕ at_most failures false (3 ∷ []) hops leb-IsPreorder
