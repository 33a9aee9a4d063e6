-- ===== src/Network/Tests.antt =====
-- A request over three routes, of which the first two fail.
use void_switch.Base.{
  zero, suc, ℕ, ◌+◌, ◌*◌, ◌-◌, max, String, none, some, List, [], ◌∷◌, true, false, ◌≡◌, refl, ◌≤◌,
  arith, inl, inr, ◌⊎◌, length, All, any,
}
use void_switch.Routing.{
  Latencies, Route, Node, NodeStatus, NodeType, penalize_node, reward_node, update_node_latency,
}
use void_switch.Network.{
  Wire, Failure, timed_out, Candidate, Options, Run, transferred, select_routes, or_direct, is_seen,
  same_number, execute_request, try_route, on_headers, on_failure,
}
use void_switch.Network.Routes.{select_routes-Apart, Apart}
use void_switch.Network.Failover.{execute_request-Whole, handed, rounds}

abbrev latencies : Latencies
latencies = record { Latency = ℕ; rounded = λ x. x; folded = λ a b. a }

abbrev node : ℕ → Node latencies
node n = record {
  id = n;
  kind = NodeType.http;
  url = "http://proxy";
  local_address = none;
  enabled = true;
  status = NodeStatus.active;
  failed_count = 2;
  weight = 1;
  disabled_reason = none;
  latency_ms = none;
  latency_ewma = none;
  last_used_at = none;
  last_checked_at = none;
}

abbrev way : String → Route
way url = record { proxy_url = some url; local_address = none; agent_node_id = none }

-- The world is the moment and the number of sends left that time out.
abbrev answers : ℕ × ℕ → (Failure × (ℕ × ℕ)) ⊎ (ℕ × (ℕ × ℕ))
answers (t, zero) = inr (200, (t + 1, 0))
answers (t, suc n) = inl (timed_out, (t + 1, n))

abbrev wire : Wire latencies
wire = record {
  World = ℕ × ℕ;
  Response = ℕ;
  status_of = λ r. r;
  now = λ w. w.0;
  remaining = λ w. none;
  elapsed = λ a b. b.0 - a.0;
  send = λ route w. answers w;
  read = λ r w. (none, w);
}

abbrev options : Options latencies wire
options = record {
  limit = 3;
  max_proxy_failures = 3;
  auto_disable_nodes = true;
  retry_response = none;
}

abbrev routes : List Candidate
routes = (way "a", some 1) ∷ (way "b", some 2) ∷ (way "a", some 3) ∷ (way "c", some 4) ∷ []

abbrev start : Run latencies wire
start = record { world = (0, 2); nodes = node; trace = []; last_http = none; open_responses = 0 }

-- The third route repeats the first one, so the fourth is the third attempt, which is answered.
execute_request_runs :
    let (result, t) = execute_request latencies wire options routes start in
    (result ≡ transferred 200 (way "c", some 4))
    × (length t.trace ≡ 3)
    × ((t.nodes 1).status ≡ NodeStatus.disabled)
    × ((t.nodes 3).status ≡ NodeStatus.active)
    × ((t.nodes 4).failed_count ≡ 0)
unfolding execute_request try_route on_failure on_headers penalize_node reward_node
    update_node_latency
execute_request_runs = (refl, refl, refl, refl, refl)

select_routes-Apart_example :
    let selected = select_routes 3 routes in
    Apart [] selected
    × (1 ≤ length selected)
    × (length selected ≤ 3)
    × ((3 ≤ length selected) ⊎ All (λ c. is_seen selected c ≡ true) (or_direct routes))
select_routes-Apart_example = select_routes-Apart 3 routes (omega arith)

routes_without_3 : any (λ c. same_number c.1 (some 3)) (select_routes 3 routes) ≡ false
unfolding select_routes
routes_without_3 = refl

execute_request-Whole_example :
    let (result, t) = execute_request latencies wire options routes start in
    (t.open_responses ≡ 0 + handed latencies wire options result)
    × (length t.trace ≤ max 1 3 * rounds latencies wire options)
    × (t.nodes 3 ≡ node 3)
execute_request-Whole_example =
    execute_request-Whole latencies wire options routes start 3 refl routes_without_3
