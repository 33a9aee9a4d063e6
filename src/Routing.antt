-- ===== src/Routing.antt =====
-- backend/voidswitch/services/routing.py: outbound nodes, their route (node_route) and what an
-- attempt does to them (update_node_latency, penalize_node, reward_node). A latency is a float of
-- the code and stays abstract, with the average that it is folded into; times are microseconds.
pub mod Groups
pub mod Found
pub mod Reach
pub mod Walks
pub mod Expansion
pub mod Choice
mod Tests
use void_switch.Base.{
  ℕ, ◌+◌, max, String, Option, none, some, Bool, true, false, ◌&&◌, leb, ◌==◌, if◌then◌else◌,
  str_eq,
}

pub data NodeStatus : Type 0 where
  active disabled : NodeStatus

pub data NodeType : Type 0 where
  direct http socks5 agent : NodeType

-- The float operations of the code: `round(x, 1)`, and `prev + _EWMA_ALPHA * (x - prev)`.
pub record Latencies : Type 1 where
  pub Latency : Type 0
  pub rounded : Latency → Latency
  pub folded : Latency → Latency → Latency

-- An outbound way: an optional proxy, an optional source address, an optional agent.
pub record Route : Type 0 where
  pub proxy_url : Option String
  pub local_address : Option String
  pub agent_node_id : Option ℕ

abbrev pub direct_route : Route
direct_route = record { proxy_url = none; local_address = none; agent_node_id = none }

-- A row of nodes; `weight` is `weight or 1`.
pub record Node (lib : Latencies) : Type 0 where
  pub id : ℕ
  pub kind : NodeType
  pub url : String
  pub local_address : Option String
  pub enabled : Bool
  pub status : NodeStatus
  pub failed_count : ℕ
  pub weight : ℕ
  pub disabled_reason : Option String
  pub latency_ms : Option lib.Latency
  pub latency_ewma : Option lib.Latency
  pub last_used_at : Option ℕ
  pub last_checked_at : Option ℕ

module _ (lib : Latencies) where
  abbrev agent_of : NodeType → ℕ → Option ℕ
  agent_of agent id = some id
  agent_of kind id = none

  abbrev is_direct_type : NodeType → Bool
  is_direct_type direct = true
  is_direct_type kind = false

  unfoldable pub node_route : Node lib → Route
  node_route n =
      if is_direct_type n.kind
      then direct_route
      else if str_eq n.url ""
      then direct_route
      else record {
        proxy_url = some n.url;
        local_address = n.local_address;
        agent_node_id = agent_of n.kind n.id;
      }

  abbrev fold_in : Option lib.Latency → lib.Latency → lib.Latency
  fold_in none sample = sample
  fold_in (some prev) sample = lib.folded prev sample

  unfoldable pub update_node_latency : ℕ → lib.Latency → Node lib → Node lib
  update_node_latency now sample n = record n {
    last_used_at = some now;
    latency_ms = some (lib.rounded sample);
    latency_ewma = some (fold_in n.latency_ewma sample);
  }

  -- `max_failures` is the setting max_proxy_failures.
  unfoldable pub penalize_node : ℕ → ℕ → String → Bool → Node lib → Node lib
  penalize_node max_failures now reason auto_disable n =
      let counted = record n { failed_count = n.failed_count + 1; last_checked_at = some now } in
      if auto_disable && leb (max 1 max_failures) (n.failed_count + 1)
      then record counted { status = disabled; disabled_reason = some reason }
      else counted

  unfoldable pub reward_node : ℕ → Node lib → Node lib
  reward_node now n = record n { failed_count = 0; last_used_at = some now }
