-- ===== src/Network.antt =====
-- backend/voidswitch/services/network.py, execute_request: the failover over outbound routes until
-- HTTP headers arrive. Sending, reading a body, the clocks and the shared deadline are behind
-- `Wire`; `open_responses` counts the responses that this layer still owns. The resolution of a
-- target to its routes, the pool of clients and the probes are left out.
pub mod Routes
pub mod Failover
mod Tests
use void_switch.Base.{
  ◌⊎◌, inl, inr, ℕ, ◌+◌, ◌-◌, max, String, Option, none, some, List, [], ◌∷◌, ◌++◌, Bool, true,
  false, ◌&&◌, not, leb, ◌==◌, if◌then◌else◌, str_eq, any, length,
}
use void_switch.Routing.{
  Latencies, Route, direct_route, Node, update_node_latency, penalize_node, reward_node,
}

-- What a part of an attempt may end with other than a value. `aborted` is an exception that
-- execute_request lets through (a cancellation, say).
pub data Failure : Type 0 where
  pool_timeout : String → Failure
  timed_out : Failure
  http_error : String → Failure
  aborted : Failure

-- `send` opens a response, or fails; `read` reads the body of one. `remaining` is the time left of
-- the deadline, if there is one, and `elapsed` the rounded time between two moments.
pub record Wire (lib : Latencies) : Type 1 where
  pub World : Type 0
  pub Response : Type 0
  pub status_of : Response → ℕ
  pub now : World → ℕ
  pub remaining : World → Option ℕ
  pub elapsed : World → World → lib.Latency
  pub send : Route → World → (Failure × World) ⊎ (Response × World)
  pub read : Response → World → Option Failure × World

-- A route with the id of its node, if it has one.
abbrev pub Candidate : Type 0
Candidate = Route × Option ℕ

abbrev same_text : Option String → Option String → Bool
same_text none none = true
same_text (some a) (some b) = str_eq a b
same_text _ _ = false

abbrev same_number : Option ℕ → Option ℕ → Bool
same_number none none = true
same_number (some a) (some b) = a == b
same_number _ _ = false

-- Equality of `_route_key`.
abbrev pub same_route : Route → Route → Bool
same_route a b =
    same_text a.proxy_url b.proxy_url
    && (same_text a.local_address b.local_address && same_number a.agent_node_id b.agent_node_id)

abbrev pub is_seen : List Candidate → Candidate → Bool
is_seen seen c = any (λ other. same_route other.0 c.0) seen

abbrev pub or_direct : List Candidate → List Candidate
or_direct [] = (direct_route, none) ∷ []
or_direct (c ∷ cs) = c ∷ cs

-- The loop that chooses the routes to try: the first ones that differ, `limit` at most.
unfoldable pub choose : ℕ → List Candidate → List Candidate → List Candidate
choose limit chosen [] = chosen
choose limit chosen (c ∷ more) =
    let next = if is_seen chosen c then chosen else chosen ++ c ∷ [] in
    let rest = choose limit next more in if leb limit (length next) then next else rest

unfoldable pub select_routes : ℕ → List Candidate → List Candidate
unfolding choose
select_routes limit routes = choose limit [] (or_direct routes)

-- A NetworkAttempt: which one, and what it met.
pub data Met : Type 0 where
  headers : ℕ → Met
  failed : Failure → Met
  out_of_time : Met

pub record NetworkAttempt : Type 0 where
  pub attempt : ℕ
  pub candidate : Candidate
  pub met : Met

pub record Options (lib : Latencies) (wire : Wire lib) : Type 0 where
  pub limit : ℕ
  pub max_proxy_failures : ℕ
  pub auto_disable_nodes : Bool
  pub retry_response : Option (wire.Response → Bool)

module _ (lib : Latencies) (wire : Wire lib) where
  pub record Run : Type 0 where
    pub world : wire.World
    pub nodes : ℕ → Node lib
    pub trace : List NetworkAttempt
    pub last_http : Option (wire.Response × Candidate)
    pub open_responses : ℕ

  -- The end of a request. `replayed` is a closed response, rebuilt from what was read of it.
  pub data Result : Type 0 where
    transferred : wire.Response → Candidate → Result
    replayed : wire.Response → Candidate → Result
    network_exhausted : Result
    raised : Result

  -- After a route: the next one, the end of the loop, or the end of the request.
  pub data Next : Type 0 where
    go_on : Next
    stop : Next
    finish : Result → Next

  abbrev set_node : Option ℕ → (Node lib → Node lib) → Run → Run
  set_node none change r = r
  set_node (some id) change r = record r {
    nodes = λ n. if n == id then change (r.nodes n) else r.nodes n;
  }

  abbrev note : ℕ → Candidate → Met → Run → Run
  note index c met r = record r {
    trace = record { attempt = index; candidate = c; met = met } ∷ r.trace;
  }

  abbrev is_zero : Option ℕ → Bool
  is_zero (some n) = n == 0
  is_zero none = false

  module _ (options : Options lib wire) where
    abbrev blame : Candidate → String → Run → Run
    blame c error r =
        set_node c.1
          (penalize_node lib options.max_proxy_failures (wire.now r.world) error
            options.auto_disable_nodes)
          r

    -- The `except` clauses.
    unfoldable pub on_failure : ℕ → Candidate → Failure → Run → Next × Run
    on_failure index c (pool_timeout error) r = (stop, note index c (failed (pool_timeout error)) r)
    on_failure index c timed_out r =
        if is_zero (wire.remaining r.world)
        then (finish network_exhausted, note index c out_of_time r)
        else (go_on, blame c "timeout" (note index c (failed timed_out) r))
    on_failure index c (http_error error) r =
        (go_on, blame c error (note index c (failed (http_error error)) r))
    on_failure index c aborted r = (finish raised, r)

    -- The `finally` clause closes the response.
    abbrev close : Next × Run → Next × Run
    close (next, r) = (next, record r { open_responses = r.open_responses - 1 })

    abbrev after_read : ℕ → Candidate → wire.Response → Bool → Option Failure → Run → Next × Run
    after_read index c response again (some failure) r = close (on_failure index c failure r)
    after_read index c response true none r =
        close (go_on, record r { last_http = some (response, c) })
    after_read index c response false none r = (finish (transferred response c), r)

    abbrev with_retry :
        Option (wire.Response → Bool) → ℕ → Candidate → wire.Response → Run → Next × Run
    with_retry none index c response r = (finish (transferred response c), r)
    with_retry (some retry) index c response r =
        let (failure, world) = wire.read response r.world in
        after_read index c response (retry response) failure (record r { world = world })

    abbrev greet : ℕ → Candidate → wire.World → Run → Run
    greet index c started r =
        set_node c.1
          (λ n.
            update_node_latency lib (wire.now r.world) (wire.elapsed started r.world)
              (reward_node lib (wire.now r.world) n))
          r

    unfoldable pub on_headers : ℕ → Candidate → wire.World → wire.Response → Run → Next × Run
    unfolding on_failure
    on_headers index c started response r = with_retry options.retry_response index c response (
        greet index c started (
          note index c (headers (wire.status_of response))
            (record r { open_responses = r.open_responses + 1 })))

    abbrev sent :
        ℕ → Candidate → (Failure × wire.World) ⊎ (wire.Response × wire.World) → Run → Next × Run
    sent index c (inl (failure, world)) r = on_failure index c failure (record r { world = world })
    sent index c (inr (response, world)) r =
        on_headers index c r.world response (record r { world = world })

    -- One turn of the loop over the chosen routes.
    unfoldable pub try_route : ℕ → Candidate → Run → Next × Run
    unfolding on_headers
    try_route index c r =
        if is_zero (wire.remaining r.world)
        then on_failure index c timed_out r
        else sent index c (wire.send c.0 r.world) r

    abbrev give_up : Run → Result × Run
    give_up r = elim r.last_http [
      | some last ↦ (replayed last.0 last.1, r)
      | none ↦ (network_exhausted, r)
    ]

    unfoldable pub after_route : (Run → Result × Run) → Next × Run → Result × Run
    after_route continue (go_on, r) = continue r
    after_route continue (stop, r) = give_up r
    after_route continue (finish result, r) = (result, r)

    unfoldable pub try_routes : ℕ → List Candidate → Run → Result × Run
    unfolding after_route
    try_routes index [] r = give_up r
    try_routes index (c ∷ cs) r = after_route (try_routes (index + 1) cs) (try_route index c r)

    unfoldable pub execute_request : List Candidate → Run → Result × Run
    unfolding select_routes try_routes
    execute_request routes r = try_routes 1 (select_routes (max 1 options.limit) routes) r
