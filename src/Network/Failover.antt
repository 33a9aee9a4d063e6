-- ===== src/Network/Failover.antt =====
-- What a request does along its routes.
use void_switch.Base.{
  ◌||◌, ℕ, ◌+◌, ◌*◌, max, Option, none, some, List, [], ◌∷◌, Bool, true, false, ◌≡◌, refl, ◌∙◌, ap,
  ◌≤◌, arith, inl, inr, ◌⊎◌, if_rule, length, any,
}
use void_switch.Routing.{Latencies}
use void_switch.Network.{
  Wire, Failure, timed_out, Candidate, Options, Run, Result, transferred, Next, go_on, stop, finish,
  select_routes, on_failure, on_headers, after_read, with_retry, try_route, after_route, try_routes,
  give_up, execute_request, greet, note, sent, is_zero, headers, same_number,
}
use native.Mathlib.Nat.{mul-le-mul_right}
use void_switch.Network.Routes.{select_routes-Apart}

module _ (lib : Latencies) (wire : Wire lib) (options : Options lib wire) where
  -- How many responses a result hands over.
  abbrev pub handed : Result lib wire → ℕ
  handed (transferred response c) = 1
  handed _ = 0

  abbrev handed_by : Next lib wire → ℕ
  handed_by (finish result) = handed result
  handed_by next = 0

  -- A request reads bodies, and may fail once more after the headers, only to retry on a response.
  abbrev extra : Option (wire.Response → Bool) → ℕ
  extra none = 0
  extra (some retry) = 1

  abbrev pub rounds : ℕ
  rounds = extra options.retry_response + 1

  -- What a turn does: `kept` responses of this layer are open before and after, but for those that
  -- it hands over; it notes at most `noted` attempts; and it changes no node but that of its route.
  record Effect (kept noted : ℕ) (c : Candidate) (r : Run lib wire)
      (out : Next lib wire × Run lib wire) : Type 0 where
    opened : out.1.open_responses ≡ kept + handed_by out.0
    traced : length out.1.trace ≤ length r.trace + noted
    others : (id : ℕ) → same_number c.1 (some id) ≡ false → out.1.nodes id ≡ r.nodes id

  on_failure-Effect :
      (index : ℕ) (c : Candidate) (f : Failure) (r : Run lib wire)
      → Effect r.open_responses 1 c r (on_failure lib wire options index c f r)
  unfolding on_failure
  on_failure-Effect index (route, none) f r = record {
    opened = ground arith;
    traced = ground arith;
    others = λ id e. ground arith;
  }
  on_failure-Effect index (route, some n) f r = record {
    opened = ground arith;
    traced = ground arith;
    others = λ id e. ground arith;
  }

  after_read-Effect :
      (kept index : ℕ) (c : Candidate) (response : wire.Response) (again : Bool)
      (f : Option Failure) (r : Run lib wire)
      → r.open_responses ≡ kept + 1
      → Effect kept 1 c r (after_read lib wire options index c response again f r)
  after_read-Effect kept index c response again (some f) r e =
      let t = on_failure-Effect index c f r in
      record { opened = omega (arith, t.opened); traced = t.traced; others = t.others }
  after_read-Effect kept index c response true none r e = record {
    opened = omega arith;
    traced = omega arith;
    others = λ id h. refl;
  }
  after_read-Effect kept index c response false none r e = record {
    opened = e;
    traced = omega arith;
    others = λ id h. refl;
  }

  with_retry-Effect :
      (kept index : ℕ) (c : Candidate) (response : wire.Response)
      (retry : Option (wire.Response → Bool)) (r : Run lib wire)
      → r.open_responses ≡ kept + 1
      → Effect kept (extra retry) c r (with_retry lib wire options retry index c response r)
  with_retry-Effect kept index c response none r e = record {
    opened = e;
    traced = omega arith;
    others = λ id h. refl;
  }
  with_retry-Effect kept index c response (some retry) r e =
      let (failure, world) = wire.read response r.world in
      let t =
        after_read-Effect kept index c response (retry response) failure
          (record r { world = world }) e in
      record { opened = t.opened; traced = t.traced; others = t.others }

  -- The state that the bodies are read in.
  greeted_open :
      (index : ℕ) (c : Candidate) (started : wire.World) (response : wire.Response)
      (r : Run lib wire)
      → let t = greet lib wire options index c started (
          note lib wire index c
            (headers (wire.status_of response))
            (record r { open_responses = r.open_responses + 1 })) in
        (t.open_responses ≡ r.open_responses + 1)
        × (length t.trace ≡ length r.trace + 1)
        × ((id : ℕ) → same_number c.1 (some id) ≡ false → t.nodes id ≡ r.nodes id)
  greeted_open index (route, none) started response r = (refl, omega arith, λ id h. refl)
  greeted_open index (route, some n) started response r = (refl, omega arith, λ id h. ground arith)

  on_headers-Effect :
      (index : ℕ) (c : Candidate) (started : wire.World) (response : wire.Response)
      (r : Run lib wire)
      → Effect r.open_responses rounds c r (on_headers lib wire options index c started response r)
  unfolding on_headers
  on_headers-Effect index c started response r =
      let (open_now, noted, others) = greeted_open index c started response r in
      let t =
        with_retry-Effect r.open_responses index c response options.retry_response
          (greet lib wire options index c started (
            note lib wire index c (headers (wire.status_of response))
              (record r { open_responses = r.open_responses + 1 })))
          open_now in
      record {
        opened = t.opened;
        traced = omega (arith, t.traced, noted);
        others = λ id h. t.others id h ∙ others id h;
      }

  sent-Effect :
      (index : ℕ) (c : Candidate) (out : (Failure × wire.World) ⊎ (wire.Response × wire.World))
      (r : Run lib wire)
      → Effect r.open_responses rounds c r (sent lib wire options index c out r)
  sent-Effect index c (inl (failure, world)) r =
      let t = on_failure-Effect index c failure (record r { world = world }) in
      record { opened = t.opened; traced = omega (arith, t.traced); others = t.others }
  sent-Effect index c (inr (response, world)) r =
      let t = on_headers-Effect index c r.world response (record r { world = world }) in
      record { opened = t.opened; traced = t.traced; others = t.others }

  try_route-Effect :
      (index : ℕ) (c : Candidate) (r : Run lib wire)
      → Effect r.open_responses rounds c r (try_route lib wire options index c r)
  unfolding try_route
  try_route-Effect index c r =
      if_rule (Effect r.open_responses rounds c r) (is_zero lib wire (wire.remaining r.world)) _ _
        (λ late.
          let t = on_failure-Effect index c timed_out r in
          record { opened = t.opened; traced = omega (arith, t.traced); others = t.others })
        (λ time. sent-Effect index c (wire.send c.0 r.world) r)

  -- What a request does along the routes `cs`.
  record Whole (cs : List Candidate) (r : Run lib wire) (out : Result lib wire × Run lib wire)
      : Type 0 where
    opened : out.1.open_responses ≡ r.open_responses + handed out.0
    traced : length out.1.trace ≤ length r.trace + length cs * rounds
    others :
        (id : ℕ) → any (λ c. same_number c.1 (some id)) cs ≡ false → out.1.nodes id ≡ r.nodes id

  give_up-Whole : (cs : List Candidate) (r : Run lib wire) → Whole cs r (give_up lib wire options r)
  give_up-Whole cs r = record {
    opened = ground arith;
    traced = ground arith;
    others = λ id h. ground arith;
  }

  not_or : (a b : Bool) → (a || b) ≡ false → (a ≡ false) × (b ≡ false)
  not_or a b h = ground arith

  after_route-Whole :
      (c : Candidate) (cs : List Candidate)
      (continue : Run lib wire → Result lib wire × Run lib wire) (r : Run lib wire)
      (out : Next lib wire × Run lib wire)
      → ((t : Run lib wire) → Whole cs t (continue t))
      → Effect r.open_responses rounds c r out
      → Whole (c ∷ cs) r (after_route lib wire options continue out)
  unfolding after_route
  after_route-Whole c cs continue r (go_on, t) more turn =
      let w = more t in
      record {
        opened = omega (arith, w.opened, turn.opened);
        traced = grind (arith, w.traced, turn.traced);
        others =
            λ id h. let (here, there) = not_or _ _ h in w.others id there ∙ turn.others id here;
      }
  after_route-Whole c cs continue r (stop, t) more turn =
      let w = give_up-Whole [] t in
      record {
        opened = omega (arith, w.opened, turn.opened);
        traced = grind (arith, w.traced, turn.traced);
        others = λ id h. w.others id refl ∙ turn.others id (not_or _ _ h).0;
      }
  after_route-Whole c cs continue r (finish result, t) more turn = record {
    opened = turn.opened;
    traced = grind (arith, turn.traced);
    others = λ id h. turn.others id (not_or _ _ h).0;
  }

  try_routes-Whole :
      (index : ℕ) (cs : List Candidate) (r : Run lib wire)
      → Whole cs r (try_routes lib wire options index cs r)
  unfolding try_routes
  try_routes-Whole index [] r = give_up-Whole [] r
  try_routes-Whole index (c ∷ cs) r =
      after_route-Whole c cs (try_routes lib wire options (index + 1) cs) r
        (try_route lib wire options index c r) (try_routes-Whole (index + 1) cs)
        (try_route-Effect index c r)

  within : (n k m t : ℕ) → n ≡ 0 → k ≤ m → t ≤ n + k * rounds → t ≤ m * rounds
  within n k m t h le e = omega (arith, e, h, mul-le-mul_right rounds le)

  -- A request leaves no response open but the one that it hands over. It notes at most as many
  -- attempts as the limit allows routes, or twice as many where it may retry on a response, since a
  -- read of a body may fail after the headers. A node on none of the routes that it chose is left
  -- as it was.
  pub execute_request-Whole :
      (routes : List Candidate) (r : Run lib wire) (id : ℕ)
      → r.trace ≡ []
      → any (λ c. same_number c.1 (some id)) (select_routes (max 1 options.limit) routes) ≡ false
      → let (result, t) = execute_request lib wire options routes r in
        (t.open_responses ≡ r.open_responses + handed result)
        × (length t.trace ≤ max 1 options.limit * rounds)
        × (t.nodes id ≡ r.nodes id)
  unfolding execute_request
  execute_request-Whole routes r id fresh absent =
      let selected = select_routes (max 1 options.limit) routes in
      let w = try_routes-Whole 1 selected r in
      let few = (select_routes-Apart (max 1 options.limit) routes (omega arith)).2 in
      (w.opened, within _ _ _ _ (ap length fresh) few w.traced, w.others id absent)
