-- ===== src/Dispatcher/Rounds.antt =====
-- What one attempt with a key leaves as it was, whatever its outcome.
use void_switch.Base.{
  ℕ, ◌+◌, String, Option, none, some, List, ◌∷◌, Bool, true, false, ◌&&◌, not, ◌⊎◌, ◌≡◌, refl,
  arith, inl, inr, if_rule,
}
use void_switch.ErrorPolicy.{TextLib}
use void_switch.Providers.{ErrorClass}
use void_switch.UpstreamHealth.{HeaderLib, TripReason}
use void_switch.Dispatcher.{
  Env, State, Request, Settings, Site, Turn, Next, Answer, Outcome, network_error, answered, tried,
}
use void_switch.Dispatcher.Answers.{
  try_key, on_outcome, on_answer, on_class, on_fine, on_empty, on_served, on_key_invalid, disable,
  after_refresh, moved, renewed, on_rate_limited, on_not_found, on_server_error, on_protected,
  on_network_error, trip_upstream, seen, attempted, call_of, is_protected, is_fine, decision_of,
}

module _ (env : Env) where
  -- The counters, the summaries and the answer seen last stand.
  pub record Same (s t : State env) : Type 0 where
    pub provider_attempts : t.provider_attempts ≡ s.provider_attempts
    pub upstreams_tried : t.upstreams_tried ≡ s.upstreams_tried
    pub summaries : t.summaries ≡ s.summaries
    pub last_http : t.last_http ≡ s.last_http
    pub return_last_http : t.return_last_http ≡ s.return_last_http

  module _ (text : TextLib) (lib : HeaderLib) (settings : Settings) (req : Request) where
    abbrev SameAfter : State env → Next × State env → Type 0
    SameAfter s out = Same s out.1

    trip_upstream-Same :
        (at : Site) (status : ℕ) (headers : List (String × String)) (reason : TripReason)
        (s : State env)
        → Same s (trip_upstream env text lib settings req at status headers reason s).1
    unfolding trip_upstream
    trip_upstream-Same at status headers reason s = ground arith

    on_fine-Same :
        (at : Site) (key : ℕ) (a : Answer) (s : State env)
        → SameAfter s (on_fine env text lib settings req at key a s)
    unfolding on_fine on_empty on_served
    on_fine-Same at key a s = ground arith

    after_refresh-Same :
        (key : ℕ) (a : Answer) (o : Option Turn) (checked : Option ℕ) (world : env.World)
        (s : State env)
        → SameAfter s
            (after_refresh env text lib settings req key a o (moved env key checked world s))
    unfolding disable
    after_refresh-Same key a none checked world s = ground arith
    after_refresh-Same key a (some turn) checked world s = ground arith

    on_key_invalid-Same :
        (at : Site) (key : ℕ) (turn : Turn) (a : Answer) (s : State env)
        → SameAfter s (on_key_invalid env text lib settings req at key turn a s)
    unfolding on_key_invalid disable
    on_key_invalid-Same at key turn a s =
        if_rule (SameAfter s)
          (at.provider.adapter.refresh_on_invalid_key && not turn.oauth_refreshed) _ _
          (λ first.
            let out = env.resolve at.provider (s.rows key) true s.world in
            after_refresh-Same key a (renewed env text lib settings req at turn out.0) out.1 out.2
              s)
          (λ last. ground arith)

    on_rate_limited-Same :
        (at : Site) (key : ℕ) (a : Answer) (s : State env)
        → SameAfter s (on_rate_limited env text lib settings req at key a s)
    unfolding on_rate_limited trip_upstream
    on_rate_limited-Same at key a s = ground arith

    on_server_error-Same :
        (at : Site) (key : ℕ) (a : Answer) (b : Bool) (s : State env)
        → SameAfter s (on_server_error env text lib settings req at key a b s)
    unfolding on_server_error trip_upstream
    on_server_error-Same at key a b s = ground arith

    on_class-Same :
        (c : ErrorClass) (at : Site) (key : ℕ) (turn : Turn) (a : Answer) (s : State env)
        → SameAfter s (on_class env text lib settings req c at key turn a s)
    unfolding on_class on_not_found disable
    on_class-Same ErrorClass.fine at key turn a s = on_fine-Same at key a s
    on_class-Same ErrorClass.key_invalid at key turn a s = on_key_invalid-Same at key turn a s
    on_class-Same ErrorClass.rate_limited at key turn a s = on_rate_limited-Same at key a s
    on_class-Same ErrorClass.server_error at key turn a s = on_server_error-Same at key a true s
    on_class-Same ErrorClass.upstream_overloaded at key turn a s =
        on_server_error-Same at key a false s
    on_class-Same _ at key turn a s = ground arith

    on_protected-Same :
        (at : Site) (turn : Turn) (a : Answer) (final : String) (s : State env)
        → SameAfter s (on_protected env text lib settings req at turn a final s)
    unfolding on_protected trip_upstream
    on_protected-Same at turn a final s = ground arith

    -- What `seen` says of an outcome.
    abbrev after_seen : Site → Outcome → State env → State env
    after_seen at (network_error e blame_proxy) s = s
    after_seen at (answered a) s = seen env text lib settings req at a s

    on_outcome-Same :
        (at : Site) (key : ℕ) (turn : Turn) (o : Outcome) (s : State env)
        → SameAfter (after_seen at o s) (on_outcome env text lib settings req at key turn o s)
    unfolding on_outcome on_network_error trip_upstream on_answer
    on_outcome-Same at key turn (network_error e b) s = ground arith
    on_outcome-Same at key turn (answered a) s =
        if_rule (SameAfter (seen env text lib settings req at a s))
          (is_protected (decision_of text at a)) _ _
          (λ shielded. on_protected-Same at turn a _ (seen env text lib settings req at a s))
          (λ plain. on_class-Same _ at key turn a (seen env text lib settings req at a s))

    -- An attempt is counted and noted once, and begins no upstream.
    pub try_key_counts :
        (at : Site) (key : ℕ) (turn : Turn) (s : State env)
        → let t = (try_key env text lib settings req at key turn s).1 in
          (t.provider_attempts ≡ s.provider_attempts + 1)
          × (t.upstreams_tried ≡ s.upstreams_tried)
          × (t.summaries
              ≡ tried
                  (s.provider_attempts + 1)
                  at.provider.id
                  key
                  at.upstream_model
                  (env.attempt (call_of env text lib settings req at turn) s.world).0
                ∷ s.summaries)
    unfolding try_key
    try_key_counts at key turn s =
        let out = env.attempt (call_of env text lib settings req at turn) s.world in
        counted out.0 _ _
          (on_outcome-Same at key turn out.0 (attempted env text lib settings req at key out s))
      where
        counted :
            (o : Outcome) (t u : State env)
            → Same (after_seen at o t) u
            → (u.provider_attempts ≡ t.provider_attempts)
              × (u.upstreams_tried ≡ t.upstreams_tried)
              × (u.summaries ≡ t.summaries)
        counted (network_error e b) t u h = (h.provider_attempts, h.upstreams_tried, h.summaries)
        counted (answered a) t u h = (h.provider_attempts, h.upstreams_tried, h.summaries)

    -- The answer seen last, and the flag that returns it, come from an answer of this attempt that
    -- the adapter does not take for a good one, or were there before.
    pub try_key_seen :
        (at : Site) (key : ℕ) (turn : Turn) (s : State env)
        → let t = (try_key env text lib settings req at key turn s).1 in
          ((t.last_http ≡ s.last_http) × (t.return_last_http ≡ s.return_last_http))
          ⊎ ((a : Answer) × ((env.attempt (call_of env text lib settings req at turn) s.world).0
                ≡ answered a)
              × (t.last_http ≡ some a)
              × (t.return_last_http
                  ≡ not (is_fine (at.provider.adapter.classify a.status a.body_json))))
    unfolding try_key
    try_key_seen at key turn s =
        let out = env.attempt (call_of env text lib settings req at turn) s.world in
        told out.0 _ _
          (on_outcome-Same at key turn out.0 (attempted env text lib settings req at key out s))
      where
        told :
            (o : Outcome) (t u : State env)
            → Same (after_seen at o t) u
            → ((u.last_http ≡ t.last_http) × (u.return_last_http ≡ t.return_last_http))
              ⊎ ((a : Answer) × (o ≡ answered a)
                  × (u.last_http ≡ some a)
                  × (u.return_last_http
                      ≡ not (is_fine (at.provider.adapter.classify a.status a.body_json))))
        told (network_error e b) t u h = inl (h.last_http, h.return_last_http)
        told (answered a) t u h = inr (a, refl, h.last_http, h.return_last_http)
