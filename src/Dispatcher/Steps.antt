-- ===== src/Dispatcher/Steps.antt =====
-- A rule for what holds along a dispatch, by its steps: attempts, resolved credentials, skipped
-- upstreams and begun ones.
use void_switch.Base.{
  if_rule, ℕ, zero, suc, ◌+◌, ◌-◌, String, Option, none, some, List, [], ◌∷◌, Bool, true, false,
  ◌||◌, leb, ◌≡◌, refl, ap, subst, arith, or_zero,
}
use void_switch.ErrorPolicy.{TextLib}
use void_switch.Keys.{ApiKey}
use void_switch.Selector.{Rng, Redis}
use void_switch.UpstreamHealth.{HeaderLib}
use void_switch.Dispatcher.{
  Env, State, Request, Settings, Site, Turn, Next, again, leave, reply, Reply, raised, LastError,
  skipped_disabled, skipped_no_keys, ProviderRow, site,
}
use void_switch.Dispatcher.Answers.{attempt_limit, fail, moved, try_key}
use void_switch.Dispatcher.Loops.{
  Ranked, is_spent, fresh_turn, after_round, after_key, after_upstream, run_turns, run_key,
  resolved, with_credential, run_keys, try_keys, at_provider, run_entries,
}

some-inj : {q r : Reply} → some q ≡ some r → q ≡ r
some-inj e = cc

module _ (env : Env) (text : TextLib) (lib : HeaderLib) (rng : Rng) (settings : Settings)
    (req : Request) (max_upstreams : ℕ) where
  -- `P` holds between upstreams, `W` while one is at work, and `Q` of a reply.
  pub record Rules (P : State env → Type 0) (W : Site → State env → Type 0)
      (Q : Reply → State env → Type 0) : Type 0 where
    pub starts :
        (row : Ranked) (p : ProviderRow) (s : State env) (redis : Redis)
        → row.entry.provider ≡ some p
        → p.enabled ≡ true
        → leb max_upstreams s.upstreams_tried ≡ false
        → P s
        → W
            (site req row.entry p)
            (record s { redis = redis; upstreams_tried = s.upstreams_tried + 1 })
    pub leaves : (at : Site) (s : State env) → W at s → P s
    pub attempts :
        (at : Site) (key : ℕ) (turn : Turn) (s : State env)
        → is_spent env settings s ≡ false
        → W at s
        → W at (try_key env text lib settings req at key turn s).1
    pub replies :
        (at : Site) (key : ℕ) (turn : Turn) (s : State env) (r : Reply)
        → is_spent env settings s ≡ false
        → W at s
        → (try_key env text lib settings req at key turn s).0 ≡ reply r
        → Q r (try_key env text lib settings req at key turn s).1
    pub moves :
        (at : Site) (key : ℕ) (checked : Option ℕ) (world : env.World) (s : State env)
        → W at s
        → W at (moved env key checked world s)
    pub misses :
        (at : Site) (e : LastError) (status : ℕ) (s : State env)
        → W at s
        → W at (fail env e status s)
    -- The first request for a key, with the credential that was resolved, cannot be built.
    pub refuses :
        (at : Site) (row : ApiKey) (before : env.World) (c : String) (s : State env)
        → (env.resolve at.provider row false before).0 ≡ some c
        → env.prepares at.provider at.upstream_model c ≡ false
        → W at s
        → Q raised s
    pub fails : (s : State env) (e : LastError) (status : ℕ) → P s → P (fail env e status s)
    pub skips :
        (s : State env) (p : Option ℕ)
        → P s
        → P (record s { summaries = skipped_disabled p ∷ s.summaries })
    pub lacks :
        (s : State env) (p : ℕ) → P s → P (record s { summaries = skipped_no_keys p ∷ s.summaries })
    pub picks : (s : State env) (redis : Redis) → P s → P (record s { redis = redis })

  module _ (P : State env → Type 0) (W : Site → State env → Type 0) (Q : Reply → State env → Type 0)
      (rules : Rules P W Q) where
    -- After some rounds, `W` holds still, and `Q` if they gave a reply.
    abbrev AfterRounds : Site → Next × State env → Type 0
    AfterRounds at out = W at out.1 × ((r : Reply) → out.0 ≡ reply r → Q r out.1)

    abbrev AfterKeys : Site → Option Reply × State env → Type 0
    AfterKeys at out = W at out.1 × ((r : Reply) → out.0 ≡ some r → Q r out.1)

    abbrev AfterUpstream : Option Reply × State env → Type 0
    AfterUpstream out = P out.1 × ((r : Reply) → out.0 ≡ some r → Q r out.1)

    left_behind :
        (at : Site) (out : Option Reply × State env) → AfterKeys at out → AfterUpstream out
    left_behind at out h = (rules.leaves at out.1 h.0, h.1)

    after_round_rule :
        (at : Site) (go_on : Turn → State env → Next × State env) (out : Next × State env)
        → ((t : Turn) (s : State env) → W at s → AfterRounds at (go_on t s))
        → AfterRounds at out
        → AfterRounds at (after_round env go_on out)
    unfolding after_round
    after_round_rule at go_on (again t, s) f h = f t s h.0
    after_round_rule at go_on (leave b, s) f h = h
    after_round_rule at go_on (reply r, s) f h = h

    run_turns_rule :
        (fuel : ℕ) (at : Site) (key : ℕ) (turn : Turn) (s : State env)
        → W at s
        → AfterRounds at (run_turns env text lib rng settings req fuel at key turn s)
    unfolding run_turns
    run_turns_rule zero at key turn s p = (p, λ r e. cc)
    run_turns_rule (suc fuel) at key turn s p =
        if_rule (AfterRounds at) (is_spent env settings s) _ _ (λ spent. (p, λ r e. cc))
          λ left.
            after_round_rule at (run_turns env text lib rng settings req fuel at key)
              (try_key env text lib settings req at key turn s)
              (λ t s' q. run_turns_rule fuel at key t s' q)
              (rules.attempts at key turn s left p, λ r. rules.replies at key turn s r left p)

    after_key_rule :
        (at : Site) (go_on : State env → Option Reply × State env) (out : Next × State env)
        → ((s : State env) → W at s → AfterKeys at (go_on s))
        → AfterRounds at out
        → AfterKeys at (after_key env go_on out)
    unfolding after_key
    after_key_rule at go_on (again t, s) f h = (h.0, λ r e. cc)
    after_key_rule at go_on (leave true, s) f h = (h.0, λ r e. cc)
    after_key_rule at go_on (leave false, s) f h = f s h.0
    after_key_rule at go_on (reply r, s) f h = (h.0, λ q e. h.1 q (cc))

    with_credential_rule :
        (at : Site) (key : ℕ) (go_on : State env → Option Reply × State env) (row : ApiKey)
        (before : env.World) (o : Option String × Option ℕ × env.World) (s : State env)
        → env.resolve at.provider row false before ≡ o
        → ((t : State env) → W at t → AfterKeys at (go_on t))
        → W at s
        → AfterKeys at
            (with_credential env text lib rng settings req at key go_on (resolved env key o s))
    unfolding with_credential
    with_credential_rule at key go_on row before (none, checked, world) s e f p =
        f _ (rules.misses at _ _ _ (rules.moves at key checked world s p))
    with_credential_rule at key go_on row before (some c, checked, world) s e f p =
        let q = rules.moves at key checked world s p in
        if_rule (AfterKeys at) (env.prepares at.provider at.upstream_model c) _ _
          (λ built.
            after_key_rule at go_on
              (run_key env text lib rng settings req at key (fresh_turn c)
                (moved env key checked world s))
              f
              (unfold run_key in
                run_turns_rule (attempt_limit settings - s.provider_attempts) at key (fresh_turn c)
                  (moved env key checked world s) q))
          λ not_built. (
            q,
            λ r d.
                subst (λ x. Q x (moved env key checked world s)) (some-inj d)
                  (rules.refuses at row before c _ (ap (λ x. x.0) e) not_built q),
          )

    run_keys_rule :
        (at : Site) (keys : List ApiKey) (s : State env)
        → W at s
        → AfterKeys at (run_keys env text lib rng settings req at keys s)
    unfolding run_keys
    run_keys_rule at [] s p = (p, λ r e. cc)
    run_keys_rule at (k ∷ keys) s p =
        if_rule (AfterKeys at) (is_spent env settings s) _ _ (λ spent. (p, λ r e. cc))
          λ left.
            with_credential_rule at (or_zero k.id) (run_keys env text lib rng settings req at keys)
              (s.rows (or_zero k.id)) s.world _ s refl (λ t q. run_keys_rule at keys t q) p

    try_keys_rule :
        (row : Ranked) (p : ProviderRow) (picked : List ApiKey × Redis) (s : State env)
        → row.entry.provider ≡ some p
        → p.enabled ≡ true
        → leb max_upstreams s.upstreams_tried ≡ false
        → P s
        → AfterUpstream (try_keys env text lib rng settings req row.entry p picked s)
    unfolding try_keys
    try_keys_rule row p ([], redis) s e on room h =
        (rules.fails _ _ _ (rules.lacks _ p.id (rules.picks s redis h)), λ r d. cc)
    try_keys_rule row p (k ∷ keys, redis) s e on room h =
        left_behind (site req row.entry p) _ (
          run_keys_rule (site req row.entry p) (k ∷ keys) _
            (rules.starts row p s redis e on room h))

    at_provider_rule :
        (ignored : Bool) (row : Ranked) (o : Option ProviderRow) (s : State env)
        → row.entry.provider ≡ o
        → leb max_upstreams s.upstreams_tried ≡ false
        → P s
        → AfterUpstream (at_provider env text lib rng settings req ignored row o s)
    unfolding at_provider
    at_provider_rule ignored row none s e room h = (rules.skips s none h, λ r d. cc)
    at_provider_rule ignored row (some p) s e room h =
        if_rule AfterUpstream p.enabled _ _ (λ on. try_keys_rule row p _ s e on room h)
          (λ off. (rules.skips s (some p.id) h, λ r d. cc))

    after_upstream_rule :
        (go_on : State env → Option Reply × State env) (out : Option Reply × State env)
        → ((s : State env) → P s → AfterUpstream (go_on s))
        → AfterUpstream out
        → AfterUpstream (after_upstream env go_on out)
    unfolding after_upstream
    after_upstream_rule go_on (some r, s) f h = h
    after_upstream_rule go_on (none, s) f h = f s h.0

    pub run_entries_rule :
        (ignored : Bool) (ranked : List Ranked) (s : State env)
        → P s
        → AfterUpstream (run_entries env text lib rng settings req max_upstreams ignored ranked s)
    unfolding run_entries
    run_entries_rule ignored [] s h = (h, λ r e. cc)
    run_entries_rule ignored (row ∷ ranked) s h =
        if_rule AfterUpstream (is_spent env settings s || leb max_upstreams s.upstreams_tried) _ _
          (λ stop. (h, λ r e. cc))
          λ go.
            after_upstream_rule _ _ (run_entries_rule ignored ranked)
              (at_provider_rule ignored row row.entry.provider s refl (ground arith) h)
