-- ===== src/Dispatcher/Liveness.antt =====
-- A dispatch with a working upstream in its plan, and attempts enough to get there, finds a reply.
use void_switch.Base.{
  ℕ, ◌+◌, ◌<◌, Option, none, some, List, [], ◌∷◌, ◌++◌, Bool, true, false, ◌≡◌, refl, ap, ◌∙◌,
  arith, ◌||◌, length, leb, is_some, All,
}
use void_switch.ErrorPolicy.{TextLib}
use void_switch.Keys.{ApiKey}
use void_switch.Selector.{Rng, Redis}
use void_switch.UpstreamHealth.{HeaderLib, Cooldowns}
use void_switch.Dispatcher.{
  Env, State, Request, Settings, Reply, served, unavailable, upstream_error, client_error, raised,
  initial, ProviderRow,
}
use void_switch.Dispatcher.Answers.{try_key, attempt_limit}
use void_switch.Dispatcher.Loops.{
  Ranked, Plan, upstream_limit, is_spent, after_upstream, at_provider, run_entries, dispatch,
  or_exhausted,
}
use void_switch.Dispatcher.Results.{Earned, try_key_says}
use void_switch.Dispatcher.Steps.{Rules, run_entries_rule}
use void_switch.Dispatcher.Survives.{Kept}
use void_switch.Dispatcher.Others.{Avoids, attempts_at_all, at_provider-Within}
use void_switch.Dispatcher.Served.{Works, at_provider-served}

-- The replies of a dispatch that no upstream and no error of the client ended.
abbrev pub is_exhausted : Reply → Bool
is_exhausted (unavailable status error) = true
is_exhausted (upstream_error a) = true
is_exhausted answer = false

module _ (env : Env) (text : TextLib) (lib : HeaderLib) (rng : Rng) (settings : Settings)
    (req : Request) (k : ℕ) (row : ApiKey) where
  after_upstream-found :
      (go_on : State env → Option Reply × State env) (out : Option Reply × State env)
      → (is_some out.0 ≡ false → is_some (go_on out.1).0 ≡ true)
      → is_some (after_upstream env go_on out).0 ≡ true
  unfolding after_upstream
  after_upstream-found go_on (some r, s) f = refl
  after_upstream-found go_on (none, s) f = f refl

  run_entries-found :
      (max_upstreams : ℕ) (ignored : Bool) (before after : List Ranked) (good : Ranked)
      (p : ProviderRow) (s : State env)
      → Works env text lib rng settings req k row good p
      → All (Avoids env text lib rng settings req k row) before
      → Kept env k row s
      → s.provider_attempts + attempts_at_all env text lib rng settings req k row before
        < attempt_limit settings
      → s.upstreams_tried + length before < max_upstreams
      → is_some
          (run_entries env text lib rng settings req max_upstreams ignored
            (before ++ good ∷ after)
            s).0
        ≡ true
  unfolding run_entries
  run_entries-found max_upstreams ignored [] after good p s works avoids h room space =
      let begin : (is_spent env settings s || leb max_upstreams s.upstreams_tried) ≡ false =
        ground arith in
      let found : is_some
            (at_provider env text lib rng settings req ignored good good.entry.provider s).0
          ≡ true =
        ap (λ o. is_some (at_provider env text lib rng settings req ignored good o s).0)
          works.provider_same
        ∙ at_provider-served env text lib rng settings req k row ignored good p s works h
            (ground arith) in
      rw begin (
        after_upstream-found (run_entries env text lib rng settings req max_upstreams ignored after)
          (at_provider env text lib rng settings req ignored good good.entry.provider s)
          λ nothing. absurd (cc (nothing, found)))
  run_entries-found max_upstreams ignored (r ∷ before) after good p s works avoids h room space =
      let begin : (is_spent env settings s || leb max_upstreams s.upstreams_tried) ≡ false =
        ground arith in
      let used =
        at_provider-Within env text lib rng settings req k row ignored r r.entry.provider s h
          avoids.0 in
      rw begin (
        after_upstream-found
          (run_entries env text lib rng settings req max_upstreams ignored (before ++ good ∷ after))
          (at_provider env text lib rng settings req ignored r r.entry.provider s)
          λ nothing.
            run_entries-found max_upstreams ignored before after good p _ works avoids.1 used.kept
              (omega (arith, used.attempts)) (omega (arith, used.upstreams)))

  Earned-is_exhausted :
      (r : Reply) (s : State env) → Earned env text lib settings req r s → is_exhausted r ≡ false
  Earned-is_exhausted (served q key a) s e = refl
  Earned-is_exhausted (client_error a) s e = refl
  Earned-is_exhausted raised s e = refl
  Earned-is_exhausted (unavailable status error) s (at, key, a, on, plain, last, says) =
      elim says [ ]
  Earned-is_exhausted (upstream_error a) s (at, key, b, on, plain, last, says) = elim says [ ]

  found_rules :
      (max_upstreams : ℕ)
      → Rules env text lib rng settings req max_upstreams
          (λ s. Unit)
          (λ at s. at.provider.enabled ≡ true)
          (λ r s. is_exhausted r ≡ false)
  found_rules max_upstreams = record {
    starts = λ row p s redis e on room h. on;
    leaves = λ at s on. tt;
    attempts = λ at key turn s left on. on;
    replies = λ at key turn s r left on e.
        Earned-is_exhausted r (try_key env text lib settings req at key turn s).1
          (try_key_says env text lib settings req at key turn s r on e);
    moves = λ at key checked world s on. on;
    misses = λ at e status s on. on;
    refuses = λ at row before c s found unbuilt on. refl;
    fails = λ s e status h. tt;
    skips = λ s q h. tt;
    lacks = λ s q h. tt;
    picks = λ s redis h. tt;
  }

  or_exhausted-found :
      (out : Option Reply × State env)
      → is_some out.0 ≡ true
      → ((r : Reply) → out.0 ≡ some r → is_exhausted r ≡ false)
      → is_exhausted (or_exhausted env text lib rng settings req out).0 ≡ false
  or_exhausted-found (none, s) e f = absurd (cc e)
  or_exhausted-found (some r, s) e f = f r refl

module _ (env : Env) (text : TextLib) (lib : HeaderLib) (rng : Rng) (settings : Settings)
    (req : Request) (world : env.World) (rows : ℕ → ApiKey) (redis : Redis) (cooldowns : Cooldowns)
    (plan : Plan) (before after : List Ranked) (good : Ranked) (p : ProviderRow) (k : ℕ) where
  -- Let the rows of keys carry their own ids, and a working upstream stand in the plan: enabled, with
  -- an active key of its pool that no upstream before it holds, whose credentials resolve and whose
  -- attempts all have good answers, neither shielded nor empty. If the upstreams before it, with three attempts for each key that the
  -- limits allow them, leave an attempt, and the route allows as many upstreams, then the dispatch
  -- does not give up: an upstream serves, the client's own error is passed on, or the dispatch
  -- raises.
  pub dispatch-found :
      ((n : ℕ) → (rows n).id ≡ some n)
      → plan.ranked ≡ before ++ good ∷ after
      → Works env text lib rng settings req k (rows k) good p
      → All (Avoids env text lib rng settings req k (rows k)) before
      → attempts_at_all env text lib rng settings req k (rows k) before < attempt_limit settings
      → length before < upstream_limit plan
      → is_exhausted
          (dispatch env text lib rng settings req plan (initial env world rows redis cooldowns)).0
        ≡ false
  unfolding dispatch
  dispatch-found ids same works avoids room space =
      let start = initial env world rows redis cooldowns in
      let found =
        run_entries-found env text lib rng settings req k (rows k) (upstream_limit plan)
          plan.cooldown_ignored before after good p start works avoids
          (record { ids = ids; row_same = refl }) (omega (arith, room)) (omega (arith, space)) in
      or_exhausted-found env text lib rng settings req k (rows k)
        (run_entries env text lib rng settings req (upstream_limit plan) plan.cooldown_ignored
          plan.ranked start)
        (ap
            (λ ranked.
              is_some
                (run_entries env text lib rng settings req (upstream_limit plan)
                  plan.cooldown_ignored ranked start).0)
            same
          ∙ found)
        (run_entries_rule env text lib rng settings req (upstream_limit plan) (λ s. Unit) _ _
          (found_rules env text lib rng settings req k (rows k) (upstream_limit plan))
          plan.cooldown_ignored plan.ranked start tt).1
