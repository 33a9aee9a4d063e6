-- ===== src/Dispatcher/Loops.antt =====
-- The three loops of _do_dispatch (backend/voidswitch/services/dispatcher.py), from the ranked
-- upstreams on: the rounds with one key, the keys of an upstream, and the upstreams in turn; then
-- the reply when all of them are exhausted. The ranking and the route's limits are given.
use void_switch.Base.{
  ℕ, zero, suc, ◌+◌, ◌-◌, max, String, Option, none, some, List, [], ◌∷◌, Bool, true, false, ◌&&◌,
  ◌||◌, leb, if◌then◌else◌, map, take, or_zero, length,
}
use void_switch.ErrorPolicy.{TextLib}
use void_switch.Keys.{ApiKey}
use void_switch.Selector.{Rng, Redis, select_keys}
use void_switch.UpstreamHealth.{HeaderLib, or_number}
use void_switch.Dispatcher.{
  Env, State, Request, Settings, Site, Turn, Next, again, leave, reply, Reply, raised,
  upstream_error, unavailable, no_eligible_keys, credential_failed, skipped_disabled,
  skipped_no_keys, ProviderRow, Entry, site,
}
use void_switch.Dispatcher.Answers.{attempt_limit, fail, moved, try_key, now_of}

-- A ranked upstream, with what the ranking says of it: does it still cool down (tier 3)?
pub record Ranked : Type 0 where
  pub entry : Entry
  pub cooling : Bool

-- `max_upstream_attempts` is 0 where the route sets none.
pub record Plan : Type 0 where
  pub ranked : List Ranked
  pub cooldown_ignored : Bool
  pub max_upstream_attempts : ℕ

abbrev pub upstream_limit : Plan → ℕ
upstream_limit plan = or_number plan.max_upstream_attempts (length plan.ranked)

abbrev pub fresh_turn : String → Turn
fresh_turn credential = record {
  credential = credential;
  oauth_refreshed = false;
  protected_repeat_used = false;
}

-- `keys[: max(1, provider... or setting)]`
abbrev pub key_limit : Settings → ProviderRow → ℕ
key_limit settings p = max 1 (or_number p.max_keys_per_attempt settings.max_keys_per_attempt)

module _ (env : Env) where
  -- What follows a round, the keys after a key's rounds, and the upstreams after an upstream.
  unfoldable pub after_round :
      (Turn → State env → Next × State env) → Next × State env → Next × State env
  after_round go_on (again t, s) = go_on t s
  after_round go_on (leave abandon, s) = (leave abandon, s)
  after_round go_on (reply r, s) = (reply r, s)

  unfoldable pub after_key :
      (State env → Option Reply × State env) → Next × State env → Option Reply × State env
  after_key go_on (again t, s) = (none, s)
  after_key go_on (leave true, s) = (none, s)
  after_key go_on (leave false, s) = go_on s
  after_key go_on (reply r, s) = (some r, s)

  unfoldable pub after_upstream :
      (State env → Option Reply × State env) → Option Reply × State env → Option Reply × State env
  after_upstream go_on (some r, s) = (some r, s)
  after_upstream go_on (none, s) = go_on s

  abbrev pub resolved :
      ℕ → Option String × Option ℕ × env.World → State env → Option String × State env
  resolved key (none, checked, world) s =
      (none, fail env credential_failed 401 (moved env key checked world s))
  resolved key (some credential, checked, world) s =
      (some credential, moved env key checked world s)

  abbrev pub no_keys : Entry → ProviderRow → State env → State env
  no_keys entry p s =
      fail env (no_eligible_keys p.id entry.key_pool) 502
        (record s { summaries = skipped_no_keys p.id ∷ s.summaries })

  abbrev pub skip_disabled : Option ℕ → State env → State env
  skip_disabled p s = record s { summaries = skipped_disabled p ∷ s.summaries }

  abbrev pub is_spent : Settings → State env → Bool
  is_spent settings s = leb (attempt_limit settings) s.provider_attempts

module _ (env : Env) (text : TextLib) (lib : HeaderLib) (rng : Rng) (settings : Settings)
    (req : Request) where
  -- `while True`: each round makes one attempt, so the fuel is the attempts that are left.
  unfoldable pub run_turns : ℕ → Site → ℕ → Turn → State env → Next × State env
  unfolding after_round
  run_turns zero at key turn s = (leave false, s)
  run_turns (suc fuel) at key turn s =
      let rest =
        after_round env (run_turns fuel at key) (try_key env text lib settings req at key turn s) in
      if is_spent env settings s then (leave false, s) else rest

  unfoldable pub run_key : Site → ℕ → Turn → State env → Next × State env
  run_key at key turn s = run_turns (attempt_limit settings - s.provider_attempts) at key turn s

  -- A key with its credential. A first request that cannot be built raises.
  unfoldable pub with_credential :
      Site
      → ℕ
      → (State env → Option Reply × State env)
      → Option String × State env
      → Option Reply × State env
  unfolding after_key
  with_credential at key go_on (none, s) = go_on s
  with_credential at key go_on (some c, s) =
      let rest = after_key env go_on (run_key at key (fresh_turn c) s) in
      if env.prepares at.provider at.upstream_model c then rest else (some raised, s)

  -- The keys of an upstream; none if no reply was found with them.
  unfoldable pub run_keys : Site → List ApiKey → State env → Option Reply × State env
  unfolding with_credential
  run_keys at [] s = (none, s)
  run_keys at (k ∷ keys) s =
      let key = or_zero k.id in
      let rest =
        with_credential at key (run_keys at keys)
          (resolved env key (env.resolve at.provider (s.rows key) false s.world) s) in
      if is_spent env settings s then (none, s) else rest

  -- The keys to try, of the rows as they are now.
  unfoldable pub selected : Bool → Entry → ProviderRow → State env → List ApiKey × Redis
  selected ignore_cooldown entry p s =
      let (order, redis) =
        select_keys rng
          (record {
            id = some p.id;
            key_select_mode = p.key_select_mode;
            keys = map s.rows p.key_ids;
          })
          entry.key_pool settings.rate_limit_recovery (some req.session_key) ignore_cooldown
          (now_of env s) s.redis in
      (take (key_limit settings p) order, redis)

  unfoldable pub try_keys :
      Entry → ProviderRow → List ApiKey × Redis → State env → Option Reply × State env
  try_keys entry p ([], redis) s = (none, no_keys env entry p (record s { redis = redis }))
  try_keys entry p (k ∷ keys, redis) s =
      run_keys (site req entry p) (k ∷ keys)
        (record s { redis = redis; upstreams_tried = s.upstreams_tried + 1 })

  unfoldable pub at_provider :
      Bool → Ranked → Option ProviderRow → State env → Option Reply × State env
  at_provider cooldown_ignored row none s = (none, skip_disabled env none s)
  at_provider cooldown_ignored row (some p) s =
      if p.enabled
      then try_keys row.entry p (selected (cooldown_ignored && row.cooling) row.entry p s) s
      else (none, skip_disabled env (some p.id) s)

  unfoldable pub run_entries : ℕ → Bool → List Ranked → State env → Option Reply × State env
  unfolding at_provider after_upstream
  run_entries max_upstreams ignored [] s = (none, s)
  run_entries max_upstreams ignored (row ∷ rows) s =
      let rest =
        after_upstream env (run_entries max_upstreams ignored rows)
          (at_provider ignored row row.entry.provider s) in
      if is_spent env settings s || leb max_upstreams s.upstreams_tried then (none, s) else rest

  -- The reply when no upstream served.
  abbrev pub exhausted : State env → Reply
  exhausted s =
      let bare = unavailable (if leb 400 s.last_status then s.last_status else 502) s.last_error in
      if s.return_last_http
      then (elim s.last_http [ some a ↦ upstream_error a | none ↦ bare ])
      else bare

  abbrev pub or_exhausted : Option Reply × State env → Reply × State env
  or_exhausted (some r, s) = (r, s)
  or_exhausted (none, s) = (exhausted s, s)

  unfoldable pub dispatch : Plan → State env → Reply × State env
  dispatch plan s =
      or_exhausted (run_entries (upstream_limit plan) plan.cooldown_ignored plan.ranked s)
