-- ===== src/Dispatcher/Served.antt =====
-- An upstream that works, with an attempt left, ends with a reply.
use void_switch.Base.{
  ℕ, zero, suc, ◌-◌, ◌≤◌, String, Option, none, some, List, [], ◌∷◌, map, Bool, true, false, ◌≡◌,
  refl, arith, inl, inr, Bool-cases, if_rule, ◌==◌, ◌&&◌, any, keep, take, or_zero, is_some,
}
use void_switch.ErrorPolicy.{TextLib}
use void_switch.Keys.{ApiKey, is_active}
use void_switch.Providers.{ErrorClass}
use void_switch.Selector.{Rng, Redis, in_pool}
use void_switch.Selector.Orders.{usable}
use void_switch.UpstreamHealth.{HeaderLib}
use void_switch.Dispatcher.{
  Env, State, Request, Settings, Site, Turn, Next, again, leave, reply, Reply, ProviderRow, site,
  Answer, Outcome, answered,
}
use void_switch.Dispatcher.Answers.{
  moved, final_reply, try_key, attempted, call_of, attempt_limit, now_of, is_protected, decision_of,
  class_of, is_degenerate, on_outcome, on_answer, on_class, on_fine, on_served,
}
use void_switch.Dispatcher.Loops.{
  Ranked, key_limit, is_spent, fresh_turn, after_round, after_key, run_turns, run_key, resolved,
  with_credential, run_keys, selected, try_keys, at_provider,
}
use void_switch.Dispatcher.Survives.{Kept, any-Perm}
use void_switch.Dispatcher.Others.{picked, order-perm}

module _ (env : Env) (text : TextLib) (lib : HeaderLib) (rng : Rng) (settings : Settings)
    (req : Request) (k : ℕ) (row : ApiKey) where
  -- An outcome that ends the search: a good answer that is not shielded and not empty.
  abbrev pub IsServed : Site → Outcome → Type 0
  IsServed at o =
      (a : Answer) × (o ≡ answered a)
      × (is_protected (decision_of text at a) ≡ false)
      × (class_of at a ≡ ErrorClass.fine)
      × (is_degenerate req at a ≡ some false)

  -- An upstream that works: its provider is enabled and holds the key, which is active and of the
  -- upstream's pool; credentials resolve, and every attempt has a good answer.
  pub record Works (r : Ranked) (p : ProviderRow) : Type 0 where
    pub provider_same : r.entry.provider ≡ some p
    pub enabled : p.enabled ≡ true
    pub listed : any (λ n. n == k) p.key_ids ≡ true
    pub active : is_active row.status ≡ true
    pub pooled : in_pool r.entry.key_pool row ≡ true
    pub resolves : (q : ApiKey) (w : env.World) → is_some (env.resolve p q false w).0 ≡ true
    pub answers :
        (turn : Turn) (w : env.World)
        → IsServed
            (site req r.entry p)
            (env.attempt (call_of env text lib settings req (site req r.entry p) turn) w).0

  on_fine-served :
      (at : Site) (key : ℕ) (a : Answer) (s : State env)
      → is_degenerate req at a ≡ some false
      → (on_fine env text lib settings req at key a s).0
        ≡ reply (final_reply env text lib settings req at key a)
  unfolding on_fine on_served
  on_fine-served at key a s full = rw (on_fine, full) refl

  on_class-served :
      (c : ErrorClass) (at : Site) (key : ℕ) (turn : Turn) (a : Answer) (s : State env)
      → c ≡ ErrorClass.fine
      → is_degenerate req at a ≡ some false
      → (on_class env text lib settings req c at key turn a s).0
        ≡ reply (final_reply env text lib settings req at key a)
  unfolding on_class
  on_class-served c at key turn a s fine full = rw fine (on_fine-served at key a s full)

  on_outcome-served :
      (at : Site) (key : ℕ) (turn : Turn) (o : Outcome) (s : State env)
      → (good : IsServed at o)
      → (on_outcome env text lib settings req at key turn o s).0
        ≡ reply (final_reply env text lib settings req at key good.0)
  unfolding on_outcome on_answer
  on_outcome-served at key turn o s (a, same, plain, fine, full) =
      rw (same, plain) (on_class-served (class_of at a) at key turn a _ fine full)

  after_round-reply :
      (go_on : Turn → State env → Next × State env) (out : Next × State env) (r : Reply)
      → out.0 ≡ reply r
      → (after_round env go_on out).0 ≡ reply r
  unfolding after_round
  after_round-reply go_on (again t, s) r e = cc
  after_round-reply go_on (leave b, s) r e = cc
  after_round-reply go_on (reply q, s) r e = e

  after_key-reply :
      (go_on : State env → Option Reply × State env) (out : Next × State env) (r : Reply)
      → out.0 ≡ reply r
      → is_some (after_key env go_on out).0 ≡ true
  unfolding after_key
  after_key-reply go_on (again t, s) r e = absurd (cc e)
  after_key-reply go_on (leave b, s) r e = absurd (cc e)
  after_key-reply go_on (reply q, s) r e = refl

  run_turns-served :
      (fuel : ℕ) (at : Site) (key : ℕ) (turn : Turn) (s : State env)
      → is_spent env settings s ≡ false
      → (good : IsServed at (env.attempt (call_of env text lib settings req at turn) s.world).0)
      → (run_turns env text lib rng settings req (suc fuel) at key turn s).0
        ≡ reply (final_reply env text lib settings req at key good.0)
  unfolding run_turns try_key
  run_turns-served fuel at key turn s left good =
      let out = env.attempt (call_of env text lib settings req at turn) s.world in
      rw left (
        after_round-reply (run_turns env text lib rng settings req fuel at key)
          (try_key env text lib settings req at key turn s) _
          (on_outcome-served at key turn out.0 (attempted env text lib settings req at key out s)
            good))

  run_key-served :
      (at : Site) (key : ℕ) (turn : Turn) (s : State env)
      → is_spent env settings s ≡ false
      → (good : IsServed at (env.attempt (call_of env text lib settings req at turn) s.world).0)
      → (r : Reply) × ((run_key env text lib rng settings req at key turn s).0 ≡ reply r)
  unfolding run_key
  run_key-served at key turn s left good =
      let one_left : attempt_limit settings - s.provider_attempts
          ≡ suc (attempt_limit settings - s.provider_attempts - 1) =
        ground arith in
      (
        final_reply env text lib settings req at key good.0,
        rw one_left (
            run_turns-served (attempt_limit settings - s.provider_attempts - 1) at key turn s left
              good),
      )

  with_credential-served :
      (at : Site) (key : ℕ) (go_on : State env → Option Reply × State env)
      (o : Option String × Option ℕ × env.World) (s : State env)
      → is_spent env settings s ≡ false
      → is_some o.0 ≡ true
      → ((turn : Turn) (w : env.World)
          → IsServed at (env.attempt (call_of env text lib settings req at turn) w).0)
      → is_some
          (with_credential env text lib rng settings req at key go_on (resolved env key o s)).0
        ≡ true
  unfolding with_credential
  with_credential-served at key go_on (none, checked, world) s left has good = absurd (cc has)
  with_credential-served at key go_on (some c, checked, world) s left has good =
      let t = moved env key checked world s in
      let found = run_key-served at key (fresh_turn c) t left (good (fresh_turn c) world) in
      if_rule (λ (out : Option Reply × State env). is_some out.0 ≡ true)
        (env.prepares at.provider at.upstream_model c) _ _
        (λ built.
          after_key-reply go_on (run_key env text lib rng settings req at key (fresh_turn c) t)
            found.0 found.1)
        (λ not_built. refl)

  nonempty_take :
      (test : ApiKey → Bool) (n : ℕ) (xs : List ApiKey)
      → 1 ≤ n
      → any test xs ≡ true
      → (q : ApiKey) × (qs : List ApiKey) × (take n xs ≡ q ∷ qs)
  nonempty_take test zero xs h e = absurd (omega arith)
  nonempty_take test (suc n) [] h e = absurd (cc e)
  nonempty_take test (suc n) (x ∷ xs) h e = (x, take n xs, refl)

  usable_listed :
      (test : ApiKey → Bool) (s : State env) (ids : List ℕ)
      → Kept env k row s
      → test row ≡ true
      → any (λ n. n == k) ids ≡ true
      → any test (keep test (map s.rows ids)) ≡ true
  usable_listed test s [] h u e = absurd (cc e)
  usable_listed test s (n ∷ ids) h u e = elim (Bool-cases (n == k)) [
    | inl same ↦
        let here : n ≡ k = ground arith in
        let passes : test (s.rows n) ≡ true = rw (here, h.row_same) u in rw (passes, passes) refl
    | inr other ↦ let rest = usable_listed test s ids h u (ground arith) in ground (arith, rest)
  ]

  run_keys-served :
      (at : Site) (q : ApiKey) (keys : List ApiKey) (s : State env)
      → is_spent env settings s ≡ false
      → ((q : ApiKey) (w : env.World) → is_some (env.resolve at.provider q false w).0 ≡ true)
      → ((turn : Turn) (w : env.World)
          → IsServed at (env.attempt (call_of env text lib settings req at turn) w).0)
      → is_some (run_keys env text lib rng settings req at (q ∷ keys) s).0 ≡ true
  unfolding run_keys
  run_keys-served at q keys s left resolves answers = rw left (
      with_credential-served at (or_zero q.id) (run_keys env text lib rng settings req at keys)
        (env.resolve at.provider (s.rows (or_zero q.id)) false s.world) s left
        (resolves (s.rows (or_zero q.id)) s.world) answers)

  try_keys-served :
      (r : Ranked) (p : ProviderRow) (keys : List ApiKey × Redis) (s : State env) (q : ApiKey)
      (qs : List ApiKey)
      → Works r p
      → is_spent env settings s ≡ false
      → keys.0 ≡ q ∷ qs
      → is_some (try_keys env text lib rng settings req r.entry p keys s).0 ≡ true
  unfolding try_keys
  try_keys-served r p ([], redis) s q qs works left e = absurd (cc e)
  try_keys-served r p (q' ∷ keys, redis) s q qs works left e =
      run_keys-served (site req r.entry p) q' keys _ left works.resolves works.answers

  pub at_provider-served :
      (ignored : Bool) (r : Ranked) (p : ProviderRow) (s : State env)
      → Works r p
      → Kept env k row s
      → is_spent env settings s ≡ false
      → is_some (at_provider env text lib rng settings req ignored r (some p) s).0 ≡ true
  unfolding at_provider selected
  at_provider-served ignored r p s works h left =
      let fits =
        usable r.entry.key_pool (now_of env s) settings.rate_limit_recovery
          (ignored && r.cooling) in
      let found =
        usable_listed fits s p.key_ids h (rw (works.pooled, works.active) refl) works.listed in
      let order =
        order-perm env text lib rng settings req k row (ignored && r.cooling) r.entry p s in
      let first =
        nonempty_take fits (key_limit settings p) _ (omega arith) (any-Perm fits _ _ order found) in
      if_rule (λ (out : Option Reply × State env). is_some out.0 ≡ true) p.enabled _ _
        (λ on.
          try_keys-served r p
            (picked env text lib rng settings req k row (ignored && r.cooling) r.entry p s) s
            first.0 first.1 works left first.2)
        λ off. absurd (cc (off, works.enabled))
