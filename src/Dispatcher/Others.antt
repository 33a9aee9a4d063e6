-- ===== src/Dispatcher/Others.antt =====
-- An upstream that does not hold a key leaves the key as it is, within its keys' attempts.
use void_switch.Base.{
  ℕ, ◌+◌, ◌*◌, ◌≤◌, Option, none, some, List, [], ◌∷◌, map, Perm, Bool, false, ◌≡◌, arith, if_rule,
  ◌==◌, ◌&&◌, any, any-keep, keep, length,
}
use void_switch.ErrorPolicy.{TextLib}
use void_switch.Keys.{ApiKey}
use void_switch.Selector.{Rng, Redis, select_keys}
use void_switch.Selector.Orders.{usable, select_keys-perm}
use void_switch.UpstreamHealth.{HeaderLib}
use void_switch.Dispatcher.{Env, State, Request, Settings, Reply, Entry, ProviderRow, site}
use void_switch.Dispatcher.Answers.{now_of}
use void_switch.Dispatcher.Loops.{Ranked, key_limit, selected, try_keys, at_provider}
use void_switch.Dispatcher.Survives.{
  Kept, WithinOf, is_key, not-listed, any-Perm_false, any-take, length-take_le, run_keys-Within,
}

module _ (env : Env) (text : TextLib) (lib : HeaderLib) (rng : Rng) (settings : Settings)
    (req : Request) (k : ℕ) (row : ApiKey) where
  abbrev pub picked : Bool → Entry → ProviderRow → State env → List ApiKey × Redis
  picked ignored entry p s = selected env text lib rng settings req ignored entry p s

  -- An upstream that does not hold the key, and the attempts that its keys may take.
  abbrev pub AvoidsKey : Option ProviderRow → Type 0
  AvoidsKey none = Unit
  AvoidsKey (some p) = any (λ n. n == k) p.key_ids ≡ false

  abbrev pub Avoids : Ranked → Type 0
  Avoids r = AvoidsKey r.entry.provider

  abbrev pub attempts_at : Option ProviderRow → ℕ
  attempts_at none = 0
  attempts_at (some p) = 3 * key_limit settings p

  abbrev pub attempts_at_all : List Ranked → ℕ
  attempts_at_all [] = 0
  attempts_at_all (r ∷ ranked) = attempts_at r.entry.provider + attempts_at_all ranked

  pub order-perm :
      (ignored : Bool) (entry : Entry) (p : ProviderRow) (s : State env)
      → Perm
          (select_keys rng
            (record {
              id = some p.id;
              key_select_mode = p.key_select_mode;
              keys = map s.rows p.key_ids;
            })
            entry.key_pool
            settings.rate_limit_recovery
            (some req.session_key)
            ignored
            (now_of env s)
            s.redis).0
          (keep
            (usable entry.key_pool (now_of env s) settings.rate_limit_recovery ignored)
            (map s.rows p.key_ids))
  order-perm ignored entry p s = select_keys-perm rng _ _ _ _ _ _ _

  selected_others :
      (ignored : Bool) (entry : Entry) (p : ProviderRow) (s : State env)
      → Kept env k row s
      → any (λ n. n == k) p.key_ids ≡ false
      → (any (is_key env k row) (picked ignored entry p s).0 ≡ false)
        × (length (picked ignored entry p s).0 ≤ key_limit settings p)
  unfolding selected
  selected_others ignored entry p s h e = (
    any-take (is_key env k row) (key_limit settings p) _ (
        any-Perm_false (is_key env k row) _ _ (order-perm ignored entry p s) (
          any-keep (is_key env k row) _ (map s.rows p.key_ids)
            (not-listed env k row s p.key_ids h e))),
    length-take_le (key_limit settings p) _,
  )

  try_keys-Within :
      (entry : Entry) (p : ProviderRow) (keys : List ApiKey × Redis) (s : State env)
      → Kept env k row s
      → any (is_key env k row) keys.0 ≡ false
      → length keys.0 ≤ key_limit settings p
      → WithinOf env k row
          (3 * key_limit settings p)
          1
          s
          (try_keys env text lib rng settings req entry p keys s).1
  unfolding try_keys
  try_keys-Within entry p ([], redis) s h e l = record {
    attempts = omega arith;
    upstreams = omega arith;
    kept = record { ids = h.ids; row_same = h.row_same };
  }
  try_keys-Within entry p (q ∷ keys, redis) s h e l =
      let out =
        run_keys-Within env k row text lib rng settings req (site req entry p) (q ∷ keys)
          (record s { redis = redis; upstreams_tried = s.upstreams_tried + 1 }) e
          (record { ids = h.ids; row_same = h.row_same }) in
      record {
        attempts = omega (arith, out.attempts, l);
        upstreams = omega (arith, out.upstreams);
        kept = out.kept;
      }

  pub at_provider-Within :
      (ignored : Bool) (r : Ranked) (o : Option ProviderRow) (s : State env)
      → Kept env k row s
      → AvoidsKey o
      → WithinOf env k row
          (attempts_at o)
          1
          s
          (at_provider env text lib rng settings req ignored r o s).1
  unfolding at_provider
  at_provider-Within ignored r none s h e = record {
    attempts = omega arith;
    upstreams = omega arith;
    kept = record { ids = h.ids; row_same = h.row_same };
  }
  at_provider-Within ignored r (some p) s h e =
      if_rule
        (λ (out : Option Reply × State env).
          WithinOf env k row (3 * key_limit settings p) 1 s out.1)
        p.enabled _ _
        (λ on.
          let others = selected_others (ignored && r.cooling) r.entry p s h e in
          try_keys-Within r.entry p (picked (ignored && r.cooling) r.entry p s) s h others.0
            others.1)
        λ off. record {
          attempts = omega arith;
          upstreams = omega arith;
          kept = record { ids = h.ids; row_same = h.row_same };
        }
