-- ===== src/Dispatcher/Budget.antt =====
-- How many attempts a dispatch makes.
use void_switch.Base.{
  ℕ, zero, suc, ◌+◌, String, Bool, ◌==◌, ◌&&◌, str_eq, str_eq_iff, sym, ◌∙◌, Option, none, some,
  List, [], ◌∷◌, true, false, leb, ◌≡◌, refl, ap, ◌≤◌, arith, max, if◌then◌else◌,
}
use void_switch.ErrorPolicy.{TextLib}
use void_switch.Keys.{ApiKey}
use void_switch.Selector.{Rng, Redis}
use void_switch.UpstreamHealth.{HeaderLib, Cooldowns}
use void_switch.Dispatcher.{
  Env, State, Request, Settings, Site, Turn, Next, again, leave, reply, Reply, Summary, tried,
  skipped_disabled, skipped_no_keys, initial,
}
use void_switch.Dispatcher.Answers.{try_key, attempt_limit, moved, fail}
use void_switch.Dispatcher.Loops.{
  Plan, upstream_limit, after_round, run_turns, run_key, dispatch, run_entries, or_exhausted,
}
use void_switch.Dispatcher.Rounds.{try_key_counts}
use void_switch.Dispatcher.Steps.{Rules, run_entries_rule}

-- The numbers of the noted attempts, and n, …, 2, 1.
abbrev pub numbers : List Summary → List ℕ
numbers [] = []
numbers (tried n p key model o ∷ more) = n ∷ numbers more
numbers (skipped_disabled p ∷ more) = numbers more
numbers (skipped_no_keys p ∷ more) = numbers more

abbrev pub down_from : ℕ → List ℕ
down_from zero = []
down_from (suc n) = suc n ∷ down_from n

down_next : (n : ℕ) → down_from (n + 1) ≡ (n + 1) ∷ down_from n
down_next n = let e : n + 1 ≡ suc n = omega arith in rw e refl

-- The upstreams of the noted attempts: the provider and its model.
abbrev pub upstreams_of : List Summary → List (ℕ × String)
upstreams_of [] = []
upstreams_of (tried n p key model o ∷ more) = (p, model) ∷ upstreams_of more
upstreams_of (skipped_disabled p ∷ more) = upstreams_of more
upstreams_of (skipped_no_keys p ∷ more) = upstreams_of more

abbrev pub is_at : ℕ × String → ℕ × String → Bool
is_at (p, model) (q, other) = p == q && str_eq model other

abbrev pub continues : ℕ × String → List (ℕ × String) → Bool
continues x [] = false
continues x (y ∷ more) = is_at x y

-- How many times a list turns to an upstream.
abbrev pub turns_to : List (ℕ × String) → ℕ
turns_to [] = 0
turns_to (x ∷ more) = (if continues x more then 0 else 1) + turns_to more

is_at_refl : (x : ℕ × String) → is_at x x ≡ true
is_at_refl (p, model) = ground (arith, (str_eq_iff model model).1 refl)

turns_to-again : (x : ℕ × String) (l : List (ℕ × String)) → turns_to (x ∷ x ∷ l) ≡ turns_to (x ∷ l)
turns_to-again x l = rw (is_at_refl x) (omega arith)

module _ (env : Env) (text : TextLib) (lib : HeaderLib) (rng : Rng) (settings : Settings)
    (req : Request) where
  pub record Within (max_upstreams : ℕ) (s : State env) : Type 0 where
    pub attempts : s.provider_attempts ≤ attempt_limit settings
    pub upstreams : s.upstreams_tried ≤ max_upstreams
    pub noted : numbers s.summaries ≡ down_from s.provider_attempts
    pub turns : turns_to (upstreams_of s.summaries) ≤ s.upstreams_tried

  abbrev upstream_at : Site → ℕ × String
  upstream_at at = (at.provider.id, at.upstream_model)

  -- The upstream at work is counted already.
  record WithinAt (max_upstreams : ℕ) (at : Site) (s : State env) : Type 0 where
    within : Within max_upstreams s
    counted : turns_to (upstream_at at ∷ upstreams_of s.summaries) ≤ s.upstreams_tried

  abbrev Anything : Reply → State env → Type 0
  Anything r s = Unit

  module _ (max_upstreams : ℕ) where
    try_key-Within :
        (at : Site) (key : ℕ) (turn : Turn) (s : State env)
        → leb (attempt_limit settings) s.provider_attempts ≡ false
        → WithinAt max_upstreams at s
        → WithinAt max_upstreams at (try_key env text lib settings req at key turn s).1
    try_key-Within at key turn s left w =
        let (one, same, note) = try_key_counts env text lib settings req at key turn s in
        record {
          within = record {
            attempts = rw one (ground arith);
            upstreams = rw same w.within.upstreams;
            noted = rw (note, one, down_next) (ap (◌∷◌ (s.provider_attempts + 1)) w.within.noted);
            turns = rw (note, same) w.counted;
          };
          counted =
              rw (note, same)
                (rw (turns_to-again (upstream_at at) (upstreams_of s.summaries)) w.counted);
        }

    kept :
        (s t : State env)
        → (t.provider_attempts ≡ s.provider_attempts)
        → (t.upstreams_tried ≡ s.upstreams_tried)
        → (numbers t.summaries ≡ numbers s.summaries)
        → (upstreams_of t.summaries ≡ upstreams_of s.summaries)
        → Within max_upstreams s
        → Within max_upstreams t
    kept s t a u n l w = record {
      attempts = rw a w.attempts;
      upstreams = rw u w.upstreams;
      noted = n ∙ w.noted ∙ ap down_from (sym a);
      turns = rw (l, u) w.turns;
    }

    Within-rules :
        Rules env text lib rng settings req max_upstreams
          (Within max_upstreams)
          (WithinAt max_upstreams)
          Anything
    Within-rules = record {
      starts = λ row p s redis e on room w. record {
        within = record {
          attempts = w.attempts;
          upstreams = ground arith;
          noted = w.noted;
          turns = omega (arith, w.turns);
        };
        counted = ground (arith, w.turns);
      };
      leaves = λ at s w. w.within;
      attempts = λ at key turn s left w. try_key-Within at key turn s left w;
      replies = λ at key turn s r left w e. tt;
      moves = λ at key checked world s w. record {
        within = kept s (moved env key checked world s) refl refl refl refl w.within;
        counted = w.counted;
      };
      misses = λ at e status s w. record {
        within = kept s (fail env e status s) refl refl refl refl w.within;
        counted = w.counted;
      };
      refuses = λ at row before c s found unbuilt w. tt;
      fails = λ s e status w. kept s (fail env e status s) refl refl refl refl w;
      skips = λ s p w.
          kept s (record s { summaries = skipped_disabled p ∷ s.summaries }) refl refl refl refl w;
      lacks = λ s p w.
          kept s (record s { summaries = skipped_no_keys p ∷ s.summaries }) refl refl refl refl w;
      picks = λ s redis w. kept s (record s { redis = redis }) refl refl refl refl w;
    }

  pub or_exhausted_state :
      (out : Option Reply × State env) → (or_exhausted env text lib rng settings req out).1 ≡ out.1
  or_exhausted_state (none, s) = refl
  or_exhausted_state (some r, s) = refl

  -- Whatever the upstreams answer, a dispatch makes at most `max_provider_attempts` attempts (at
  -- least one is allowed), and its summaries number them from one on without a gap. The attempts turn
  -- to an upstream, its provider and model, no more often than the route allows upstreams, and the
  -- count of upstreams stays in that limit too.
  pub dispatch_within_budget :
      (plan : Plan) (world : env.World) (rows : ℕ → ApiKey) (redis : Redis) (cooldowns : Cooldowns)
      → let t =
          (dispatch env text lib rng settings req plan
            (initial env world rows redis cooldowns)).1 in
        (t.provider_attempts ≤ max 1 settings.max_provider_attempts)
        × (t.upstreams_tried ≤ upstream_limit plan)
        × (numbers t.summaries ≡ down_from t.provider_attempts)
        × (turns_to (upstreams_of t.summaries) ≤ upstream_limit plan)
  unfolding dispatch
  dispatch_within_budget plan world rows redis cooldowns =
      let out =
        run_entries env text lib rng settings req (upstream_limit plan) plan.cooldown_ignored
          plan.ranked (initial env world rows redis cooldowns) in
      let w =
        (run_entries_rule env text lib rng settings req (upstream_limit plan)
          (Within (upstream_limit plan)) (WithinAt (upstream_limit plan)) Anything
          (Within-rules (upstream_limit plan)) plan.cooldown_ignored plan.ranked
          (initial env world rows redis cooldowns)
          (record {
            attempts = omega arith;
            upstreams = omega arith;
            noted = refl;
            turns = omega arith;
          })).0 in
      rw (or_exhausted_state out)
        (w.attempts, w.upstreams, w.noted, omega (arith, w.turns, w.upstreams))

after_round_cong :
    (env : Env) (go go' : Turn → State env → Next × State env) (out : Next × State env)
    → ((t : Turn) → go t out.1 ≡ go' t out.1)
    → after_round env go out ≡ after_round env go' out
unfolding after_round
after_round_cong env go go' (again t, s) h = h t
after_round_cong env go go' (leave b, s) h = refl
after_round_cong env go go' (reply r, s) h = refl

module _ (env : Env) (text : TextLib) (lib : HeaderLib) (rng : Rng) (settings : Settings)
    (req : Request) where
  enough_fuel :
      (f g : ℕ) (at : Site) (key : ℕ) (turn : Turn) (s : State env)
      → attempt_limit settings ≤ s.provider_attempts + f
      → attempt_limit settings ≤ s.provider_attempts + g
      → run_turns env text lib rng settings req f at key turn s
        ≡ run_turns env text lib rng settings req g at key turn s
  unfolding run_turns
  enough_fuel zero zero at key turn s h k = refl
  enough_fuel zero (suc g) at key turn s h k =
      let spent : leb (attempt_limit settings) s.provider_attempts ≡ true = ground arith in rw spent
  enough_fuel (suc f) zero at key turn s h k =
      let spent : leb (attempt_limit settings) s.provider_attempts ≡ true = ground arith in rw spent
  enough_fuel (suc f) (suc g) at key turn s h k =
      let one = (try_key_counts env text lib settings req at key turn s).0 in
      let same =
        after_round_cong env (run_turns env text lib rng settings req f at key)
          (run_turns env text lib rng settings req g at key)
          (try_key env text lib settings req at key turn s)
          (λ t. enough_fuel f g at key t _ (omega (arith, one)) (omega (arith, one))) in
      ap (λ x. if leb (attempt_limit settings) s.provider_attempts then (leave false, s) else x)
        same

  -- The rounds with one key end by the loop's own test of the attempt budget: with any fuel that
  -- covers the attempts left, the loop gives what `run_key` gives.
  pub run_turns-run_key :
      (fuel : ℕ) (at : Site) (key : ℕ) (turn : Turn) (s : State env)
      → attempt_limit settings ≤ s.provider_attempts + fuel
      → run_turns env text lib rng settings req fuel at key turn s
        ≡ run_key env text lib rng settings req at key turn s
  unfolding run_key
  run_turns-run_key fuel at key turn s h = enough_fuel fuel _ at key turn s h (omega arith)
