-- ===== src/Dispatcher/Tests.antt =====
-- Dispatches over two providers whose answers are scripted.
use mathlib.Core.List.Perm
use void_switch.Base.{
  ℕ, none, some, List, [], ◌∷◌, true, false, ◌≡◌, refl, ◌≤◌, arith, max, Mem, ◌+◌, ◌==◌,
  if◌then◌else◌, ◌≢◌,
}
use mathlib.Core.List.{mem-cons}
use mathlib.Core.Logic.Or
use void_switch.Base.Json.{null, obj, field, end}
use void_switch.ErrorPolicy.{TextLib}
use void_switch.Keys.{ApiKey, KeyStatus}
use void_switch.Providers.{classify}
use void_switch.Selector.{Rng, Redis}
use void_switch.UpstreamHealth.{HeaderLib, Cooldowns}
use void_switch.Dispatcher.{
  Env, Request, Settings, Site, served, raised, Answer, Outcome, network_error, answered, ApiStyle,
  ProviderRow, initial, site,
}
use void_switch.Dispatcher.Loops.{
  Plan, Ranked, dispatch, run_turns, run_key, fresh_turn, upstream_limit,
}
use void_switch.Dispatcher.Budget.{
  dispatch_within_budget, run_turns-run_key, numbers, down_from, turns_to, upstreams_of,
}
use void_switch.Dispatcher.Liveness.{dispatch-found, is_exhausted}
use void_switch.Dispatcher.Served.{Works}
use void_switch.Selector.{select_keys, rotate_by}
use void_switch.ErrorPolicy.{
  evaluate_provider_error_policy, match_selective_ignore_rule, new_api_active,
}
use void_switch.UpstreamHealth.{trip, reward}
use void_switch.Dispatcher.Loops.{try_keys, selected, run_keys, run_entries}
use void_switch.Dispatcher.Answers.{
  try_key, on_outcome, on_answer, on_class, on_key_invalid, disable, on_server_error, trip_upstream,
  on_fine, on_served,
}

abbrev text : TextLib
text = record {
  decode_replace = λ b. "";
  decode_ignore = λ b. "";
  encode = λ s. [];
  casefold = λ s. s;
  json_loads = λ s. none;
  json_loads_bytes = λ b. none;
  strip_str = λ s. s;
}

abbrev lib : HeaderLib
lib = record { lower = λ s. s; strip = λ s. s; float = λ s. none; parsedate = λ s. none }

abbrev row : ℕ → ApiKey
row n = record {
  id = some n;
  pool = "";
  sort_order = n;
  status = KeyStatus.active;
  failed_count = 0;
  total_requests = 0;
  disabled_reason = none;
  disabled_since = none;
  rate_limit_until = none;
  last_used_at = none;
  last_checked_at = none;
}

head_choice : List ApiKey → ApiKey
head_choice [] = row 0
head_choice (k ∷ ks) = k

head_choice_mem : (l : List ApiKey) → l ≢ [] → Mem (head_choice l) l
unfolding head_choice
head_choice_mem [] h = absurd (h refl)
head_choice_mem (k ∷ ks) h = mem-cons.1 (Or.inl refl)

abbrev rng : Rng
rng = record {
  shuffle = λ l. l;
  choice = head_choice;
  shuffle_perm = Perm.refl;
  choice_mem = head_choice_mem;
}

abbrev redis : Redis
redis = record { cursor = λ p pool. 0; pin = λ p pool s. none; faults = [] }

-- The scripted outcomes are the world; a script that is used up times out.
abbrev next : List Outcome → Outcome × ℕ × List Outcome
next [] = (network_error "timed out" false, 1, [])
next (o ∷ more) = (o, 1, more)

abbrev env : Env
env = record {
  World = List Outcome;
  now = λ w. 100;
  resolve = λ p k force w. (some "secret", none, w);
  prepares = λ p model credential. true;
  translates = λ style body. true;
  attempt = λ call w. next w;
}

abbrev settings : Settings
settings = record {
  max_provider_attempts = 4;
  max_keys_per_attempt = 2;
  rate_limit_recovery = 60;
  rate_limit_max_cooldown = 3600;
  cooldown_status_codes = 429 ∷ 503 ∷ [];
  retry_after_headers = "retry-after" ∷ [];
  cooldown_seconds = 180;
  backoff_cap = 3;
}

abbrev request : Request
request = record { model = "m"; stream = false; session_key = "s" }

abbrev provider : ℕ → List ℕ → ProviderRow
provider n keys = record {
  id = n;
  enabled = true;
  adapter = record {
    style = ApiStyle.openai;
    classify = λ status body. classify status;
    detect_no_quota = λ status body. false;
    refresh_on_invalid_key = false;
    requires_streaming = false;
  };
  key_ids = keys;
  key_select_mode = none;
  max_keys_per_attempt = 0;
  retry_on_zero_token = false;
  protected_error_retry_enabled = false;
  new_api_mode = "disabled";
  selective_ignore_rules = [];
  rate_limit_cooldown_seconds = 0;
  cooldown_status_codes = [];
  retry_after_headers = [];
  cooldown_seconds = 0;
}

abbrev upstream : ℕ → List ℕ → Ranked
upstream n keys = record {
  entry = record {
    id = n;
    provider = some (provider n keys);
    upstream_model = "";
    key_pool = "";
    cooldown_status_codes = [];
    cooldown_seconds = 0;
  };
  cooling = false;
}

abbrev plan : Plan
plan = record {
  ranked = upstream 1 (10 ∷ 11 ∷ []) ∷ upstream 2 (20 ∷ []) ∷ [];
  cooldown_ignored = false;
  max_upstream_attempts = 0;
}

abbrev answer : ℕ → Answer
answer status = record {
  status = status;
  headers = [];
  body_json = null;
  body_bytes = none;
  degenerate_empty = false;
  open_response = false;
}

-- A refused key, an overloaded upstream and a good answer.
abbrev script : List Outcome
script = answered (answer 401) ∷ answered (answer 503) ∷ answered (answer 200) ∷ []

abbrev no_cooldowns : Cooldowns
no_cooldowns key = none

dispatch_within_budget_example :
    let t =
      (dispatch env text lib rng settings request plan
        (initial env script row redis no_cooldowns)).1 in
    (t.provider_attempts ≤ max 1 4)
    × (t.upstreams_tried ≤ upstream_limit plan)
    × (numbers t.summaries ≡ down_from t.provider_attempts)
    × (turns_to (upstreams_of t.summaries) ≤ upstream_limit plan)
dispatch_within_budget_example =
    dispatch_within_budget env text lib rng settings request plan script row redis no_cooldowns

abbrev first_site : Site
first_site = site request (upstream 1 (10 ∷ [])).entry (provider 1 (10 ∷ []))

run_turns-run_key_example :
    run_turns env text lib rng settings request 9 first_site 10
      (fresh_turn "secret")
      (initial env script row redis no_cooldowns)
    ≡ run_key env text lib rng settings request first_site 10
        (fresh_turn "secret")
        (initial env script row redis no_cooldowns)
run_turns-run_key_example =
    run_turns-run_key env text lib rng settings request 9 first_site 10 (fresh_turn "secret")
      (initial env script row redis no_cooldowns) (omega arith)

-- The refused key ends, the second key of the overloaded upstream stays as it was, and the other
-- provider serves.
dispatch_runs :
    let (r, t) =
      dispatch env text lib rng settings request plan (initial env script row redis no_cooldowns) in
    (r ≡ served 2 20 (answer 200))
    × (t.provider_attempts ≡ 3)
    × ((t.rows 10).status ≡ KeyStatus.invalid)
    × (t.rows 11 ≡ row 11)
unfolding dispatch try_keys selected select_keys rotate_by run_keys run_key run_turns try_key
    on_outcome on_answer on_class on_key_invalid disable on_server_error trip_upstream on_fine
    on_served evaluate_provider_error_policy match_selective_ignore_rule new_api_active trip reward
    run_entries classify void_switch.Dispatcher.total_tokens
dispatch_runs = (refl, refl, refl, refl)

-- The second provider always answers, the first never does.
abbrev halves : Env
halves = record {
  World = ℕ;
  now = λ w. w;
  resolve = λ p k force w. (some "secret", some w, w + 1);
  prepares = λ p model credential. true;
  translates = λ style body. true;
  attempt = λ call w. (
    if call.provider.id == 2 then answered (answer 200) else network_error "down" false,
    1,
    w + 1,
  );
}

abbrev roomy : Settings
roomy = record settings { max_provider_attempts = 9 }

second-Works :
    Works halves text lib rng roomy request 20
      (row 20)
      (upstream 2 (20 ∷ []))
      (provider 2 (20 ∷ []))
unfolding evaluate_provider_error_policy match_selective_ignore_rule new_api_active classify
second-Works = record {
  provider_same = refl;
  enabled = refl;
  listed = refl;
  active = refl;
  pooled = refl;
  resolves = λ q w. refl;
  answers = λ turn w. (answer 200, refl, refl, refl, refl);
}

dispatch-found_example :
    is_exhausted
      (dispatch halves text lib rng roomy request plan
        (initial halves 100 row redis no_cooldowns)).0
    ≡ false
dispatch-found_example =
    dispatch-found halves text lib rng roomy request 100 row redis no_cooldowns plan
      (upstream 1 (10 ∷ 11 ∷ []) ∷ []) [] (upstream 2 (20 ∷ [])) (provider 2 (20 ∷ [])) 20
      (λ n. refl) refl second-Works (refl, tt) (omega arith) (omega arith)

-- A good answer whose usage is null: the dispatch raises, whether or not empty answers are retried.
null_usage_raises :
    (dispatch env text lib rng settings request plan (
      initial env
        (answered (record (answer 200) { body_json = obj (field "usage" null end) }) ∷ [])
        row
        redis
        no_cooldowns)).0
    ≡ raised
unfolding dispatch try_keys selected select_keys rotate_by run_keys run_key run_turns try_key
    on_outcome on_answer on_class on_fine on_served evaluate_provider_error_policy
    match_selective_ignore_rule new_api_active reward run_entries classify
    void_switch.Dispatcher.total_tokens void_switch.Base.Json.get
null_usage_raises = refl

-- A first request that cannot be built: the dispatch raises before any attempt.
unbuilt_raises :
    let t =
      dispatch
        (record env { prepares = λ p model credential. false })
        text
        lib
        rng
        settings
        request
        plan
        (initial
          (record env { prepares = λ p model credential. false })
          script
          row
          redis
          no_cooldowns) in
    (t.0 ≡ raised) × (t.1.provider_attempts ≡ 0)
unfolding dispatch try_keys selected select_keys rotate_by run_keys run_key run_entries
unbuilt_raises = (refl, refl)
