-- ===== src/Dispatcher.antt =====
-- backend/voidswitch/services/dispatcher.py: what a dispatch reads and changes. The loops of
-- _do_dispatch are in Dispatcher/Answers (one answer of an upstream) and Dispatcher/Loops (keys and
-- upstreams in turn). What the code sends and receives is behind `Env`: the clock, the credentials
-- (_resolve_token), the building of a request (_prepare_body), one attempt (_attempt and
-- _aggregate_stream) and the translation of its answer (_translate_response). Error texts are kept
-- by their parts. Commits and the request log are left out: neither is read again.
pub mod Answers
pub mod Loops
pub mod Rounds
pub mod Steps
pub mod Budget
pub mod Chances
pub mod Results
pub mod Replies
pub mod Frame
pub mod Blame
pub mod Survives
pub mod Others
pub mod Served
pub mod Liveness
mod Tests
use void_switch.Base.{
  ℕ, ◌+◌, String, Option, none, some, List, [], ◌∷◌, ◌++◌, Bool, true, false, ◌==◌, if◌then◌else◌,
}
use void_switch.Base.Json.{Json, Items, Fields, null, num, obj, get}
use void_switch.ErrorPolicy.{Body, bytes, value, Rule}
use void_switch.Keys.{KeySelectMode, ApiKey}
use void_switch.Providers.{ErrorClass}
use void_switch.Selector.{Redis}
use void_switch.UpstreamHealth.{UpstreamKey, Cooldowns, TripSettings}

pub data ApiStyle : Type 0 where
  openai anthropic openai_responses : ApiStyle

-- What the dispatcher asks of a provider's adapter.
pub record Adapter : Type 0 where
  pub style : ApiStyle
  pub classify : ℕ → Json → ErrorClass
  pub detect_no_quota : ℕ → Json → Bool
  pub refresh_on_invalid_key : Bool
  pub requires_streaming : Bool

-- The columns of a Provider row that a dispatch reads. 0, the empty list and the empty text stand
-- for "not set".
pub record ProviderRow : Type 0 where
  pub id : ℕ
  pub enabled : Bool
  pub adapter : Adapter
  pub key_ids : List ℕ
  pub key_select_mode : Option KeySelectMode
  pub max_keys_per_attempt : ℕ
  pub retry_on_zero_token : Bool
  pub protected_error_retry_enabled : Bool
  pub new_api_mode : String
  pub selective_ignore_rules : List Rule
  pub rate_limit_cooldown_seconds : ℕ
  pub cooldown_status_codes : List ℕ
  pub retry_after_headers : List String
  pub cooldown_seconds : ℕ

-- A RouteUpstream row.
pub record Entry : Type 0 where
  pub id : ℕ
  pub provider : Option ProviderRow
  pub upstream_model : String
  pub key_pool : String
  pub cooldown_status_codes : List ℕ
  pub cooldown_seconds : ℕ

pub record Request : Type 0 where
  pub model : String
  pub stream : Bool
  pub session_key : String

pub record Settings : Type 0 where
  pub max_provider_attempts : ℕ
  pub max_keys_per_attempt : ℕ
  pub rate_limit_recovery : ℕ
  pub rate_limit_max_cooldown : ℕ
  pub cooldown_status_codes : List ℕ
  pub retry_after_headers : List String
  pub cooldown_seconds : ℕ
  pub backoff_cap : ℕ

-- An HTTP answer of an upstream. `body_json` is null where the body is no JSON; `open_response` says
-- that `response` is not None, as the stream is still to be relayed.
pub record Answer : Type 0 where
  pub status : ℕ
  pub headers : List (String × String)
  pub body_json : Json
  pub body_bytes : Option (List ℕ)
  pub degenerate_empty : Bool
  pub open_response : Bool

pub data Outcome : Type 0 where
  network_error : String → Bool → Outcome
  answered : Answer → Outcome

-- One call of `_attempt`: the provider, the model there, the credential and the stream flags.
pub record Call : Type 0 where
  pub provider : ProviderRow
  pub upstream_model : String
  pub credential : String
  pub stream : Bool
  pub spool_first_content : Bool

-- `resolve` is none where the resolution raises; its flag forces a refresh. It also tells when it
-- checked the key anew, where it did: the adapters for OAuth bundles write that into the key's row.
-- `prepares` says whether the request for a provider, a model and a credential can be built, and
-- `translates` whether the JSON object of an answer can be translated; else these raise. `attempt`
-- also tells how many network attempts it took.
pub record Env : Type 1 where
  pub World : Type 0
  pub now : World → ℕ
  pub resolve : ProviderRow → ApiKey → Bool → World → Option String × Option ℕ × World
  pub prepares : ProviderRow → (upstream_model credential : String) → Bool
  pub translates : ApiStyle → Fields → Bool
  pub attempt : Call → World → Outcome × ℕ × World

pub data LastError : Type 0 where
  no_upstream : LastError
  no_eligible_keys : ℕ → String → LastError
  credential_failed : LastError
  network_failed : String → LastError
  shielded : String → ℕ → LastError
  zero_tokens : LastError
  key_disabled : ErrorClass → LastError
  rate_limited_for : ℕ → LastError
  not_served : String → ℕ → LastError
  upstream_status : ℕ → LastError

-- An element of `attempt_summaries`.
pub data Summary : Type 0 where
  tried : ℕ → ℕ → ℕ → String → Outcome → Summary
  skipped_disabled : Option ℕ → Summary
  skipped_no_keys : ℕ → Summary

-- What `_do_dispatch` returns. `raised` is an exception that leaves it.
pub data Reply : Type 0 where
  served : ℕ → ℕ → Answer → Reply
  client_error : Answer → Reply
  upstream_error : Answer → Reply
  unavailable : ℕ → LastError → Reply
  raised : Reply

-- The variables of `_do_dispatch` and the rows that it changes. `health` lists the calls of
-- `upstream_health.record`, the last call first; `summaries` too has the last one first.
pub record State (env : Env) : Type 0 where
  pub world : env.World
  pub provider_attempts : ℕ
  pub network_attempts : ℕ
  pub upstreams_tried : ℕ
  pub last_error : LastError
  pub last_status : ℕ
  pub last_http : Option Answer
  pub return_last_http : Bool
  pub summaries : List Summary
  pub rows : ℕ → ApiKey
  pub redis : Redis
  pub cooldowns : Cooldowns
  pub health : List (UpstreamKey × Bool)

abbrev pub initial : (env : Env) → env.World → (ℕ → ApiKey) → Redis → Cooldowns → State env
initial env world rows redis cooldowns = record {
  world = world;
  provider_attempts = 0;
  network_attempts = 0;
  upstreams_tried = 0;
  last_error = no_upstream;
  last_status = 502;
  last_http = none;
  return_last_http = false;
  summaries = [];
  rows = rows;
  redis = redis;
  cooldowns = cooldowns;
  health = [];
}

-- The variables of the loop over one key: its credential, and whether the refresh and the repeat of
-- a shielded answer are used up.
pub record Turn : Type 0 where
  pub credential : String
  pub oauth_refreshed : Bool
  pub protected_repeat_used : Bool

-- How a round of that loop ends: with another round, with the key left (the flag is
-- `abandon_upstream`), or with a reply.
pub data Next : Type 0 where
  again : Turn → Next
  leave : Bool → Next
  reply : Reply → Next

-- What does not change while an upstream's keys are tried.
pub record Site : Type 0 where
  pub entry : Entry
  pub provider : ProviderRow
  pub upstream_model : String
  pub health_key : UpstreamKey

abbrev pub or_text : String → String → String
or_text s other = other_if_empty s
  where
    other_if_empty : String → String
    other_if_empty String.[] = other
    other_if_empty (String.◌∷◌ c rest) = String.◌∷◌ c rest

abbrev pub site : Request → Entry → ProviderRow → Site
site req entry provider =
    let model = or_text entry.upstream_model req.model in
    record {
      entry = entry;
      provider = provider;
      upstream_model = model;
      health_key = record { provider_id = provider.id; model = model; pool = entry.key_pool };
    }

-- The settings of a cooldown of the site's upstream.
abbrev pub trip_settings : Settings → Site → TripSettings
trip_settings s at = record {
  route_codes = at.entry.cooldown_status_codes;
  provider_codes = at.provider.cooldown_status_codes;
  global_codes = s.cooldown_status_codes;
  provider_headers = at.provider.retry_after_headers;
  global_headers = s.retry_after_headers;
  route_seconds = at.entry.cooldown_seconds;
  provider_seconds = at.provider.cooldown_seconds;
  global_seconds = s.cooldown_seconds;
  backoff_cap = s.backoff_cap;
  max_cooldown = s.rate_limit_max_cooldown;
}

-- `ErrorClass.value`
abbrev pub class_text : ErrorClass → String
class_text ErrorClass.fine = "ok"
class_text ErrorClass.key_invalid = "key_invalid"
class_text ErrorClass.insufficient_balance = "insufficient_balance"
class_text ErrorClass.rate_limited = "rate_limited"
class_text ErrorClass.upstream_overloaded = "upstream_overloaded"
class_text ErrorClass.not_found = "not_found"
class_text ErrorClass.bad_request = "bad_request"
class_text ErrorClass.server_error = "server_error"

-- The body that the error policy looks at. A body that was not read is None, which holds no text.
abbrev pub policy_body : Answer → Body
policy_body a = elim a.body_json [
  | null ↦ elim a.body_bytes [ none ↦ value null | some raw ↦ bytes raw ]
  | j ↦ value a.body_json
]

-- `_extract_usage(...)["total_tokens"]`; none where it raises, on a `usage` that is no object. A
-- count that is no natural number counts as one that does not add up, and raises too.
abbrev count_in : String → Fields → Option ℕ
count_in name usage = elim (get name usage) [
  | none ↦ some 0
  | some j ↦ elim j [ num n ↦ some n | _ ↦ none ]
]

abbrev add_counts : Option ℕ → Option ℕ → Option ℕ
add_counts (some a) (some b) = some (a + b)
add_counts _ _ = none

abbrev counts : ApiStyle → Fields → Option ℕ
counts openai usage =
    add_counts (count_in "prompt_tokens" usage) (count_in "completion_tokens" usage)
counts _ usage = add_counts (count_in "input_tokens" usage) (count_in "output_tokens" usage)

usage_of : ApiStyle → Option Json → Option ℕ
unfolding get
usage_of style none = some 0
usage_of style (some (obj usage)) = counts style usage
usage_of style (some j) = none

unfoldable pub total_tokens : ApiStyle → Json → Option ℕ
unfolding usage_of
total_tokens style (obj fields) = usage_of style (get "usage" fields)
total_tokens style body = some 0
