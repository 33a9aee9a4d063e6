-- ===== src/Dispatcher/Answers.antt =====
-- One round of the inner loop of _do_dispatch (backend/voidswitch/services/dispatcher.py): an
-- attempt with one key, and what its outcome does to the key, to the upstream and to the search.
use void_switch.Base.{
  ℕ, ◌+◌, ◌-◌, ◌/◌, max, String, Option, none, some, is_some, List, [], ◌∷◌, Bool, true, false,
  ◌&&◌, ◌||◌, not, ltb, ◌==◌, if◌then◌else◌, str_eq,
}
use void_switch.Base.Json.{obj}
use void_switch.ErrorPolicy.{
  TextLib, use_adapter, protect, ProviderErrorDecision, evaluate_provider_error_policy,
}
use void_switch.Keys.{ApiKey, KeyStatus, http_error}
use void_switch.Keys.Changes.{
  disable_key, fits_calendar, half_parked, mark_rate_limited, cooldown_of, reward_key, second,
  CooldownSettings,
}
use void_switch.Providers.{ErrorClass}
use void_switch.UpstreamHealth.{
  HeaderLib, below_zero, micros, TripReason, http_status, network_failure, policy_status, trip,
  reward,
}
use void_switch.Dispatcher.{
  Env, State, Request, Settings, Site, Turn, Next, again, leave, reply, Reply, served, client_error,
  raised, Outcome, network_error, answered, Answer, LastError, network_failed, shielded,
  zero_tokens, key_disabled, rate_limited_for, not_served, upstream_status, tried, Call, or_text,
  trip_settings, class_text, policy_body, total_tokens,
}

-- _parse_retry_after: the first header of that name decides.
unfoldable pub retry_after_header : HeaderLib → List (String × String) → Option String
retry_after_header lib [] = none
retry_after_header lib ((k, v) ∷ headers) =
    let rest = retry_after_header lib headers in
    if str_eq (lib.lower k) "retry-after" then some (lib.strip v) else rest

abbrev read_wait : HeaderLib → ℕ → String → Option ℕ
read_wait lib now raw = elim (lib.float raw) [
  | some v ↦ elim v [ below_zero ↦ none | micros t ↦ some t ]
  | none ↦ elim (lib.parsedate raw) [ none ↦ none | some when ↦ some (when - now) ]
]

unfoldable pub parse_retry_after : HeaderLib → ℕ → List (String × String) → Option ℕ
unfolding retry_after_header
parse_retry_after lib now headers = elim (retry_after_header lib headers) [
  | none ↦ none
  | some raw ↦ if str_eq raw "" then none else read_wait lib now raw
]

abbrev pub is_protected : ProviderErrorDecision → Bool
is_protected d = elim d.action [ protect ↦ true | use_adapter ↦ false ]

abbrev pub is_fine : ErrorClass → Bool
is_fine ErrorClass.fine = true
is_fine _ = false

abbrev pub is_limited : ErrorClass → Bool
is_limited ErrorClass.rate_limited = true
is_limited _ = false

abbrev pub is_key_invalid : ErrorClass → Bool
is_key_invalid ErrorClass.key_invalid = true
is_key_invalid _ = false

-- The class after the look for a used-up quota.
abbrev pub class_of : Site → Answer → ErrorClass
class_of at a =
    let found = at.provider.adapter.classify a.status a.body_json in
    if is_limited found && at.provider.adapter.detect_no_quota a.status a.body_json
    then ErrorClass.insufficient_balance
    else found

abbrev pub decision_of : TextLib → Site → Answer → ProviderErrorDecision
decision_of text at a =
    evaluate_provider_error_policy text at.provider.new_api_mode at.provider.selective_ignore_rules
      a.status a.headers (policy_body a) (class_text (class_of at a))

abbrev pub upstream_stream : Request → Site → Bool
upstream_stream req at = req.stream || at.provider.adapter.requires_streaming

-- Whether a good answer is empty; none where the count of its tokens raises.
abbrev pub is_degenerate : Request → Site → Answer → Option Bool
is_degenerate req at a =
    if at.provider.retry_on_zero_token
    then (elim (total_tokens at.provider.adapter.style a.body_json) [
      | none ↦ none
      | some total ↦ some (if upstream_stream req at then a.degenerate_empty else total == 0)
    ])
    else some false

-- A key whose credential was checked anew.
abbrev pub checked_row : Option ℕ → ApiKey → ApiKey
checked_row none k = k
checked_row (some now) k = record k { last_checked_at = some now }

abbrev pub attempt_limit : Settings → ℕ
attempt_limit s = max 1 s.max_provider_attempts

module _ (env : Env) where
  abbrev pub now_of : State env → ℕ
  now_of s = env.now s.world

  abbrev pub set_row : ℕ → (ApiKey → ApiKey) → State env → State env
  set_row key change s = record s { rows = λ n. if n == key then change (s.rows n) else s.rows n }

  abbrev pub fail : LastError → ℕ → State env → State env
  fail error status s = record s { last_error = error; last_status = status }

  -- After a resolution of the credential of `key`.
  abbrev pub moved : ℕ → Option ℕ → env.World → State env → State env
  moved key checked world s = set_row key (checked_row checked) (record s { world = world })

  abbrev pub record_health : Site → Bool → State env → State env
  record_health at success s = record s { health = (at.health_key, success) ∷ s.health }

  -- `key.failed_count += 1`
  abbrev pub count_failure : ApiKey → ApiKey
  count_failure k = record k { failed_count = k.failed_count + 1 }

  -- The counters of a key that served, and `_reward_key`.
  abbrev pub count_success : ℕ → ApiKey → ApiKey
  count_success now k = reward_key now (record k {
    total_requests = k.total_requests + 1;
    last_used_at = some now;
    failed_count = 0;
  })

  module _ (text : TextLib) (lib : HeaderLib) (settings : Settings) (req : Request) where
    unfoldable pub trip_upstream :
        Site → ℕ → List (String × String) → TripReason → State env → Bool × State env
    trip_upstream at status headers reason s =
        let (cooled, cooldowns) =
          trip lib (trip_settings settings at) (now_of s) at.health_key status headers reason
            s.cooldowns in
        (cooled, record s { cooldowns = cooldowns })

    unfoldable pub on_network_error : Site → String → Bool → State env → Next × State env
    on_network_error at error blame_proxy s =
        let failed = fail (network_failed (or_text error "network error")) 502 s in
        let (cooled, tripped) =
          trip_upstream at 0 [] (network_failure (or_text error "network error"))
            (record_health at false failed) in
        if blame_proxy then (leave false, failed) else (leave cooled, tripped)

    unfoldable pub on_protected : Site → Turn → Answer → String → State env → Next × State env
    on_protected at turn a final s =
        let failed = record_health at false (fail (shielded final a.status) a.status s) in
        let (cooled, tripped) =
          trip_upstream at a.status a.headers (policy_status final a.status) failed in
        if at.provider.protected_error_retry_enabled
          && (not turn.protected_repeat_used && ltb s.provider_attempts (attempt_limit settings))
        then (again (record turn { protected_repeat_used = true }), failed)
        else (leave true, tripped)

    unfoldable pub on_empty : Site → ℕ → State env → Next × State env
    on_empty at key s =
        (leave false, record_health at false (set_row key count_failure (fail zero_tokens 200 s)))

    -- Whether _finalise_success returns: a stream is handed on, and the usage of any other answer is
    -- read and a JSON object translated.
    abbrev pub finishes : Site → Answer → Bool
    finishes at a =
        (req.stream && a.open_response)
        || (is_some (total_tokens at.provider.adapter.style a.body_json) && elim a.body_json [
          | obj body ↦ env.translates at.provider.adapter.style body
          | j ↦ true
        ])

    abbrev pub final_reply : Site → ℕ → Answer → Reply
    final_reply at key a = if finishes at a then served at.provider.id key a else raised

    -- `upstream_health.record` and `reward` of a success, then _finalise_success.
    unfoldable pub on_served : Site → ℕ → Answer → State env → Next × State env
    on_served at key a s =
        let used = set_row key (count_success (now_of s)) s in
        let recorded = if req.stream then used else record_health at true used in
        (
          reply (final_reply at key a),
          record recorded { cooldowns = reward (now_of s) at.health_key s.cooldowns },
        )

    unfoldable pub on_fine : Site → ℕ → Answer → State env → Next × State env
    on_fine at key a s = elim (is_degenerate req at a) [
      | none ↦ (reply raised, s)
      | some empty ↦ if empty then on_empty at key s else on_served at key a s
    ]

    unfoldable pub disable : ℕ → Answer → ErrorClass → KeyStatus → State env → Next × State env
    unfolding disable_key
    disable key a found status s = (
      leave false,
      set_row key (disable_key status (http_error a.status found) (now_of s))
          (fail (key_disabled found) a.status s),
    )

    -- The turn with the new credential, where the request can be built with it.
    abbrev pub renewed : Site → Turn → Option String → Option Turn
    renewed at turn none = none
    renewed at turn (some credential) =
        if env.prepares at.provider at.upstream_model credential
        then some (record turn { credential = credential; oauth_refreshed = true })
        else none

    abbrev pub after_refresh : ℕ → Answer → Option Turn → State env → Next × State env
    after_refresh key a (some turn) s = (again turn, s)
    after_refresh key a none s = disable key a ErrorClass.key_invalid KeyStatus.invalid s

    -- A refusal of the key: the one forced refresh of its credential, or the end of the key.
    unfoldable pub on_key_invalid : Site → ℕ → Turn → Answer → State env → Next × State env
    on_key_invalid at key turn a s =
        if at.provider.adapter.refresh_on_invalid_key && not turn.oauth_refreshed
        then (let out = env.resolve at.provider (s.rows key) true s.world in
            after_refresh key a (renewed at turn out.0) (moved key out.1 out.2 s))
        else disable key a ErrorClass.key_invalid KeyStatus.invalid s

    abbrev pub key_cooldowns : Site → CooldownSettings
    key_cooldowns at = record {
      provider_cooldown = at.provider.rate_limit_cooldown_seconds;
      global_cooldown = settings.rate_limit_recovery;
      max_cooldown = settings.rate_limit_max_cooldown;
    }

    -- How long a rate limit that is met at a time parks its key.
    abbrev pub key_cooldown : Site → Answer → ℕ → ℕ
    key_cooldown at a now = cooldown_of (parse_retry_after lib now a.headers) (key_cooldowns at)

    unfoldable pub on_rate_limited : Site → ℕ → Answer → State env → Next × State env
    on_rate_limited at key a s =
        let (cooled, tripped) =
          trip_upstream at a.status a.headers (http_status a.status) (record_health at false s) in
        let now = now_of s in
        if fits_calendar now (key_cooldown at a now)
        then (
          leave false,
          fail (rate_limited_for (key_cooldown at a now / second)) 429 (
              set_row key
                (mark_rate_limited (parse_retry_after lib now a.headers) (key_cooldowns at) now)
                tripped),
        )
        else (reply raised, set_row key (half_parked now) tripped)

    unfoldable pub on_not_found : Site → State env → Next × State env
    on_not_found at s = (
      leave true,
      record_health at false (fail (not_served at.upstream_model at.provider.id) 404 s),
    )

    unfoldable pub on_server_error : Site → ℕ → Answer → Bool → State env → Next × State env
    on_server_error at key a blame_key s =
        let counted = if blame_key then set_row key count_failure s else s in
        let (cooled, tripped) =
          trip_upstream at a.status a.headers (http_status a.status)
            (record_health at false counted) in
        (leave true, fail (upstream_status a.status) a.status tripped)

    unfoldable pub on_class : ErrorClass → Site → ℕ → Turn → Answer → State env → Next × State env
    on_class ErrorClass.fine at key turn a s = on_fine at key a s
    on_class ErrorClass.key_invalid at key turn a s = on_key_invalid at key turn a s
    on_class ErrorClass.insufficient_balance at key turn a s =
        disable key a ErrorClass.insufficient_balance KeyStatus.insufficient_balance s
    on_class ErrorClass.rate_limited at key turn a s = on_rate_limited at key a s
    on_class ErrorClass.not_found at key turn a s = on_not_found at s
    on_class ErrorClass.server_error at key turn a s = on_server_error at key a true s
    on_class ErrorClass.upstream_overloaded at key turn a s = on_server_error at key a false s
    on_class ErrorClass.bad_request at key turn a s = (reply (client_error a), s)

    -- `last_http_outcome`, and whether it is returned in the end.
    abbrev pub seen : Site → Answer → State env → State env
    seen at a s = record s {
      last_http = some a;
      return_last_http = not (is_fine (at.provider.adapter.classify a.status a.body_json));
    }

    unfoldable pub on_answer : Site → ℕ → Turn → Answer → State env → Next × State env
    on_answer at key turn a s =
        let d = decision_of text at a in
        if is_protected d
        then on_protected at turn a d.final_classification (seen at a s)
        else on_class (class_of at a) at key turn a (seen at a s)

    unfoldable pub on_outcome : Site → ℕ → Turn → Outcome → State env → Next × State env
    on_outcome at key turn (network_error error blame_proxy) s =
        on_network_error at error blame_proxy s
    on_outcome at key turn (answered a) s = on_answer at key turn a s

    abbrev pub call_of : Site → Turn → Call
    call_of at turn = record {
      provider = at.provider;
      upstream_model = at.upstream_model;
      credential = turn.credential;
      stream = upstream_stream req at;
      spool_first_content = at.provider.retry_on_zero_token && upstream_stream req at;
    }

    -- The counters and the summary of an attempt.
    abbrev pub attempted : Site → ℕ → Outcome × ℕ × env.World → State env → State env
    attempted at key (outcome, network, world) s = record s {
      world = world;
      provider_attempts = s.provider_attempts + 1;
      network_attempts = s.network_attempts + network;
      summaries =
          tried (s.provider_attempts + 1) at.provider.id key at.upstream_model outcome
          ∷ s.summaries;
    }

    unfoldable pub try_key : Site → ℕ → Turn → State env → Next × State env
    try_key at key turn s =
        let out = env.attempt (call_of at turn) s.world in
        on_outcome at key turn out.0 (attempted at key out s)
