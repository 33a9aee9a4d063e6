-- ===== src/UpstreamHealth.antt =====
-- backend/voidswitch/services/upstream_health.py: the cooldowns of upstreams (parse_retry_delay,
-- trip, reward, load_cooldowns). Times are microseconds since the epoch; the settings are not
-- negative. Left out are headers with NaN or a delay beyond the calendar, infinity included. The
-- ranking is in Ranking.
pub mod Cooldowns
pub mod Ranking
pub mod Order
pub mod Behind
mod Tests
use void_switch.Base.{
  ℕ, ◌+◌, ◌-◌, ◌*◌, ◌^◌, min, String, Option, none, some, List, [], ◌∷◌, Bool, true, false, ◌&&◌,
  ltb, ◌==◌, if◌then◌else◌, any, str_eq,
}
use void_switch.Keys.Changes.{second, capped}

-- (provider_id, upstream_model, key_pool)
pub record UpstreamKey : Type 0 where
  pub provider_id : ℕ
  pub model : String
  pub pool : String

abbrev pub same_key : UpstreamKey → UpstreamKey → Bool
same_key a b = a.provider_id == b.provider_id && (str_eq a.model b.model && str_eq a.pool b.pool)

pub data TriggerSource : Type 0 where
  from_route from_provider from_global from_retry_after from_header : TriggerSource

-- Why an upstream cools down, by the parts of the text that the code stores.
pub data TripReason : Type 0 where
  http_status : ℕ → TripReason
  network_failure : String → TripReason
  policy_status : String → ℕ → TripReason

-- The UpstreamCooldown row of a key.
pub record Cooldown : Type 0 where
  pub until : ℕ
  pub reason : Option TripReason
  pub trigger_status : ℕ
  pub trigger_source : TriggerSource
  pub triggered_at : ℕ
  pub consecutive_trips : ℕ
  pub last_success_at : Option ℕ

-- The table of cooldowns, which is unique by key.
abbrev pub Cooldowns : Type 0
Cooldowns = UpstreamKey → Option Cooldown

abbrev pub put_row : UpstreamKey → Cooldown → Cooldowns → Cooldowns
put_row key row rows other = if same_key key other then some row else rows other

-- What the code asks of Python about a header's text: `float`, in microseconds, and
-- `parsedate_to_datetime`.
pub data Number : Type 0 where
  below_zero : Number
  micros : ℕ → Number

pub record HeaderLib : Type 0 where
  pub lower : String → String
  pub strip : String → String
  pub float : String → Option Number
  pub parsedate : String → Option ℕ

-- `{k.lower(): str(v).strip() for k, v in headers.items()}.get(name)`: the last of equal names wins.
unfoldable pub last_header : HeaderLib → String → List (String × String) → Option String
last_header lib name [] = none
last_header lib name ((k, v) ∷ headers) = elim (last_header lib name headers) [
  | some later ↦ some later
  | none ↦ if str_eq (lib.lower k) name then some (lib.strip v) else none
]

-- A number of more than a thousand million seconds is a point in time.
abbrev pub delay_of : ℕ → Number → ℕ
delay_of now below_zero = 0
delay_of now (micros v) = if ltb (1_000_000_000 * second) v then v - now else v

abbrev pub read_delay : HeaderLib → ℕ → String → Option ℕ
read_delay lib now raw = elim (lib.float raw) [
  | some v ↦ some (delay_of now v)
  | none ↦ elim (lib.parsedate raw) [ none ↦ none | some when ↦ some (when - now) ]
]

abbrev pub try_header : HeaderLib → ℕ → Option String → Option ℕ
try_header lib now none = none
try_header lib now (some raw) = if str_eq raw "" then none else read_delay lib now raw

-- The delay, and the lower-cased name of the header that gave it.
unfoldable pub parse_retry_delay :
    HeaderLib → ℕ → List (String × String) → List String → Option (ℕ × String)
unfolding last_header
parse_retry_delay lib now headers [] = none
parse_retry_delay lib now headers (name ∷ names) =
    elim (try_header lib now (last_header lib (lib.lower name) headers)) [
      | some delay ↦ some (delay, lib.lower name)
      | none ↦ parse_retry_delay lib now headers names
    ]

-- The settings that `trip` reads, of the route's entry, the provider and the platform. An empty
-- list and 0 stand for "not set".
pub record TripSettings : Type 0 where
  pub route_codes : List ℕ
  pub provider_codes : List ℕ
  pub global_codes : List ℕ
  pub provider_headers : List String
  pub global_headers : List String
  pub route_seconds : ℕ
  pub provider_seconds : ℕ
  pub global_seconds : ℕ
  pub backoff_cap : ℕ
  pub max_cooldown : ℕ

abbrev pub or_list {ℓ} : {A : Type ℓ} → List A → List A → List A
or_list [] other = other
or_list (x ∷ xs) other = x ∷ xs

abbrev pub codes_of : TripSettings → List ℕ
codes_of s = or_list s.route_codes (or_list s.provider_codes s.global_codes)

abbrev pub or_number : ℕ → ℕ → ℕ
or_number a b = if a == 0 then b else a

abbrev pub base_seconds : TripSettings → ℕ
base_seconds s = or_number s.route_seconds (or_number s.provider_seconds s.global_seconds)

abbrev pub base_source : TripSettings → TriggerSource
base_source s =
    if ltb 0 s.route_seconds
    then from_route
    else if ltb 0 s.provider_seconds
    then from_provider
    else from_global

abbrev pub trips_before : Option Cooldown → ℕ
trips_before none = 0
trips_before (some row) = row.consecutive_trips

abbrev pub last_success : Option Cooldown → Option ℕ
last_success none = none
last_success (some row) = row.last_success_at

abbrev header_source : String → TriggerSource
header_source name = if str_eq name "retry-after" then from_retry_after else from_header

-- The length of the cooldown before the cap, and where it comes from.
unfoldable pub cooldown_length : TripSettings → ℕ → Option (ℕ × String) → ℕ × TriggerSource
cooldown_length s trips none =
    (base_seconds s * second * 2 ^ min trips s.backoff_cap, base_source s)
cooldown_length s trips (some (delay, name)) = (delay, header_source name)

unfoldable pub tripped_row :
    TripSettings → ℕ → ℕ → TripReason → Option (ℕ × String) → Option Cooldown → Cooldown
unfolding cooldown_length
tripped_row s now status reason retry old =
    let (length, source) = cooldown_length s (trips_before old) retry in
    record {
      until = now + capped s.max_cooldown length;
      reason = some reason;
      trigger_status = status;
      trigger_source = source;
      triggered_at = now;
      consecutive_trips = trips_before old + 1;
      last_success_at = last_success old;
    }

-- The flag says whether a cooldown was set: `trip` returns its row, or None.
unfoldable pub trip :
    HeaderLib
    → TripSettings
    → ℕ
    → UpstreamKey
    → ℕ
    → List (String × String)
    → TripReason
    → Cooldowns
    → Bool × Cooldowns
unfolding parse_retry_delay tripped_row
trip lib s now key status headers reason rows =
    if any (λ code. code == status) (codes_of s)
    then (
      true,
      put_row key
          (tripped_row s now status reason
            (parse_retry_delay lib now headers (or_list s.provider_headers s.global_headers))
            (rows key))
          rows,
    )
    else (false, rows)

abbrev rewarded : ℕ → Cooldown → Cooldown
rewarded now row = record row { until = now; consecutive_trips = 0; last_success_at = some now }

unfoldable pub reward : ℕ → UpstreamKey → Cooldowns → Cooldowns
reward now key rows = elim (rows key) [
  | none ↦ rows
  | some row ↦ put_row key (rewarded now row) rows
]

-- The test of `rank`: does a cooldown stand at `now`?
unfoldable pub is_cooling : ℕ → Option Cooldown → Bool
is_cooling now none = false
is_cooling now (some row) = ltb now row.until
