-- ===== src/Keys/Changes.antt =====
-- How the dispatcher changes a key (_disable_key, _mark_rate_limited and _reward_key of
-- backend/voidswitch/services/dispatcher.py). A cooldown is in microseconds, as `timedelta` keeps
-- it; a `Retry-After` is not negative (_parse_retry_after), and the settings are not either. An
-- infinite one stands as any number past the calendar, and NaN as a negative one.
use void_switch.Base.{ℕ, ◌+◌, ◌*◌, ◌/◌, min, Option, none, some, Bool, leb, ltb, if◌then◌else◌}
use void_switch.Keys.{
  KeyStatus, CooldownSource, retry_after, from_provider, from_global, Reason, rate_limited_for,
  ApiKey, is_rate_limited,
}

abbrev pub or_now : Option ℕ → ℕ → ℕ
or_now none now = now
or_now (some t) now = t

unfoldable pub disable_key : KeyStatus → Reason → ℕ → ApiKey → ApiKey
disable_key status reason now k = record k {
  status = status;
  disabled_reason = some reason;
  last_checked_at = some now;
  disabled_since = some (or_now k.disabled_since now);
}

abbrev pub second : ℕ
second = 1_000_000

-- The cooldown settings of a 429: the provider's and the global one and the cap, in seconds.
pub record CooldownSettings : Type 0 where
  pub provider_cooldown : ℕ
  pub global_cooldown : ℕ
  pub max_cooldown : ℕ

abbrev asked_for : Option ℕ → CooldownSettings → ℕ × CooldownSource
asked_for (some wait) s = (wait, retry_after)
asked_for none s =
    if ltb 0 s.provider_cooldown
    then (s.provider_cooldown * second, from_provider)
    else (s.global_cooldown * second, from_global)

abbrev pub capped : ℕ → ℕ → ℕ
capped maximum t = if ltb 0 maximum then min t (maximum * second) else t

-- The cooldown that `_mark_rate_limited` returns.
unfoldable pub cooldown_of : Option ℕ → CooldownSettings → ℕ
cooldown_of wait s = capped s.max_cooldown (asked_for wait s).0

-- datetime.max, in UTC.
abbrev pub last_moment : ℕ
last_moment = 253_402_300_799_999_999

-- Whether `now + timedelta(...)` is a date; else it raises OverflowError.
abbrev pub fits_calendar : ℕ → ℕ → Bool
fits_calendar now cooldown = leb (now + cooldown) last_moment

-- The row where the end of the cooldown raises: the columns before it are written.
abbrev pub half_parked : ℕ → ApiKey → ApiKey
half_parked now k = record k {
  status = KeyStatus.rate_limited;
  last_checked_at = some now;
  disabled_since = some (or_now k.disabled_since now);
}

-- The row where the end of the cooldown fits the calendar.
unfoldable pub mark_rate_limited : Option ℕ → CooldownSettings → ℕ → ApiKey → ApiKey
unfolding cooldown_of
mark_rate_limited wait s now k =
    let cooldown = cooldown_of wait s in
    record k {
      status = KeyStatus.rate_limited;
      last_checked_at = some now;
      disabled_since = some (or_now k.disabled_since now);
      rate_limit_until = some (now + cooldown);
      disabled_reason = some (rate_limited_for (cooldown / second) (asked_for wait s).1);
    }

unfoldable pub reward_key : ℕ → ApiKey → ApiKey
reward_key now k =
    if is_rate_limited k.status
    then record k {
      status = KeyStatus.active;
      failed_count = 0;
      disabled_reason = none;
      disabled_since = none;
      rate_limit_until = none;
      last_used_at = some now;
    }
    else k
