-- ===== src/UpstreamHealth/Cooldowns.antt =====
-- How long an upstream cools down, and what ends the cooldown.
use text.Mathlib.TextPositions.{eq_refl}
use void_switch.Base.{
  ℕ, ◌+◌, String, List, [], ◌∷◌, true, false, ltb, ◌==◌, any, ◌≡◌, ◌≤◌, arith, length,
  if◌then◌else◌,
}
use void_switch.Keys.Changes.{capped}
use void_switch.UpstreamHealth.{
  UpstreamKey, TripReason, same_key, Cooldowns, HeaderLib, TripSettings, codes_of, or_list,
  trips_before, cooldown_length, trip, reward, is_cooling, parse_retry_delay,
}

same_key_refl : (key : UpstreamKey) → same_key key key ≡ true
same_key_refl key = ground (arith, eq_refl key.model, eq_refl key.pool)

module _ (lib : HeaderLib) (s : TripSettings) (key : UpstreamKey) where
  -- A trip sets a cooldown exactly for the status codes of the first list that is set, of the
  -- route, the provider and the platform. The upstream then counts one more trip and cools down for
  -- the delay that a header names, or else for the backed-off base, each cut at the cap; for any
  -- other code it stays as it was. A trip changes no other upstream.
  pub trip_exact :
      (now at status : ℕ) (headers : List (String × String)) (reason : TripReason)
      (rows : Cooldowns) (other : UpstreamKey)
      → same_key key other ≡ false
      → let out = trip lib s now key status headers reason rows in
        let retry =
          parse_retry_delay lib now headers (or_list s.provider_headers s.global_headers) in
        let length = capped s.max_cooldown (cooldown_length s (trips_before (rows key)) retry).0 in
        let triggers = any (λ code. code == status) (codes_of s) in
        (out.0 ≡ triggers)
        × (is_cooling at (out.1 key)
            ≡ (if triggers then ltb at (now + length) else is_cooling at (rows key)))
        × (trips_before (out.1 key) ≡ trips_before (rows key) + (if triggers then 1 else 0))
        × (out.1 other ≡ rows other)
  unfolding trip is_cooling
  trip_exact now at status headers reason rows other apart = ground (arith, same_key_refl key)

  -- Trips at the given times, with no header that names a delay.
  unfoldable pub trips : ℕ → TripReason → List ℕ → Cooldowns → Cooldowns
  trips status reason [] rows = rows
  trips status reason (now ∷ times) rows =
      trips status reason times (trip lib s now key status [] reason rows).1

-- A success ends the cooldown of its upstream at once and starts the backoff anew, and changes no
-- other upstream.
pub reward_resets :
    (key : UpstreamKey) (now at : ℕ) (rows : Cooldowns) (other : UpstreamKey)
    → now ≤ at
    → same_key key other ≡ false
    → (is_cooling at (reward now key rows key) ≡ false)
      × (trips_before (reward now key rows key) ≡ 0)
      × (reward now key rows other ≡ rows other)
unfolding reward is_cooling
reward_resets key now at rows other h apart = ground (arith, same_key_refl key)
