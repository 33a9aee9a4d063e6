-- ===== src/UpstreamHealth/Tests.antt =====
-- Cooldowns at concrete inputs.
use void_switch.Base.{
  keep, map, ℕ, List, leb, Perm, ltb, if◌then◌else◌, ◌+◌, none, some, [], ◌∷◌, true, false, ◌==◌,
  any, ◌≡◌, refl, arith,
}
use void_switch.Keys.Changes.{capped}
use void_switch.UpstreamHealth.{
  http_status, UpstreamKey, Cooldowns, HeaderLib, micros, TripSettings, trips_before,
  cooldown_length, trip, reward, is_cooling, parse_retry_delay,
}
use void_switch.Base.Sort.{sort_by, IsSorted, leb-IsPreorder}
use void_switch.UpstreamHealth.Ranking.{
  Upstream, best, balanced, pinned_best, Scores, Ranked, row_of, Luck, Pins, rank, row_le,
}
use void_switch.UpstreamHealth.Order.{rank-perm, is_wanted}
use void_switch.UpstreamHealth.Behind.{rank-Behind, Behind}
use void_switch.UpstreamHealth.Cooldowns.{trip_exact, trips, reward_resets}

abbrev lib : HeaderLib
lib = record {
  lower = λ s. s;
  strip = λ s. s;
  float = λ s. some (micros 7_000_000);
  parsedate = λ s. none;
}

abbrev settings : TripSettings
settings = record {
  route_codes = [];
  provider_codes = [];
  global_codes = 429 ∷ 503 ∷ [];
  provider_headers = [];
  global_headers = "retry-after" ∷ [];
  route_seconds = 0;
  provider_seconds = 60;
  global_seconds = 180;
  backoff_cap = 3;
  max_cooldown = 3600;
}

abbrev upstream : UpstreamKey
upstream = record { provider_id = 1; model = "m"; pool = "" }

abbrev other : UpstreamKey
other = record { provider_id = 2; model = "m"; pool = "" }

abbrev no_rows : Cooldowns
no_rows = λ k. none

-- The header's seven seconds, and the third trip in a row: four times a minute.
trip_runs :
    (is_cooling 7_000_100 (
        (trip lib settings 100 upstream 429 (("retry-after", "7") ∷ []) (http_status 429) no_rows).1
          upstream)
      ≡ false)
    × (is_cooling 239_999_999
          (trips lib settings upstream 503 (http_status 503) (0 ∷ 0 ∷ 0 ∷ []) no_rows upstream)
        ≡ true)
unfolding trip is_cooling trips
trip_runs = (refl, refl)

trip_exact_example :
    let out = trip lib settings 100 upstream 429 [] (http_status 429) no_rows in
    let retry = parse_retry_delay lib 100 [] ("retry-after" ∷ []) in
    let length = capped 3600 (cooldown_length settings 0 retry).0 in
    let triggers = any (λ code. code == 429) (429 ∷ 503 ∷ []) in
    (out.0 ≡ triggers)
    × (is_cooling 200 (out.1 upstream)
        ≡ (if triggers then ltb 200 (100 + length) else is_cooling 200 (no_rows upstream)))
    × (trips_before (out.1 upstream) ≡ 0 + (if triggers then 1 else 0))
    × (out.1 other ≡ none)
trip_exact_example =
    trip_exact lib settings upstream 100 200 429 [] (http_status 429) no_rows other refl

abbrev rows : Cooldowns
rows = (trip lib settings 100 upstream 429 [] (http_status 429) no_rows).1

reward_resets_example :
    (is_cooling 300 (reward 200 upstream rows upstream) ≡ false)
    × (trips_before (reward 200 upstream rows upstream) ≡ 0)
    × (reward 200 upstream rows other ≡ rows other)
reward_resets_example = reward_resets upstream 200 300 rows other (omega arith) refl

-- Scores are plain numbers; upstream 1 cools down and has the least score.
abbrev scores : Scores
scores = record {
  Score = ℕ;
  score_le = λ a b. leb a b;
  score_of = λ k. k.provider_id;
  has_samples = λ k. true;
  is_healthy = λ k. true;
  is_near = λ first s. leb s (first + 1);
}

abbrev place : ℕ → Upstream
place n = record {
  id = n;
  usable = true;
  key = record { provider_id = n; model = "m"; pool = "" };
  weight = 1;
  position = n;
  group = 0;
}

least : List (Ranked scores) → Ranked scores
least [] = row_of scores 0 no_rows (place 0)
least (r ∷ []) = r
least (r ∷ s ∷ more) = let other = least (s ∷ more) in if leb r.score other.score then r else other

abbrev luck : Luck scores
luck = record { weighted = least; jittered = least }

abbrev no_pins : Pins scores
no_pins = record { existing = none; stored = none }

abbrev places : List Upstream
places = place 1 ∷ place 2 ∷ place 3 ∷ []

abbrev first_id : List (Ranked scores) → ℕ
first_id [] = 0
first_id (r ∷ more) = r.upstream.id

-- The cooling upstream comes last, but the least jittered score may be its own.
rank_runs :
    (first_id (rank scores best false true 200 rows false no_pins luck places).0 ≡ 2)
    × (first_id (rank scores balanced false true 200 rows false no_pins luck places).0 ≡ 2)
    × (first_id (rank scores pinned_best false true 200 rows false no_pins luck places).0 ≡ 1)
unfolding rank trip is_cooling sort_by least
rank_runs = (refl, refl, refl)

rank-perm_example :
    Perm
      (map
        (λ (r : Ranked scores). r.upstream)
        (rank scores pinned_best false true 200 rows true no_pins luck places).0)
      (keep (is_wanted scores true 200 rows) places)
rank-perm_example = rank-perm scores pinned_best false true 200 rows true no_pins luck places

rank-Behind_example :
    let ranked = (rank scores best true true 200 rows false no_pins luck places).0 in
    IsSorted (row_le scores true) ranked × Behind scores ranked
rank-Behind_example = rank-Behind scores true true 200 rows false no_pins luck places leb-IsPreorder
