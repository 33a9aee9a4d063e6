-- ===== src/UpstreamHealth/Ranking.antt =====
-- backend/voidswitch/services/upstream_health.py, rank: the order in which a request tries the
-- upstreams of its route. The scores are floats of the code, computed from the live statistics, and
-- stay abstract, as do the random choices. The pins in Redis are inputs: the one found first, and
-- the one that another request stored in between. Sorting the groups and then each group is one
-- sort here, with the group first.
use void_switch.Base.{
  ℕ, Option, none, some, List, [], ◌∷◌, ◌++◌, Bool, true, false, not, ◌&&◌, ◌||◌, leb, ◌==◌,
  if◌then◌else◌, keep, map, all, find,
}
use void_switch.Base.Sort.{sort_by, then_by}
use void_switch.UpstreamHealth.{UpstreamKey, Cooldowns, is_cooling}

-- The columns of a RouteUpstream row that the ranking reads; `usable` says that it and its provider
-- are enabled, `group` is max(0, group_position) and `weight` is `weight or 1`.
pub record Upstream : Type 0 where
  pub id : ℕ
  pub usable : Bool
  pub key : UpstreamKey
  pub weight : ℕ
  pub position : ℕ
  pub group : ℕ

pub data SelectMode : Type 0 where
  best balanced pinned_best pinned_balanced : SelectMode

-- What the statistics say of an upstream: its score, whether it has enough samples, and whether its
-- success rate is healthy.
pub record Scores : Type 1 where
  pub Score : Type 0
  pub score_le : Score → Score → Bool
  pub score_of : UpstreamKey → Score
  pub has_samples : UpstreamKey → Bool
  pub is_healthy : UpstreamKey → Bool
  -- the second score is within the tolerance of the first
  pub is_near : Score → Score → Bool

pub record Ranked (scores : Scores) : Type 0 where
  pub upstream : Upstream
  pub score : scores.Score
  pub tier : ℕ

module _ (scores : Scores) where
  abbrev pub row_of : ℕ → Cooldowns → Upstream → Ranked scores
  row_of now cooldowns u = record {
    upstream = u;
    score = scores.score_of u.key;
    tier =
        if is_cooling now (cooldowns u.key)
        then 3
        else if scores.has_samples u.key
        then (if scores.is_healthy u.key then 0 else 2)
        else 1;
  }

  abbrev pub is_cooled : Ranked scores → Bool
  is_cooled r = r.tier == 3

  abbrev pub cooled_last : Ranked scores → ℕ
  cooled_last r = if is_cooled r then 1 else 0

  abbrev pub tier_of : Bool → Ranked scores → ℕ
  tier_of tiered r = if tiered then r.tier else 0

  -- The sort key: group, cooled, tier, score, weight (heavier first), position, id.
  abbrev pub row_le : Bool → Ranked scores → Ranked scores → Bool
  row_le tiered a b =
      let u = a.upstream in
      let v = b.upstream in
      then_by (leb u.group v.group) (leb v.group u.group) (
        then_by (leb (cooled_last a) (cooled_last b)) (leb (cooled_last b) (cooled_last a)) (
          then_by (leb (tier_of tiered a) (tier_of tiered b))
            (leb (tier_of tiered b) (tier_of tiered a))
            (then_by (scores.score_le a.score b.score) (scores.score_le b.score a.score) (
              then_by (leb v.weight u.weight) (leb u.weight v.weight) (
                then_by (leb u.position v.position) (leb v.position u.position) (leb u.id v.id))))))

  abbrev pub is_empty : List (Ranked scores) → Bool
  is_empty [] = true
  is_empty (r ∷ rows) = false

  -- The rows to order, and whether cooldowns are ignored.
  abbrev pub rows_of : Bool → ℕ → Cooldowns → List Upstream → List (Ranked scores) × Bool
  rows_of ignore now cooldowns upstreams =
      let rows = map (row_of now cooldowns) (keep (λ (u : Upstream). u.usable) upstreams) in
      let cooling = keep is_cooled rows in
      let free = keep (λ r. not (is_cooled r)) rows in
      let ignored = ignore && not (is_empty cooling) in
      (if ignored then free ++ cooling else free, ignored)

  abbrev pub is_upstream : ℕ → Ranked scores → Bool
  is_upstream id r = r.upstream.id == id

  -- `rows.remove(found); rows.insert(0, found)`
  abbrev pub without : ℕ → List (Ranked scores) → List (Ranked scores)
  without id [] = []
  without id (r ∷ rows) = let rest = without id rows in if is_upstream id r then rows else r ∷ rest

  abbrev pub lead_found : ℕ → List (Ranked scores) → Option (Ranked scores) → List (Ranked scores)
  lead_found id rows none = rows
  lead_found id rows (some r) = r ∷ without id rows

  abbrev pub lead : ℕ → List (Ranked scores) → List (Ranked scores)
  lead id rows = lead_found id rows (find (is_upstream id) rows)

  -- The random choices of the code, among a nonempty list.
  pub record Luck : Type 0 where
    pub weighted : List (Ranked scores) → Ranked scores
    pub jittered : List (Ranked scores) → Ranked scores

  -- The rows of the group of the first one.
  abbrev pub selectable : Ranked scores → List (Ranked scores) → List (Ranked scores)
  selectable first rows = keep (λ r. r.upstream.group == first.upstream.group) rows

  abbrev or_else : List (Ranked scores) → List (Ranked scores) → List (Ranked scores)
  or_else [] other = other
  or_else (r ∷ rows) other = r ∷ rows

  abbrev is_within : Ranked scores → Ranked scores → Bool
  is_within first r = scores.is_near first.score r.score

  abbrev pub pool_of : Ranked scores → List (Ranked scores) → List (Ranked scores)
  pool_of first group =
      or_else (keep (λ r. not (is_cooled r) && is_within first r) group)
        (keep (is_within first) group)

  -- The pinned row, if it may lead.
  abbrev pub allowed : List (Ranked scores) → Option ℕ → Option (Ranked scores)
  allowed group none = none
  allowed group (some id) = elim (find (is_upstream id) group) [
    | none ↦ none
    | some r ↦ if not (is_cooled r) || all is_cooled group then some r else none
  ]

  abbrev pub lead_allowed : List (Ranked scores) → Option (Ranked scores) → List (Ranked scores)
  lead_allowed rows none = rows
  lead_allowed rows (some r) = lead r.upstream.id rows

  abbrev pub is_pinned : SelectMode → Bool
  is_pinned pinned_best = true
  is_pinned pinned_balanced = true
  is_pinned mode = false

  unfoldable pub by_mode :
      SelectMode → Luck → Ranked scores → List (Ranked scores) → List (Ranked scores)
  by_mode best luck first rows = rows
  by_mode pinned_best luck first rows =
      lead (luck.jittered (selectable first rows)).upstream.id rows
  by_mode mode luck first rows =
      lead (luck.weighted (pool_of first (selectable first rows))).upstream.id rows

  -- The pins that this call finds: at first, and after the attempt to store its own.
  pub record Pins : Type 0 where
    pub existing : Option ℕ
    pub stored : Option ℕ

  abbrev pub keep_or_pin :
      List (Ranked scores)
      → List (Ranked scores)
      → Option (Ranked scores)
      → Option (Ranked scores)
      → List (Ranked scores)
  keep_or_pin rows chosen stored (some r) = lead r.upstream.id rows
  keep_or_pin rows chosen stored none = lead_allowed chosen stored

  unfoldable pub in_turn :
      SelectMode → Bool → Pins → Luck → List (Ranked scores) → List (Ranked scores)
  unfolding by_mode
  in_turn mode session pins luck [] = []
  in_turn mode session pins luck (first ∷ rest) =
      let rows = first ∷ rest in
      let group = selectable first rows in
      let chosen = by_mode mode luck first rows in
      if is_pinned mode && session
      then keep_or_pin rows chosen (allowed group pins.stored) (allowed group pins.existing)
      else chosen

  unfoldable pub rank :
      SelectMode
      → Bool
      → Bool
      → ℕ
      → Cooldowns
      → Bool
      → Pins
      → Luck
      → List Upstream
      → List (Ranked scores) × Bool
  unfolding in_turn
  rank mode tiered ignore now cooldowns session pins luck upstreams =
      let (rows, ignored) = rows_of ignore now cooldowns upstreams in
      (in_turn mode session pins luck (sort_by (row_le tiered) rows), ignored)
