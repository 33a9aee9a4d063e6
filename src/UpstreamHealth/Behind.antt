-- ===== src/UpstreamHealth/Behind.antt =====
-- The order of the ranking without pins and random choices.
use void_switch.Base.{ℕ, List, [], ◌∷◌, Bool, true, not, ◌&&◌, ◌||◌, ◌==◌, ◌≡◌, refl, All, arith}
use void_switch.Base.Sort.{
  sort_by, IsPreorder, IsSorted, sort_by-IsSorted, by-IsPreorder, before-IsPreorder, least_first,
  most_first,
}
use void_switch.UpstreamHealth.{Cooldowns}
use void_switch.UpstreamHealth.Ranking.{
  Upstream, best, Scores, Ranked, rows_of, row_le, is_cooled, Luck, Pins, in_turn, rank,
  cooled_last, tier_of, by_mode,
}

module _ (scores : Scores) where
  row_le-IsPreorder :
      (tiered : Bool) → IsPreorder scores.score_le → IsPreorder (row_le scores tiered)
  row_le-IsPreorder tiered h = before-IsPreorder _ _ (least_first (λ r. r.upstream.group)) (
      before-IsPreorder _ _ (least_first (cooled_last scores)) (
        before-IsPreorder _ _ (least_first (tier_of scores tiered)) (
          before-IsPreorder _ _ (by-IsPreorder scores.score_le (λ r. r.score) h) (
            before-IsPreorder _ _ (most_first (λ r. r.upstream.weight)) (
              before-IsPreorder _ _ (least_first (λ r. r.upstream.position))
                (least_first (λ r. r.upstream.id)))))))

  -- Behind an upstream that cools down, all others of its group cool down too.
  abbrev pub Behind : List (Ranked scores) → Type 0
  Behind [] = Unit
  Behind (r ∷ rows) =
      All
        (λ s.
          (not (is_cooled scores r && s.upstream.group == r.upstream.group) || is_cooled scores s)
          ≡ true)
        rows
      × Behind rows

  cooled_after :
      (tiered : Bool) (r s : Ranked scores)
      → row_le scores tiered r s ≡ true
      → (not (is_cooled scores r && s.upstream.group == r.upstream.group) || is_cooled scores s)
        ≡ true
  cooled_after tiered r s h = ground arith

  all_after :
      (tiered : Bool) (r : Ranked scores) (rows : List (Ranked scores))
      → All (λ s. row_le scores tiered r s ≡ true) rows
      → All
          (λ s.
            (not (is_cooled scores r && s.upstream.group == r.upstream.group) || is_cooled scores s)
            ≡ true)
          rows
  all_after tiered r [] h = tt
  all_after tiered r (s ∷ rows) h = (cooled_after tiered r s h.0, all_after tiered r rows h.1)

  sorted-Behind :
      (tiered : Bool) (rows : List (Ranked scores))
      → IsSorted (row_le scores tiered) rows
      → Behind rows
  sorted-Behind tiered [] h = tt
  sorted-Behind tiered (r ∷ rows) h = (all_after tiered r rows h.0, sorted-Behind tiered rows h.1)

  in_turn_best :
      (session : Bool) (pins : Pins scores) (luck : Luck scores) (rows : List (Ranked scores))
      → in_turn scores best session pins luck rows ≡ rows
  unfolding in_turn by_mode
  in_turn_best session pins luck [] = refl
  in_turn_best session pins luck (r ∷ rows) = refl

  -- In the mode "best", whatever the pins, the ranking is sorted by group, cooldown, tier (where
  -- the algorithm is tiered), score, weight, position and id, and in a group no upstream that cools
  -- down comes before one that does not, if the scores are compared by a total preorder.
  pub rank-Behind :
      (tiered ignore : Bool) (now : ℕ) (cooldowns : Cooldowns) (session : Bool) (pins : Pins scores)
      (luck : Luck scores) (upstreams : List Upstream)
      → IsPreorder scores.score_le
      → let ranked = (rank scores best tiered ignore now cooldowns session pins luck upstreams).0 in
        IsSorted (row_le scores tiered) ranked × Behind ranked
  unfolding rank
  rank-Behind tiered ignore now cooldowns session pins luck upstreams order =
      let rows = (rows_of scores ignore now cooldowns upstreams).0 in
      let sorted = sort_by-IsSorted (row_le scores tiered) (row_le-IsPreorder tiered order) rows in
      rw (in_turn_best session pins luck (sort_by (row_le scores tiered) rows))
        (sorted, sorted-Behind tiered _ sorted)
