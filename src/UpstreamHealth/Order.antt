-- ===== src/UpstreamHealth/Order.antt =====
-- What the ranking keeps of the upstreams, and which one leads.
use mathlib.Core.List.Perm
use mathlib.Core.List.{perm_middle, append-nil}
use void_switch.Base.{
  ℕ, Option, none, some, List, [], ◌∷◌, ◌++◌, Bool, true, false, not, ◌&&◌, ◌||◌, map, keep, find,
  refl, arith, subst, sym, ap, ◌∙◌, ◌≡◌, inl, inr, Bool-cases, Option-cases, if_rule, Perm,
}
use void_switch.Base.Sort.{sort_by, sort_by-perm}
use void_switch.UpstreamHealth.{Cooldowns, is_cooling}
use void_switch.UpstreamHealth.Ranking.{
  Upstream, SelectMode, best, balanced, pinned_best, pinned_balanced, Scores, Ranked, row_of,
  is_cooled, is_empty, rows_of, row_le, lead, Luck, lead_allowed, is_pinned, by_mode, Pins, in_turn,
  rank, without, is_upstream, keep_or_pin,
}

module _ (scores : Scores) where
  lead_found-perm :
      (id : ℕ) (rows : List (Ranked scores)) (r : Ranked scores)
      → find (is_upstream scores id) rows ≡ some r
      → Perm (r ∷ without scores id rows) rows
  lead_found-perm id [] r e = cc
  lead_found-perm id (x ∷ rows) r e = elim (Bool-cases (is_upstream scores id x)) [
    | inl same ↦
        let found : some x ≡ some r = rw same at e in
        let rx : r ≡ x = cc in rw (same, rx) (Perm.refl (x ∷ rows))
    | inr other ↦ rw other (
        Perm.trans (Perm.swap x r (without scores id rows))
          (Perm.cons x (lead_found-perm id rows r (rw other at e))))
  ]

  lead-perm : (id : ℕ) (rows : List (Ranked scores)) → Perm (lead scores id rows) rows
  lead-perm id rows = elim (Option-cases (find (is_upstream scores id) rows)) [
    | inl e ↦ rw e (Perm.refl rows)
    | inr (r, e) ↦ rw e (lead_found-perm id rows r e)
  ]

  allowed-perm :
      (rows : List (Ranked scores)) (o : Option (Ranked scores))
      → Perm (lead_allowed scores rows o) rows
  allowed-perm rows none = Perm.refl rows
  allowed-perm rows (some r) = lead-perm r.upstream.id rows

  by_mode-perm :
      (mode : SelectMode) (luck : Luck scores) (first : Ranked scores) (rows : List (Ranked scores))
      → Perm (by_mode scores mode luck first rows) rows
  unfolding by_mode
  by_mode-perm best luck first rows = Perm.refl rows
  by_mode-perm pinned_best luck first rows = lead-perm _ rows
  by_mode-perm balanced luck first rows = lead-perm _ rows
  by_mode-perm pinned_balanced luck first rows = lead-perm _ rows

  pin-perm :
      (rows chosen : List (Ranked scores)) (stored existing : Option (Ranked scores))
      → Perm chosen rows
      → Perm (keep_or_pin scores rows chosen stored existing) rows
  pin-perm rows chosen stored (some r) h = lead-perm r.upstream.id rows
  pin-perm rows chosen stored none h = Perm.trans (allowed-perm chosen stored) h

  in_turn-perm :
      (mode : SelectMode) (session : Bool) (pins : Pins scores) (luck : Luck scores)
      (rows : List (Ranked scores))
      → Perm (in_turn scores mode session pins luck rows) rows
  unfolding in_turn
  in_turn-perm mode session pins luck [] = Perm.refl []
  in_turn-perm mode session pins luck (first ∷ rest) =
      let rows = first ∷ rest in
      if_rule (λ out. Perm out rows) (is_pinned scores mode && session) _ _
        (λ asked.
          pin-perm rows (by_mode scores mode luck first rows) _ _
            (by_mode-perm mode luck first rows))
        (λ free. by_mode-perm mode luck first rows)

  -- A cooled row is one of an upstream that cools down.
  cooled_lem :
      (now : ℕ) (cooldowns : Cooldowns) (u : Upstream)
      → is_cooled scores (row_of scores now cooldowns u) ≡ is_cooling now (cooldowns u.key)
  cooled_lem now cooldowns u = ground arith

  module _ (now : ℕ) (cooldowns : Cooldowns) where
    abbrev upstream_of : Ranked scores → Upstream
    upstream_of r = r.upstream

    abbrev is_cold : Upstream → Bool
    is_cold u = is_cooling now (cooldowns u.key)

    abbrev rows_with : List Upstream → List (Ranked scores)
    rows_with us = map (row_of scores now cooldowns) (keep (λ (u : Upstream). u.usable) us)

    map-free :
        (us : List Upstream)
        → map upstream_of (keep (λ r. not (is_cooled scores r)) (rows_with us))
          ≡ keep (λ u. u.usable && not (is_cold u)) us
    map-free [] = refl
    map-free (u ∷ us) = ground (arith, cooled_lem now cooldowns u, map-free us)

    map-cooled :
        (us : List Upstream)
        → map upstream_of (keep (is_cooled scores) (rows_with us))
          ≡ keep (λ u. u.usable && is_cold u) us
    map-cooled [] = refl
    map-cooled (u ∷ us) = ground (arith, cooled_lem now cooldowns u, map-cooled us)

  abbrev upstreams_of : Ranked scores → Upstream
  upstreams_of r = r.upstream

  map_both :
      (xs ys : List (Ranked scores))
      → map upstreams_of (xs ++ ys) ≡ map upstreams_of xs ++ map upstreams_of ys
  map_both [] ys = refl
  map_both (r ∷ xs) ys = ap (◌∷◌ r.upstream) (map_both xs ys)

  empty_rows : (rows : List (Ranked scores)) → not (is_empty scores rows) ≡ false → rows ≡ []
  empty_rows [] h = refl
  empty_rows (r ∷ rows) h = absurd (cc h)

  -- The upstreams to try: usable, and not cooling down unless that is ignored.
  abbrev pub is_wanted : Bool → ℕ → Cooldowns → Upstream → Bool
  is_wanted ignore now cooldowns u = u.usable && (ignore || not (is_cooling now (cooldowns u.key)))

  module _ (now : ℕ) (cooldowns : Cooldowns) where
    halves-perm :
        (us : List Upstream)
        → Perm
            (keep (λ u. u.usable && not (is_cooling now (cooldowns u.key))) us
              ++ keep (λ u. u.usable && is_cooling now (cooldowns u.key)) us)
            (keep (is_wanted true now cooldowns) us)
    halves-perm [] = Perm.nil
    halves-perm (u ∷ us) =
        let free = keep (λ (v : Upstream). v.usable && not (is_cooling now (cooldowns v.key))) us in
        let cold = keep (λ (v : Upstream). v.usable && is_cooling now (cooldowns v.key)) us in
        let rest = halves-perm us in
        ground
          (arith, rest, Perm.cons u rest, Perm.trans (perm_middle free cold) (Perm.cons u rest))

    rows_of-perm :
        (ignore : Bool) (us : List Upstream)
        → Perm
            (map (λ (r : Ranked scores). r.upstream) (rows_of scores ignore now cooldowns us).0)
            (keep (is_wanted ignore now cooldowns) us)
    rows_of-perm false us =
        subst (λ l. Perm l (keep (is_wanted false now cooldowns) us))
          (sym (map-free now cooldowns us)) (Perm.refl _)
    rows_of-perm true us =
        let rows = rows_with now cooldowns us in
        let free = keep (λ r. not (is_cooled scores r)) rows in
        let cooled = keep (is_cooled scores) rows in
        let wanted = keep (is_wanted true now cooldowns) us in
        let both : Perm (map upstreams_of free ++ map upstreams_of cooled) wanted =
          rw (map-free now cooldowns us, map-cooled now cooldowns us) (halves-perm us) in
        if_rule (λ out. Perm (map upstreams_of out) wanted) (not (is_empty scores cooled)) _ _
          (λ some. subst (λ l. Perm l wanted) (sym (map_both free cooled)) both)
          λ no_cooled.
            subst (λ l. Perm l wanted)
              (ap (λ l. map upstreams_of free ++ map upstreams_of l) (empty_rows cooled no_cooled)
                ∙ append-nil (map upstreams_of free))
              both

  -- The ranking holds exactly the upstreams of the route that are usable and do not cool down, each
  -- as often as the route does, and those that are usable and cool down as well if cooldowns are
  -- ignored, in every mode and whatever the pins and the random choices.
  pub rank-perm :
      (mode : SelectMode) (tiered ignore : Bool) (now : ℕ) (cooldowns : Cooldowns) (session : Bool)
      (pins : Pins scores) (luck : Luck scores) (upstreams : List Upstream)
      → Perm
          (map
            (λ (r : Ranked scores). r.upstream)
            (rank scores mode tiered ignore now cooldowns session pins luck upstreams).0)
          (keep (is_wanted ignore now cooldowns) upstreams)
  unfolding rank
  rank-perm mode tiered ignore now cooldowns session pins luck upstreams =
      let rows = (rows_of scores ignore now cooldowns upstreams).0 in
      Perm.trans
        (Perm.map (λ (r : Ranked scores). r.upstream)
          (Perm.trans (in_turn-perm mode session pins luck (sort_by (row_le scores tiered) rows))
            (sort_by-perm (row_le scores tiered) rows)))
        (rows_of-perm now cooldowns ignore upstreams)
