-- ===== src/RateLimit/Budgets.antt =====
-- Which budget `reserve_any` charges.
use native.Mathlib.Nat.{le_trans, lt_trans, le_of_lt}
use void_switch.Base.{
  ℕ, zero, suc, ◌+◌, String, List, [], ◌∷◌, Bool, true, false, ltb, ◌≡◌, refl, sym, ◌∙◌, ap, subst,
  ◌≤◌, ◌<◌, arith, inl, inr, ◌⊎◌, Bool-cases, All, map, any, keep, some,
}
use void_switch.SortedSet.{add, expire_at, other_member}
use void_switch.RateLimit.{
  charge, Candidate, Scan, purge_candidate, remaining, is_unlimited, put_back, scan, charge_at,
  finish, reserve_any,
}

-- The candidate at a place, counted from 1, has this much left.
abbrev pub RemainingAt : ℕ → List Candidate → ℕ → Type 0
RemainingAt k [] r = ⊥
RemainingAt zero (c ∷ cs) r = ⊥
RemainingAt (suc zero) (c ∷ cs) r = remaining c ≡ r
RemainingAt (suc (suc k)) (c ∷ cs) r = RemainingAt (suc k) cs r

module _ (now : ℕ) where
  -- The loop keeps its best, or finds a better one at a place of the list.
  abbrev Kept : ℕ → ℕ → ℕ → List Candidate → Scan → Type 0
  Kept i best best_remaining cs s =
      ((s.best ≡ best) × (s.best_remaining ≡ best_remaining))
      ⊎ ((k : ℕ) × (s.best ≡ i + suc k)
          × RemainingAt (suc k) s.candidates s.best_remaining
          × (best_remaining < s.best_remaining))

  record Scanned (i best best_remaining : ℕ) (cs : List Candidate) (s : Scan) : Type 0 where
    ran : s.returned ≡ false
    purged : s.candidates ≡ map (purge_candidate now) cs
    grown : best_remaining ≤ s.best_remaining
    greatest : All (λ c. remaining c ≤ s.best_remaining) s.candidates
    found : Kept i best best_remaining cs s

  module _ (i best best_remaining : ℕ) (c : Candidate) (cs : List Candidate) (s : Scan) where
    no_better :
        remaining (purge_candidate now c) ≤ best_remaining
        → Scanned (i + 1) best best_remaining cs s
        → Scanned i best best_remaining (c ∷ cs) (put_back (purge_candidate now c) s)
    no_better h t = record {
      ran = t.ran;
      purged = ap (◌∷◌ (purge_candidate now c)) t.purged;
      grown = t.grown;
      greatest = (le_trans h t.grown, t.greatest);
      found = elim t.found [
        | inl same ↦ inl same
        | inr (k, at, left, more) ↦ inr (suc k, at ∙ omega arith, left, more)
      ];
    }

    better :
        best_remaining < remaining (purge_candidate now c)
        → Scanned (i + 1) (i + 1) (remaining (purge_candidate now c)) cs s
        → Scanned i best best_remaining (c ∷ cs) (put_back (purge_candidate now c) s)
    better h t = record {
      ran = t.ran;
      purged = ap (◌∷◌ (purge_candidate now c)) t.purged;
      grown = le_trans (le_of_lt h) t.grown;
      greatest = (t.grown, t.greatest);
      found = elim t.found [
        | inl (at, left) ↦ inr (0, at ∙ omega arith, sym left, rw left h)
        | inr (k, at, left, more) ↦ inr (suc k, at ∙ omega arith, left, lt_trans h more)
      ];
    }

  scan-Scanned :
      (i best best_remaining : ℕ) (cs : List Candidate)
      → any is_unlimited cs ≡ false
      → Scanned i best best_remaining cs (scan now (i + 1) best best_remaining cs)
  unfolding scan
  scan-Scanned i best best_remaining [] h = record {
    ran = refl;
    purged = refl;
    grown = omega arith;
    greatest = tt;
    found = inl (refl, refl);
  }
  scan-Scanned i best best_remaining (c ∷ cs) h =
      elim (Bool-cases (ltb best_remaining (remaining (purge_candidate now c)))) [
        | inl more ↦
            rw (limited, more)
              (better i best best_remaining c cs _ (ground arith)
                (scan-Scanned (i + 1) (i + 1) (remaining (purge_candidate now c)) cs others))
        | inr less ↦
            rw (limited, less)
              (no_better i best best_remaining c cs _ (ground arith)
                (scan-Scanned (i + 1) best best_remaining cs others))
      ]
    where
      limited : is_unlimited c ≡ false
      limited = ground arith

      others : any is_unlimited cs ≡ false
      others = ground arith

-- From `before` to `after` the candidate at a place, counted from 1, got an entry for the call and
-- the deadline that goes with its window, and nothing else changed.
abbrev pub ChargedAt : ℕ → String → ℕ → (before after : List Candidate) → Type 0
ChargedAt now member (suc zero) (c ∷ cs) (d ∷ ds) =
    (d.window ≡ c.window)
    × (d.maximum ≡ c.maximum)
    × (d.set.entries ≡ (now, member) ∷ keep (other_member member) c.set.entries)
    × (d.set.expires ≡ some (now + (c.window + 1000)))
    × (ds ≡ cs)
ChargedAt now member (suc (suc k)) (c ∷ cs) (d ∷ ds) = (d ≡ c) × ChargedAt now member (suc k) cs ds
ChargedAt now member _ _ _ = ⊥

charge_at-ChargedAt :
    (now : ℕ) (member : String) (k : ℕ) (cs : List Candidate) (r : ℕ)
    → RemainingAt k cs r
    → ChargedAt now member k cs (charge_at k now member cs)
unfolding charge_at charge add expire_at
charge_at-ChargedAt now member k [] r h = absurd h
charge_at-ChargedAt now member zero (c ∷ cs) r h = absurd h
charge_at-ChargedAt now member (suc zero) (c ∷ cs) r h = (refl, refl, refl, refl, refl)
charge_at-ChargedAt now member (suc (suc k)) (c ∷ cs) r h =
    (refl, charge_at-ChargedAt now member (suc k) cs r h)

-- The answer when every candidate is limited: either no candidate has room left, and nothing is
-- charged, or the one charged has room and none has more.
abbrev pub Charged : ℕ → String → List Candidate → Bool × List Candidate → Type 0
Charged now member purged out =
    (k : ℕ) × (r : ℕ) × (out.0 ≡ true)
    × ChargedAt now member k purged out.1
    × RemainingAt k purged r
    × (0 < r)
    × All (λ c. remaining c ≤ r) purged

abbrev pub Refused : List Candidate → Bool × List Candidate → Type 0
Refused purged out = (out.0 ≡ false) × (out.1 ≡ purged) × All (λ c. remaining c ≤ 0) purged

finish_lem :
    (now : ℕ) (member : String) (cs : List Candidate) (s : Scan)
    → Scanned now 0 0 0 cs s
    → Charged now member (map (purge_candidate now) cs) (finish now member s)
      ⊎ Refused (map (purge_candidate now) cs) (finish now member s)
unfolding finish
finish_lem now member cs s t = elim t.found [
  | inl (at, left) ↦ inr (
    ground (arith, t.ran),
    ground (arith, t.ran, t.purged),
    subst (All λ c. remaining c ≤ 0) t.purged
        (subst (λ (r : ℕ). All (λ c. remaining c ≤ r) s.candidates) left t.greatest),
  )
  | inr (k, at, left, more) ↦ inl (
    suc k,
    s.best_remaining,
    ground (arith, t.ran),
    rw (finish_charges k at t) (
        charge_at-ChargedAt now member (suc k) (map (purge_candidate now) cs) s.best_remaining
          (subst (λ l. RemainingAt (suc k) l s.best_remaining) t.purged left)),
    subst (λ l. RemainingAt (suc k) l s.best_remaining) t.purged left,
    more,
    subst (All λ c. remaining c ≤ s.best_remaining) t.purged t.greatest,
  )
]
  where
    finish_charges :
        (k : ℕ)
        → s.best ≡ 0 + suc k
        → Scanned now 0 0 0 cs s
        → (finish now member s).1 ≡ charge_at (suc k) now member (map (purge_candidate now) cs)
    finish_charges k at t = ground (arith, t.ran, t.purged, at)

-- With limited candidates only, a budget is charged exactly when some budget has room left after
-- the old entries are dropped, and it is one with the most room: it gets an entry for the call and
-- a new deadline, and no other budget changes. Else the call is refused and nothing is charged.
pub reserve_any_best :
    (now : ℕ) (member : String) (c : Candidate) (cs : List Candidate)
    → any is_unlimited (c ∷ cs) ≡ false
    → Charged now member (map (purge_candidate now) (c ∷ cs)) (reserve_any now member (c ∷ cs))
      ⊎ Refused (map (purge_candidate now) (c ∷ cs)) (reserve_any now member (c ∷ cs))
unfolding reserve_any
reserve_any_best now member c cs h =
    finish_lem now member (c ∷ cs) (scan now 1 0 0 (c ∷ cs)) (scan-Scanned now 0 0 0 (c ∷ cs) h)
