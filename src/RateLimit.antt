-- ===== src/RateLimit.antt =====
-- backend/voidswitch/core/ratelimit.py: the sliding-window limiter and its two Lua scripts. A script
-- runs as one step. Windows are whole microseconds, limits are not negative; a member is a fresh
-- UUID, given by the caller.
pub mod Window
pub mod Bound
pub mod Budgets
mod Tests
use void_switch.Base.{
  ℕ, zero, suc, ◌+◌, ◌-◌, ◌/◌, max, String, List, [], ◌∷◌, Bool, true, false, ◌||◌, leb, ltb, ◌==◌,
  if◌then◌else◌,
}
use void_switch.SortedSet.{SortedSet, at_time, remove_scores, add, card, expire_at}

-- `max(1, int(window_seconds * 1000))`
abbrev pub window_ms : ℕ → ℕ
window_ms window_us = max 1 (window_us / 1000)

unfoldable pub purge : ℕ → ℕ → SortedSet → SortedSet
unfolding at_time remove_scores
purge now window z = remove_scores (λ score. leb (score + window) now) (at_time now z)

unfoldable pub charge : ℕ → ℕ → String → SortedSet → SortedSet
unfolding add expire_at
charge now window member z = expire_at (now + (window + 1000)) (add now member z)

-- _ACQUIRE_SCRIPT
unfoldable pub acquire_script : ℕ → ℕ → ℕ → String → SortedSet → Bool × SortedSet
unfolding purge charge
acquire_script now window maximum member z =
    let purged = purge now window z in
    if leb maximum (card purged) then (false, purged) else (true, charge now window member purged)

unfoldable pub acquire : ℕ → ℕ → ℕ → String → SortedSet → Bool × SortedSet
unfolding acquire_script
acquire now window_us max_requests member z =
    if max_requests == 0 || window_us == 0
    then (true, z)
    else acquire_script now (window_ms window_us) max_requests member z

-- A candidate of `reserve_any` with the set under its key.
pub record Candidate : Type 0 where
  pub window : ℕ
  pub maximum : ℕ
  pub set : SortedSet

-- The state of the loop of _RESERVE_ANY_SCRIPT: whether it returned early, the candidates, and the
-- best of them (counted from 1, 0 for none) with what remains to it.
pub record Scan : Type 0 where
  pub returned : Bool
  pub candidates : List Candidate
  pub best : ℕ
  pub best_remaining : ℕ

abbrev pub purge_candidate : ℕ → Candidate → Candidate
purge_candidate now c = record c { set = purge now c.window c.set }

abbrev pub remaining : Candidate → ℕ
remaining c = c.maximum - card c.set

abbrev pub is_unlimited : Candidate → Bool
is_unlimited c = c.maximum == 0 || c.window == 0

abbrev pub put_back : Candidate → Scan → Scan
put_back c s = record s { candidates = c ∷ s.candidates }

unfoldable pub scan : ℕ → ℕ → ℕ → ℕ → List Candidate → Scan
scan now i best best_remaining [] = record {
  returned = false;
  candidates = [];
  best = best;
  best_remaining = best_remaining;
}
scan now i best best_remaining (c ∷ cs) =
    let purged = purge_candidate now c in
    let better = ltb best_remaining (remaining purged) in
    let rest = put_back purged (
      scan now (i + 1) (if better then i else best)
        (if better then remaining purged else best_remaining) cs) in
    if is_unlimited c
    then record {
      returned = true;
      candidates = c ∷ cs;
      best = best;
      best_remaining = best_remaining;
    }
    else rest

-- The ZADD and PEXPIRE at the chosen index.
unfoldable pub charge_at : ℕ → ℕ → String → List Candidate → List Candidate
unfolding charge
charge_at i now member [] = []
charge_at zero now member (c ∷ cs) = c ∷ cs
charge_at (suc zero) now member (c ∷ cs) = record c { set = charge now c.window member c.set } ∷ cs
charge_at (suc (suc i)) now member (c ∷ cs) = c ∷ charge_at (suc i) now member cs

unfoldable pub finish : ℕ → String → Scan → Bool × List Candidate
unfolding charge_at
finish now member s =
    if s.returned
    then (true, s.candidates)
    else if s.best == 0
    then (false, s.candidates)
    else (true, charge_at s.best now member s.candidates)

-- `reserve_any`, the windows of its candidates in milliseconds already.
unfoldable pub reserve_any : ℕ → String → List Candidate → Bool × List Candidate
unfolding scan finish
reserve_any now member [] = (true, [])
reserve_any now member (c ∷ cs) = finish now member (scan now 1 0 0 (c ∷ cs))
