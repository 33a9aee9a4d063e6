-- ===== src/RateLimit/Tests.antt =====
-- The limiter at concrete inputs.
use void_switch.Base.{
  ℕ, String, some, List, [], ◌∷◌, true, false, ◌≡◌, refl, ◌≤◌, length, ◌⊎◌, map, arith, any,
}
use void_switch.SortedSet.{empty_set}
use void_switch.RateLimit.{Candidate, acquire_script, reserve_any, purge_candidate, is_unlimited}
use void_switch.RateLimit.Window.{
  answers, admit, answers-eq-admit, let_through, Ascending, Distinct,
}
use void_switch.RateLimit.Bound.{answers_bounded, in_window}
use void_switch.RateLimit.Budgets.{reserve_any_best, Charged, Refused}

abbrev calls : List (ℕ × String)
calls = (1000, "a") ∷ (1400, "b") ∷ (1900, "c") ∷ (2000, "d") ∷ []

-- Two calls a second: the third is refused, and the fourth comes when the first is a second old.
answers_run : answers 1000 2 calls empty_set ≡ true ∷ true ∷ false ∷ true ∷ []
unfolding answers acquire_script
answers_run = refl

calls-Ascending : Ascending 0 calls
calls-Ascending = omega arith

calls-Distinct : Distinct calls
calls-Distinct = ((refl, (refl, (refl, tt))), ((refl, (refl, tt)), ((refl, tt), (tt, tt))))

answers-eq-admit_example :
    answers 1000 2 calls empty_set ≡ admit 1000 2 [] (1000 ∷ 1400 ∷ 1900 ∷ 2000 ∷ [])
answers-eq-admit_example =
    answers-eq-admit 1000 2 0 calls (omega arith) calls-Ascending calls-Distinct

answers_bounded_example :
    length (in_window 1000 2000 (let_through [] calls (answers 1000 2 calls empty_set))) ≤ 2
answers_bounded_example =
    answers_bounded 1000 2 0 2000 calls (omega arith) calls-Ascending calls-Distinct

abbrev candidate : ℕ → List (ℕ × String) → Candidate
candidate maximum entries = record {
  window = 1000;
  maximum = maximum;
  set = record { entries = entries; expires = some 9000 };
}

abbrev small : Candidate
small = candidate 2 ((1500, "x") ∷ [])

abbrev large : Candidate
large = candidate 5 ((1600, "y") ∷ (1550, "z") ∷ [])

limited : any is_unlimited (small ∷ large ∷ []) ≡ false
limited = refl

reserve_any_best_example :
    Charged 2000 "m"
      (map (purge_candidate 2000) (small ∷ large ∷ []))
      (reserve_any 2000 "m" (small ∷ large ∷ []))
    ⊎ Refused
        (map (purge_candidate 2000) (small ∷ large ∷ []))
        (reserve_any 2000 "m" (small ∷ large ∷ []))
reserve_any_best_example = reserve_any_best 2000 "m" small (large ∷ []) limited
