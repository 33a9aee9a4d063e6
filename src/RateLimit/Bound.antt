-- ===== src/RateLimit/Bound.antt =====
-- No window ever holds more calls than the limit.
use native.Mathlib.Nat.{le_refl}
use void_switch.Base.{
  ℕ, ◌+◌, String, List, [], ◌∷◌, ◌&&◌, leb, leb→le, ltb, ◌≤◌, ◌<◌, arith, inl, inr, Bool-cases,
  keep, length, map,
}
use void_switch.SortedSet.{empty_set}
use void_switch.RateLimit.Window.{
  recent, admit, answers, answers-eq-admit, let_through, Ascending, Distinct,
}

-- The calls of a log in the window that ends at `now`.
abbrev pub in_window : ℕ → ℕ → List ℕ → List ℕ
in_window window now log = keep (λ t. ltb now (t + window) && leb t now) log

module _ (window maximum : ℕ) where
  -- Times fall along the log, and at each of its calls the window was within the limit.
  abbrev IsLimited : ℕ → List ℕ → Type 0
  IsLimited p [] = Unit
  IsLimited p (t ∷ log) =
      (t ≤ p) × ((length (recent window t (t ∷ log)) ≤ maximum) × IsLimited t log)

  IsLimited-later : (p q : ℕ) (log : List ℕ) → p ≤ q → IsLimited p log → IsLimited q log
  IsLimited-later p q [] h l = tt
  IsLimited-later p q (t ∷ log) h l = (omega arith, l.1)

  in_window-le :
      (t now : ℕ) (log : List ℕ)
      → t ≤ now
      → length (in_window window now log) ≤ length (recent window t log)
  in_window-le t now [] h = omega arith
  in_window-le t now (s ∷ log) h = ground (arith, in_window-le t now log h)

  IsLimited-in_window :
      (p now : ℕ) (log : List ℕ) → IsLimited p log → length (in_window window now log) ≤ maximum
  IsLimited-in_window p now [] l = omega arith
  IsLimited-in_window p now (t ∷ log) l = elim (Bool-cases (leb t now)) [
    | inl h ↦ omega (arith, in_window-le t now (t ∷ log) (leb→le t now h), l.1.0)
    | inr h ↦ ground (arith, IsLimited-in_window t now log l.1.1)
  ]

  admit-IsLimited :
      (p : ℕ) (log : List ℕ) (calls : List (ℕ × String))
      → 0 < window
      → IsLimited p log
      → Ascending p calls
      → (q : ℕ) × IsLimited q
          (let_through log calls (admit window maximum log (map (λ c. c.0) calls)))
  unfolding admit let_through
  admit-IsLimited p log [] w l a = (p, l)
  admit-IsLimited p log ((now, m) ∷ calls) w l a =
      elim (Bool-cases (ltb (length (recent window now log)) maximum)) [
        | inl room ↦ rw room (
            admit-IsLimited now (now ∷ log) calls w
              (le_refl now, (ground arith, IsLimited-later p now log a.0 l)) a.1)
        | inr full ↦ rw full (admit-IsLimited now log calls w (IsLimited-later p now log a.0 l) a.1)
      ]

-- At every instant, of the calls that the script let through no more than `maximum` lie in the
-- window that ends there.
pub answers_bounded :
    (window maximum p now : ℕ) (calls : List (ℕ × String))
    → 0 < window
    → Ascending p calls
    → Distinct calls
    → length (in_window window now (let_through [] calls (answers window maximum calls empty_set)))
      ≤ maximum
answers_bounded window maximum p now calls w a d =
    rw (answers-eq-admit window maximum p calls w a d) (
      let (q, l) = admit-IsLimited window maximum p [] calls w tt a in
      IsLimited-in_window window maximum q now _ l)
