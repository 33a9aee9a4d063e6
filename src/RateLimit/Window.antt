-- ===== src/RateLimit/Window.antt =====
-- The limiter against the log of the calls that it let through.
use native.Mathlib.Nat.{le_refl}
use void_switch.Base.{
  ℕ, ◌+◌, String, some, List, [], ◌∷◌, Bool, true, false, leb, ltb, if◌then◌else◌, ◌≡◌, refl, sym,
  ◌∙◌, ap, ◌≤◌, ◌<◌, arith, inl, inr, Bool-cases, keep, length, any-keep, length-map, All, All-map,
  All-keep, map, any, str_eq,
}
use void_switch.SortedSet.{
  SortedSet, empty_set, at_time-cases, card, has_member, other_member, holds,
}
use void_switch.RateLimit.{purge, charge, acquire_script}

-- The calls of a log, newest first, that are younger than the window at `now`.
abbrev pub recent : ℕ → ℕ → List ℕ → List ℕ
recent window now log = keep (λ t. ltb now (t + window)) log

-- What a limiter promises, said over the log alone: a call is let through while fewer than
-- `maximum` calls of the log are younger than the window.
unfoldable pub admit : ℕ → ℕ → List ℕ → List ℕ → List Bool
admit window maximum log [] = []
admit window maximum log (now ∷ calls) =
    let room = ltb (length (recent window now log)) maximum in
    room ∷ admit window maximum (if room then now ∷ log else log) calls

-- The answers of the script to a series of calls.
unfoldable pub answers : ℕ → ℕ → List (ℕ × String) → SortedSet → List Bool
answers window maximum [] z = []
answers window maximum ((now, member) ∷ calls) z =
    let (b, z') = acquire_script now window maximum member z in b ∷ answers window maximum calls z'

-- Times do not go back.
abbrev pub Ascending : ℕ → List (ℕ × String) → Type 0
Ascending p [] = Unit
Ascending p ((now, member) ∷ calls) = (p ≤ now) × Ascending now calls

-- No two calls have one member.
abbrev pub Distinct : List (ℕ × String) → Type 0
Distinct [] = Unit
Distinct ((now, member) ∷ calls) = All (λ c. str_eq member c.1 ≡ false) calls × Distinct calls

abbrev scores : SortedSet → List ℕ
scores z = map (λ e. e.0) z.entries

module _ (window : ℕ) where
  recent-recent :
      (p now : ℕ) (log : List ℕ)
      → p ≤ now
      → recent window now (recent window p log) ≡ recent window now log
  recent-recent p now [] h = refl
  recent-recent p now (t ∷ log) h = ground (arith, recent-recent p now log)

  recent-scores :
      (now : ℕ) (es : List (ℕ × String))
      → map (λ e. e.0) (keep (λ e. if leb (e.0 + window) now then false else true) es)
        ≡ recent window now (map (λ e. e.0) es)
  recent-scores now [] = refl
  recent-scores now (e ∷ es) = ground (arith, recent-scores now es)

  recent_old :
      (now : ℕ) (es : List (ℕ × String))
      → All (λ e. e.0 + window ≤ now) es
      → recent window now (map (λ e. e.0) es) ≡ []
  recent_old now [] h = refl
  recent_old now (e ∷ es) h = ground (arith, recent_old now es h.1)

  -- The set holds the calls that were younger than the window at its last purge `p`, and its
  -- deadline does not cut any of them short.
  record Tracks (p : ℕ) (log : List ℕ) (z : SortedSet) : Type 0 where
    kept : scores z ≡ recent window p log
    past : All (λ e. e.0 ≤ p) z.entries
    deadline : (d : ℕ) → z.expires ≡ some d → All (λ e. e.0 + window ≤ d) z.entries

  module _ (p now : ℕ) (log : List ℕ) (z : SortedSet) where
    purge-scores : Tracks p log z → p ≤ now → scores (purge now window z) ≡ recent window now log
    unfolding purge
    purge-scores t h = elim (at_time-cases now z) [
      | inl e ↦
          rw e (
            recent-scores now z.entries ∙ ap (recent window now) t.kept ∙ recent-recent p now log h)
      | inr (e, d, x, late) ↦ rw e (
          sym (
            sym (recent-recent p now log h)
            ∙ ap (recent window now) (sym t.kept)
            ∙ recent_old now z.entries (
                All-map _ (λ e. e.0 + window ≤ now) z.entries (λ e k. omega arith)
                  (t.deadline d x))))
    ]

    purge-Tracks : Tracks p log z → p ≤ now → Tracks now log (purge now window z)
    unfolding purge
    purge-Tracks t h = record {
      kept = purge-scores t h;
      past = elim (at_time-cases now z) [
        | inl e ↦ rw e (
            All-keep _ _ z.entries
              (All-map _ (λ e. e.0 ≤ now) z.entries (λ e k. omega arith) t.past))
        | inr (e, d, x, late) ↦ rw e tt
      ];
      deadline = elim (at_time-cases now z) [
        | inl e ↦ rw e (λ d x. All-keep _ _ z.entries (t.deadline d x))
        | inr (e, d, x, late) ↦ rw e (λ d x. tt)
      ];
    }

  keep-other :
      (m : String) (es : List (ℕ × String))
      → any (has_member m) es ≡ false
      → keep (other_member m) es ≡ es
  keep-other m [] h = refl
  keep-other m (e ∷ es) h = ground (arith, keep-other m es)

  charge-Tracks :
      (now : ℕ) (m : String) (log : List ℕ) (z : SortedSet)
      → 0 < window
      → Tracks now log z
      → holds m z ≡ false
      → Tracks now (now ∷ log) (charge now window m z)
  unfolding charge
  charge-Tracks now m log z w t h =
      let same = keep-other m z.entries h in
      record {
        kept = rw same (ground (arith, t.kept));
        past = rw same (le_refl now, t.past);
        deadline = λ d x. rw same (
          let e : d ≡ now + (window + 1000) = ground arith in omega arith,
          All-map _ (λ e. e.0 + window ≤ d) z.entries (λ e k. ground arith) t.past,
        );
      }

  abbrev Unused : List (ℕ × String) → SortedSet → Type 0
  Unused calls z = All (λ c. holds c.1 z ≡ false) calls

  holds-purge :
      (now : ℕ) (m : String) (z : SortedSet)
      → holds m z ≡ false
      → holds m (purge now window z) ≡ false
  unfolding purge
  holds-purge now m z h = elim (at_time-cases now z) [
    | inl e ↦ rw e (any-keep (has_member m) _ z.entries h)
    | inr (e, d, x, late) ↦ rw e refl
  ]

  holds-charge :
      (now : ℕ) (own m : String) (z : SortedSet)
      → holds m z ≡ false
      → str_eq own m ≡ false
      → holds m (charge now window own z) ≡ false
  unfolding charge
  holds-charge now own m z h k = rw k (any-keep (has_member m) _ z.entries h)

  Unused-charge :
      (now : ℕ) (own : String) (z : SortedSet) (calls : List (ℕ × String))
      → Unused calls z
      → All (λ c. str_eq own c.1 ≡ false) calls
      → Unused calls (charge now window own z)
  Unused-charge now own z [] u d = tt
  Unused-charge now own z (c ∷ calls) u d =
      (holds-charge now own c.1 z u.0 d.0, Unused-charge now own z calls u.1 d.1)

  module _ (maximum : ℕ) (w : 0 < window) where
    follow :
        (p : ℕ) (log : List ℕ) (z : SortedSet) (calls : List (ℕ × String))
        → Tracks p log z
        → Ascending p calls
        → Distinct calls
        → Unused calls z
        → answers window maximum calls z ≡ admit window maximum log (map (λ c. c.0) calls)
    unfolding answers admit acquire_script
    follow p log z [] t a d u = refl
    follow p log z ((now, m) ∷ calls) t a d u = elim (Bool-cases (leb maximum (card purged))) [
      | inl full ↦
          rw (full, full_test full)
            (ap (◌∷◌ false) (follow now log purged calls purged_Tracks a.1 d.1 unused))
      | inr room ↦
          rw (room, room_test room)
            (ap (◌∷◌ true) (
              follow now (now ∷ log) (charge now window m purged) calls
                (charge-Tracks now m log purged w purged_Tracks (holds-purge now m z u.0)) a.1 d.1
                (Unused-charge now m purged calls unused d.0)))
    ]
      where
        purged : SortedSet
        purged = purge now window z

        purged_Tracks : Tracks now log purged
        purged_Tracks = purge-Tracks p now log z t a.0

        counted : card purged ≡ length (recent window now log)
        counted = sym (length-map _ purged.entries) ∙ ap length (purge-scores p now log z t a.0)

        full_test :
            leb maximum (card purged) ≡ true → ltb (length (recent window now log)) maximum ≡ false
        full_test h = ground (arith, counted)

        room_test :
            leb maximum (card purged) ≡ false → ltb (length (recent window now log)) maximum ≡ true
        room_test h = ground (arith, counted)

        unused : Unused calls purged
        unused = All-map _ _ calls (λ c. holds-purge now c.1 z) u.1

-- From an empty key, at times that do not go back and under distinct members, the script lets a
-- call through exactly when fewer than `maximum` of the calls that it let through before are
-- younger than the window: the sorted set with its purges and its deadline is that log.
pub answers-eq-admit :
    (window maximum p : ℕ) (calls : List (ℕ × String))
    → 0 < window
    → Ascending p calls
    → Distinct calls
    → answers window maximum calls empty_set ≡ admit window maximum [] (map (λ c. c.0) calls)
answers-eq-admit window maximum p calls w a d =
    follow window maximum w p [] empty_set calls
      (record { kept = refl; past = tt; deadline = λ e x. tt }) a d (nothing_held calls)
  where
    nothing_held : (cs : List (ℕ × String)) → Unused window cs empty_set
    nothing_held [] = tt
    nothing_held (c ∷ cs) = (refl, nothing_held cs)

-- The times at which a series of calls was let through, newest first, after those of `log`.
unfoldable pub let_through : List ℕ → List (ℕ × String) → List Bool → List ℕ
let_through log ((now, member) ∷ calls) (true ∷ more) = let_through (now ∷ log) calls more
let_through log ((now, member) ∷ calls) (false ∷ more) = let_through log calls more
let_through log _ _ = log
