-- ===== src/Dispatcher/Survives.antt =====
-- What other upstreams leave of a key that they do not hold, and how many attempts they take.
use mathlib.Core.List.{mem-cons, not-mem-nil}
use mathlib.Core.List.Perm
use mathlib.Core.Logic.Or
use void_switch.Base.{
  ℕ, zero, suc, ◌+◌, ◌*◌, ◌-◌, ◌≤◌, ◌<◌, String, Option, none, some, List, [], ◌∷◌, map, Perm, Mem,
  Bool, true, false, ◌≡◌, refl, ◌∙◌, arith, inl, inr, Bool-cases, if_rule, ◌==◌, any, take, length,
  or_zero,
}
use void_switch.ErrorPolicy.{TextLib}
use void_switch.Keys.{ApiKey}
use void_switch.Selector.{Rng}
use void_switch.UpstreamHealth.{HeaderLib}
use void_switch.Dispatcher.{
  Env, State, Request, Settings, Site, Turn, Next, again, leave, reply, Reply,
}
use void_switch.Dispatcher.Answers.{moved, try_key, attempted, call_of, attempt_limit}
use void_switch.Dispatcher.Loops.{
  is_spent, fresh_turn, after_round, after_key, run_turns, run_key, resolved, with_credential,
  run_keys,
}
use void_switch.Dispatcher.Rounds.{try_key_counts}
use void_switch.Dispatcher.Frame.{on_outcome_rows}
use void_switch.Dispatcher.Chances.{moved_ids, chances, try_key-Round}

module _ {ℓ} {A : Type ℓ} (test : A → Bool) where
  any_found : (xs : List A) → any test xs ≡ true → (a : A) × Mem a xs × (test a ≡ true)
  any_found [] h = absurd (cc h)
  any_found (x ∷ xs) h = elim (Bool-cases (test x)) [
    | inl e ↦ (x, mem-cons.1 (Or.inl refl), e)
    | inr e ↦
        let found = any_found xs (rw e at h) in (found.0, mem-cons.1 (Or.inr found.1), found.2)
  ]

  any_mem : (a : A) (xs : List A) → Mem a xs → test a ≡ true → any test xs ≡ true
  any_mem a [] m h = absurd (not-mem-nil m)
  any_mem a (x ∷ xs) m h =
      Or.elim (hlevel) (mem-cons.0 m) (λ p. rw (← p, h) refl)
        (λ n. ground (arith, any_mem a xs n h))

  pub any-Perm : (xs ys : List A) → Perm xs ys → any test ys ≡ true → any test xs ≡ true
  any-Perm xs ys p h =
      let found = any_found ys h in any_mem found.0 xs ((Perm.mem_iff p).1 found.1) found.2

  pub any-Perm_false : (xs ys : List A) → Perm xs ys → any test ys ≡ false → any test xs ≡ false
  any-Perm_false xs ys p h = elim (Bool-cases (any test xs)) [
    | inl e ↦ absurd (cc (any-Perm ys xs (Perm.symm p) e, h))
    | inr e ↦ e
  ]

  pub any-take : (n : ℕ) (xs : List A) → any test xs ≡ false → any test (take n xs) ≡ false
  any-take zero xs h = refl
  any-take (suc n) [] h = refl
  any-take (suc n) (x ∷ xs) h = ground (arith, any-take n xs)

pub length-take_le {ℓ} : {A : Type ℓ} (n : ℕ) (xs : List A) → length (take n xs) ≤ n
length-take_le zero xs = omega arith
length-take_le (suc n) [] = omega arith
length-take_le (suc n) (x ∷ xs) = omega (arith, length-take_le n xs)

module _ (env : Env) (k : ℕ) (row : ApiKey) where
  -- Each row has its own id, and that of the key `k` is as it was.
  pub record Kept (s : State env) : Type 0 where
    pub ids : (n : ℕ) → (s.rows n).id ≡ some n
    pub row_same : s.rows k ≡ row

  -- From `s` to `t`, at most `n` attempts and `m` upstreams were begun, and the key is as it was.
  pub record WithinOf (n m : ℕ) (s t : State env) : Type 0 where
    pub attempts : t.provider_attempts ≤ s.provider_attempts + n
    pub upstreams : t.upstreams_tried ≤ s.upstreams_tried + m
    pub kept : Kept t

  abbrev pub is_key : ApiKey → Bool
  is_key q = or_zero q.id == k

  pub not-listed :
      (s : State env) (ids : List ℕ)
      → Kept s
      → any (λ n. n == k) ids ≡ false
      → any is_key (map s.rows ids) ≡ false
  not-listed s [] h e = refl
  not-listed s (n ∷ ids) h e = ground (arith, h.ids n, not-listed s ids h)

  module _ (text : TextLib) (lib : HeaderLib) (rng : Rng) (settings : Settings)
      (req : Request) where
    other_row :
        (at : Site) (key : ℕ) (turn : Turn) (s : State env)
        → (k == key) ≡ false
        → (try_key env text lib settings req at key turn s).1.rows k ≡ s.rows k
    unfolding try_key
    other_row at key turn s other =
        let out = env.attempt (call_of env text lib settings req at turn) s.world in
        elim (on_outcome_rows env text lib settings req at key turn out.0
          (attempted env text lib settings req at key out s)) [
            | inl still ↦ still k
            | inr (blame, only) ↦ only k other
          ]

    try_key-Within :
        (at : Site) (key : ℕ) (turn : Turn) (s : State env)
        → (key == k) ≡ false
        → Kept s
        → WithinOf 1 0 s (try_key env text lib settings req at key turn s).1
    try_key-Within at key turn s other h =
        let (one, same, note) = try_key_counts env text lib settings req at key turn s in
        record {
          attempts = omega (arith, one);
          upstreams = omega (arith, same);
          kept = record {
            ids = λ n. (try_key-Round env text lib settings req at key turn s).ids n ∙ h.ids n;
            row_same = other_row at key turn s (ground arith) ∙ h.row_same;
          };
        }

    -- Rounds with a key that may go on `n` more times after this one.
    abbrev TurnsWithin : Turn → State env → Next × State env → Type 0
    TurnsWithin turn s out = WithinOf (chances turn + 1) 0 s out.1

    after_round-Within :
        (turn : Turn) (s : State env) (go_on : Turn → State env → Next × State env)
        (out : Next × State env)
        → WithinOf 1 0 s out.1
        → ((t : Turn) → out.0 ≡ again t → chances t < chances turn)
        → ((t : Turn) (s' : State env) → Kept s' → TurnsWithin t s' (go_on t s'))
        → TurnsWithin turn s (after_round env go_on out)
    unfolding after_round
    after_round-Within turn s go_on (again t, s') w f g =
        let rest = g t s' w.kept in
        let less = f t refl in
        record {
          attempts = omega (arith, w.attempts, rest.attempts);
          upstreams = omega (arith, w.upstreams, rest.upstreams);
          kept = rest.kept;
        }
    after_round-Within turn s go_on (leave b, s') w f g = record {
      attempts = omega (arith, w.attempts);
      upstreams = w.upstreams;
      kept = w.kept;
    }
    after_round-Within turn s go_on (reply r, s') w f g = record {
      attempts = omega (arith, w.attempts);
      upstreams = w.upstreams;
      kept = w.kept;
    }

    pub rest-Within : (n : ℕ) (s : State env) → Kept s → WithinOf n 0 s s
    rest-Within n s h = record { attempts = omega arith; upstreams = omega arith; kept = h }

    run_turns-Within :
        (fuel : ℕ) (at : Site) (key : ℕ) (turn : Turn) (s : State env)
        → (key == k) ≡ false
        → Kept s
        → TurnsWithin turn s (run_turns env text lib rng settings req fuel at key turn s)
    unfolding run_turns
    run_turns-Within zero at key turn s other h = rest-Within _ s h
    run_turns-Within (suc fuel) at key turn s other h =
        if_rule (TurnsWithin turn s) (is_spent env settings s) _ _ (λ spent. rest-Within _ s h)
          λ left.
            after_round-Within turn s (run_turns env text lib rng settings req fuel at key)
              (try_key env text lib settings req at key turn s)
              (try_key-Within at key turn s other h)
              (try_key-Round env text lib settings req at key turn s).fewer
              λ t s' h'. run_turns-Within fuel at key t s' other h'

    after_key-Within :
        (n : ℕ) (s : State env) (go_on : State env → Option Reply × State env)
        (out : Next × State env)
        → WithinOf 3 0 s out.1
        → ((s' : State env) → Kept s' → WithinOf n 0 s' (go_on s').1)
        → WithinOf (3 + n) 0 s (after_key env go_on out).1
    unfolding after_key
    after_key-Within n s go_on (again t, s') w g = record {
      attempts = omega (arith, w.attempts);
      upstreams = w.upstreams;
      kept = w.kept;
    }
    after_key-Within n s go_on (leave true, s') w g = record {
      attempts = omega (arith, w.attempts);
      upstreams = w.upstreams;
      kept = w.kept;
    }
    after_key-Within n s go_on (leave false, s') w g =
        let rest = g s' w.kept in
        record {
          attempts = omega (arith, w.attempts, rest.attempts);
          upstreams = omega (arith, w.upstreams, rest.upstreams);
          kept = rest.kept;
        }
    after_key-Within n s go_on (reply r, s') w g = record {
      attempts = omega (arith, w.attempts);
      upstreams = w.upstreams;
      kept = w.kept;
    }

    moved-Kept :
        (key : ℕ) (checked : Option ℕ) (world : env.World) (s : State env)
        → (key == k) ≡ false
        → Kept s
        → Kept (moved env key checked world s)
    moved-Kept key checked world s other h =
        let apart : (k == key) ≡ false = ground arith in
        record {
          ids = λ n. moved_ids env key checked world s n ∙ h.ids n;
          row_same = rw apart h.row_same;
        }

    with_credential-Within :
        (n : ℕ) (at : Site) (key : ℕ) (go_on : State env → Option Reply × State env)
        (o : Option String × Option ℕ × env.World) (s : State env)
        → (key == k) ≡ false
        → Kept s
        → ((s' : State env) → Kept s' → WithinOf n 0 s' (go_on s').1)
        → WithinOf
            (3 + n)
            0
            s
            (with_credential env text lib rng settings req at key go_on (resolved env key o s)).1
    unfolding with_credential run_key
    with_credential-Within n at key go_on (none, checked, world) s other h g =
        let now_kept = moved-Kept key checked world s other h in
        let rest = g _ (record { ids = now_kept.ids; row_same = now_kept.row_same }) in
        record {
          attempts = omega (arith, rest.attempts);
          upstreams = rest.upstreams;
          kept = rest.kept;
        }
    with_credential-Within n at key go_on (some c, checked, world) s other h g =
        let t = moved env key checked world s in
        let now_kept = moved-Kept key checked world s other h in
        if_rule (λ (out : Option Reply × State env). WithinOf (3 + n) 0 s out.1)
          (env.prepares at.provider at.upstream_model c) _ _
          (λ built.
            let turns =
              run_turns-Within (attempt_limit settings - s.provider_attempts) at key (fresh_turn c)
                t other now_kept in
            after_key-Within n s go_on
              (run_key env text lib rng settings req at key (fresh_turn c) t)
              (record { attempts = turns.attempts; upstreams = turns.upstreams; kept = turns.kept })
              g)
          λ not_built. record { attempts = omega arith; upstreams = omega arith; kept = now_kept }

    pub run_keys-Within :
        (at : Site) (keys : List ApiKey) (s : State env)
        → any is_key keys ≡ false
        → Kept s
        → WithinOf (3 * length keys) 0 s (run_keys env text lib rng settings req at keys s).1
    unfolding run_keys
    run_keys-Within at [] s other h = rest-Within _ s h
    run_keys-Within at (q ∷ keys) s other h =
        if_rule (λ (out : Option Reply × State env). WithinOf (3 * suc (length keys)) 0 s out.1)
          (is_spent env settings s) _ _ (λ spent. rest-Within _ s h)
          λ left.
            let out =
              with_credential-Within (3 * length keys) at (or_zero q.id)
                (run_keys env text lib rng settings req at keys)
                (env.resolve at.provider (s.rows (or_zero q.id)) false s.world) s (ground arith) h
                λ s' h'. run_keys-Within at keys s' (ground arith) h' in
            record {
              attempts = omega (arith, out.attempts);
              upstreams = out.upstreams;
              kept = out.kept;
            }
