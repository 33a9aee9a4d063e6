-- ===== src/Dispatcher/Results.antt =====
-- What a dispatch's reply says about the attempts.
use void_switch.Base.{
  ℕ, ◌+◌, String, Option, none, some, List, ◌∷◌, Bool, true, false, ◌&&◌, not, ltb, ◌≡◌, refl, ◌∙◌,
  ap, inl, inr, ◌⊎◌, Bool-cases, Option-cases, if_rule, subst,
}
use void_switch.ErrorPolicy.{TextLib}
use void_switch.Providers.{ErrorClass}
use void_switch.UpstreamHealth.{HeaderLib}
use void_switch.Dispatcher.{
  Env, State, Request, Settings, Site, Turn, Next, leave, reply, Reply, served, client_error,
  raised, Answer, Outcome, network_error, answered, Summary, tried,
}
use void_switch.Keys.Changes.{fits_calendar}
use void_switch.Dispatcher.Answers.{
  key_cooldown, try_key, on_outcome, on_answer, on_class, on_fine, on_empty, on_served,
  on_key_invalid, disable, after_refresh, finishes, final_reply, on_rate_limited, on_not_found,
  on_server_error, on_protected, on_network_error, is_degenerate, is_protected, attempt_limit,
  decision_of, class_of,
}
use void_switch.Dispatcher.Rounds.{try_key_counts}

module _ (env : Env) (text : TextLib) (lib : HeaderLib) (settings : Settings) (req : Request) where
  -- The last attempt of a state: an answer with a key at a site.
  abbrev pub LastTried : Site → ℕ → Answer → State env → Type 0
  LastTried at key a s =
      (n : ℕ) × (before : List Summary) × (s.summaries
        ≡ tried n at.provider.id key at.upstream_model (answered a) ∷ before)

  -- A rate limit that parks its key past the end of the calendar.
  abbrev pub Overlong : Site → Answer → Type 0
  Overlong at a =
      (class_of at a ≡ ErrorClass.rate_limited)
      × (now : ℕ) × (fits_calendar now (key_cooldown env text lib settings req at a now) ≡ false)

  -- What a reply of an attempt says about its answer.
  abbrev pub Says : Reply → Site → ℕ → Answer → Type 0
  Says (served p key a) at key' a' =
      (at.provider.id ≡ p)
      × (key' ≡ key)
      × (a' ≡ a)
      × (class_of at a ≡ ErrorClass.fine)
      × (is_degenerate req at a ≡ some false)
      × (finishes env text lib settings req at a ≡ true)
  Says (client_error a) at key' a' = (a' ≡ a) × (class_of at a ≡ ErrorClass.bad_request)
  Says raised at key' a' =
      ((class_of at a' ≡ ErrorClass.fine)
        × ((is_degenerate req at a' ≡ none) ⊎ (finishes env text lib settings req at a' ≡ false)))
      ⊎ Overlong at a'
  Says _ at key' a' = ⊥

  -- The answer behind a reply: it was the last attempt, at an upstream of an enabled provider, and
  -- the error policy does not shield it.
  abbrev pub Earned : Reply → State env → Type 0
  Earned r s =
      (at : Site) × (key : ℕ) × (a : Answer) × (at.provider.enabled ≡ true)
      × (is_protected (decision_of text at a) ≡ false)
      × LastTried at key a s
      × Says r at key a

  reply-inj : {q r : Reply} → reply q ≡ reply r → q ≡ r
  reply-inj e = cc

  leave_ne_reply : (b : Bool) (r : Reply) → ¬ (leave b ≡ reply r)
  leave_ne_reply b r e = cc

  after_refresh_silent :
      (key : ℕ) (a : Answer) (o : Option Turn) (s : State env) (r : Reply)
      → ¬ ((after_refresh env text lib settings req key a o s).0 ≡ reply r)
  unfolding disable
  after_refresh_silent key a none s r e = cc
  after_refresh_silent key a (some turn) s r e = cc

  abbrev Silent : Next × State env → Type 0
  Silent out = (r : Reply) → ¬ (out.0 ≡ reply r)

  on_key_invalid-Silent :
      (at : Site) (key : ℕ) (turn : Turn) (a : Answer) (s : State env)
      → Silent (on_key_invalid env text lib settings req at key turn a s)
  unfolding on_key_invalid disable
  on_key_invalid-Silent at key turn a s =
      if_rule Silent (at.provider.adapter.refresh_on_invalid_key && not turn.oauth_refreshed) _ _
        (λ first. after_refresh_silent key a _ _) (λ last r e. cc)

  final_reply-Says :
      (at : Site) (key : ℕ) (a : Answer)
      → class_of at a ≡ ErrorClass.fine
      → is_degenerate req at a ≡ some false
      → Says (final_reply env text lib settings req at key a) at key a
  final_reply-Says at key a c n =
      if_rule (λ r. Says r at key a) (finishes env text lib settings req at a) _ _
        (λ done. (refl, refl, refl, c, n, done)) (λ fails. inl (c, inr fails))

  on_fine-Says :
      (at : Site) (key : ℕ) (a : Answer) (s : State env) (r : Reply)
      → class_of at a ≡ ErrorClass.fine
      → (on_fine env text lib settings req at key a s).0 ≡ reply r
      → Says r at key a
  unfolding on_fine on_empty on_served
  on_fine-Says at key a s r c e = elim (Option-cases (is_degenerate req at a)) [
    | inl n ↦ subst (λ q. Says q at key a) (reply-inj (rw (n, on_fine) at e)) (inl (c, inl n))
    | inr (true, n) ↦ absurd (leave_ne_reply false r (rw (n, on_fine) at e))
    | inr (false, n) ↦
        subst (λ q. Says q at key a) (reply-inj (rw (n, on_fine) at e))
          (final_reply-Says at key a c n)
  ]

  on_rate_limited-Says :
      (at : Site) (key : ℕ) (a : Answer) (s : State env) (r : Reply)
      → class_of at a ≡ ErrorClass.rate_limited
      → (on_rate_limited env text lib settings req at key a s).0 ≡ reply r
      → Says r at key a
  unfolding on_rate_limited
  on_rate_limited-Says at key a s r c =
      if_rule (λ (out : Next × State env). out.0 ≡ reply r → Says r at key a)
        (fits_calendar (env.now s.world)
          (key_cooldown env text lib settings req at a (env.now s.world)))
        _ _ (λ fits e. absurd (leave_ne_reply false r e))
        λ late e. subst (λ q. Says q at key a) (reply-inj e) (inr (c, env.now s.world, late))

  on_class-Says :
      (c : ErrorClass) (at : Site) (key : ℕ) (turn : Turn) (a : Answer) (s : State env) (r : Reply)
      → class_of at a ≡ c
      → (on_class env text lib settings req c at key turn a s).0 ≡ reply r
      → Says r at key a
  unfolding on_class disable on_not_found on_server_error
  on_class-Says ErrorClass.fine at key turn a s r c e = on_fine-Says at key a s r c e
  on_class-Says ErrorClass.key_invalid at key turn a s r c e =
      absurd (on_key_invalid-Silent at key turn a s r e)
  on_class-Says ErrorClass.rate_limited at key turn a s r c e =
      on_rate_limited-Says at key a s r c e
  on_class-Says ErrorClass.bad_request at key turn a s r c e =
      subst (λ q. Says q at key a) (reply-inj e) (refl, c)
  on_class-Says _ at key turn a s r c e = absurd (leave_ne_reply _ r e)

  on_protected-Silent :
      (at : Site) (turn : Turn) (a : Answer) (final : String) (s : State env)
      → Silent (on_protected env text lib settings req at turn a final s)
  unfolding on_protected
  on_protected-Silent at turn a final s =
      if_rule Silent
        (at.provider.protected_error_retry_enabled
          && (not turn.protected_repeat_used && ltb s.provider_attempts (attempt_limit settings)))
        _ _ (λ again r e. cc) (λ last r e. cc)

  on_network_error-Silent :
      (at : Site) (error : String) (blame_proxy : Bool) (s : State env)
      → Silent (on_network_error env text lib settings req at error blame_proxy s)
  unfolding on_network_error
  on_network_error-Silent at error true s r e = cc
  on_network_error-Silent at error false s r e = cc

  on_outcome-Says :
      (at : Site) (key : ℕ) (turn : Turn) (o : Outcome) (s : State env) (r : Reply)
      → (on_outcome env text lib settings req at key turn o s).0 ≡ reply r
      → (a : Answer) × (o ≡ answered a)
        × (is_protected (decision_of text at a) ≡ false)
        × Says r at key a
  unfolding on_outcome on_answer
  on_outcome-Says at key turn (network_error error b) s r e =
      absurd (on_network_error-Silent at error b s r e)
  on_outcome-Says at key turn (answered a) s r e =
      elim (Bool-cases (is_protected (decision_of text at a))) [
        | inl p ↦ absurd (on_protected-Silent at turn a _ _ r (rw p at e))
        | inr p ↦ (a, refl, p, on_class-Says _ at key turn a _ r refl (rw p at e))
      ]

  pub try_key_says :
      (at : Site) (key : ℕ) (turn : Turn) (s : State env) (r : Reply)
      → at.provider.enabled ≡ true
      → (try_key env text lib settings req at key turn s).0 ≡ reply r
      → Earned r (try_key env text lib settings req at key turn s).1
  unfolding try_key
  try_key_says at key turn s r on e =
      let (a, o, plain, says) = on_outcome-Says at key turn _ _ r e in
      let note = (try_key_counts env text lib settings req at key turn s).2 in
      (
        at,
        key,
        a,
        on,
        plain,
        (
          _,
          s.summaries,
          note
              ∙ ap
                  (λ x.
                    tried (s.provider_attempts + 1) at.provider.id key at.upstream_model x
                    ∷ s.summaries)
                  o,
        ),
        says,
      )
