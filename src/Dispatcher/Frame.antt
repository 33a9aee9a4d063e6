-- ===== src/Dispatcher/Frame.antt =====
-- Which keys a dispatch changes.
use void_switch.Base.{
  ℕ, String, Option, none, some, Bool, true, false, not, ◌≡◌, refl, arith, inl, inr, ◌⊎◌,
  Bool-cases, if_rule, ◌==◌, ◌&&◌,
}
use void_switch.ErrorPolicy.{TextLib}
use void_switch.Providers.{ErrorClass}
use void_switch.UpstreamHealth.{HeaderLib}
use void_switch.Dispatcher.{
  Env, State, Request, Settings, Site, Turn, Next, Answer, Outcome, network_error, answered,
}
use void_switch.Dispatcher.Answers.{
  on_outcome, on_answer, on_class, on_fine, on_empty, on_served, on_key_invalid, disable, moved,
  after_refresh, on_rate_limited, on_not_found, on_server_error, on_protected, on_network_error,
  trip_upstream, seen, is_protected, decision_of, class_of,
}

-- The classes of answers that are put down to the key.
abbrev pub is_about_key : ErrorClass → Bool
is_about_key ErrorClass.upstream_overloaded = false
is_about_key ErrorClass.not_found = false
is_about_key ErrorClass.bad_request = false
is_about_key _ = true

-- An answer that may change the row of the key it was for.
abbrev pub Blames : TextLib → Site → Outcome → Type 0
Blames text at o =
    (a : Answer) × (o ≡ answered a)
    × (is_protected (decision_of text at a) ≡ false)
    × (is_about_key (class_of at a) ≡ true)

module _ (env : Env) where
  -- Only the row of `key` may differ.
  abbrev pub Only : ℕ → State env → State env → Type 0
  Only key s t = (k : ℕ) → (k == key) ≡ false → t.rows k ≡ s.rows k

  abbrev pub Still : State env → State env → Type 0
  Still s t = (k : ℕ) → t.rows k ≡ s.rows k

  module _ (text : TextLib) (lib : HeaderLib) (settings : Settings) (req : Request) where
    abbrev OnlyAfter : ℕ → State env → Next × State env → Type 0
    OnlyAfter key s out = Only key s out.1

    on_fine-Only :
        (at : Site) (key : ℕ) (a : Answer) (s : State env)
        → OnlyAfter key s (on_fine env text lib settings req at key a s)
    unfolding on_fine on_empty on_served
    on_fine-Only at key a s k other = ground arith

    after_refresh-Only :
        (key : ℕ) (a : Answer) (o : Option Turn) (checked : Option ℕ) (world : env.World)
        (s : State env)
        → OnlyAfter key s
            (after_refresh env text lib settings req key a o (moved env key checked world s))
    unfolding disable
    after_refresh-Only key a none checked world s k other = rw other refl
    after_refresh-Only key a (some turn) checked world s k other = rw other refl

    on_key_invalid-Only :
        (at : Site) (key : ℕ) (turn : Turn) (a : Answer) (s : State env)
        → OnlyAfter key s (on_key_invalid env text lib settings req at key turn a s)
    unfolding on_key_invalid disable
    on_key_invalid-Only at key turn a s =
        if_rule (OnlyAfter key s)
          (at.provider.adapter.refresh_on_invalid_key && not turn.oauth_refreshed) _ _
          (λ first. after_refresh-Only key a _ _ _ s) (λ last k other. rw other)

    on_class-Only :
        (c : ErrorClass) (at : Site) (key : ℕ) (turn : Turn) (a : Answer) (s : State env)
        → OnlyAfter key s (on_class env text lib settings req c at key turn a s)
    unfolding on_class on_not_found disable on_rate_limited on_server_error trip_upstream
    on_class-Only ErrorClass.fine at key turn a s k other = on_fine-Only at key a s k other
    on_class-Only ErrorClass.key_invalid at key turn a s k other =
        on_key_invalid-Only at key turn a s k other
    on_class-Only ErrorClass.rate_limited at key turn a s k other = ground (arith, other)
    on_class-Only ErrorClass.server_error at key turn a s k other = rw other
    on_class-Only ErrorClass.insufficient_balance at key turn a s k other = rw other
    on_class-Only _ at key turn a s k other = refl

    on_class-Still :
        (c : ErrorClass) (at : Site) (key : ℕ) (turn : Turn) (a : Answer) (s : State env)
        → is_about_key c ≡ false
        → Still s (on_class env text lib settings req c at key turn a s).1
    unfolding on_class on_not_found on_server_error trip_upstream
    on_class-Still ErrorClass.upstream_overloaded at key turn a s e k = refl
    on_class-Still ErrorClass.not_found at key turn a s e k = refl
    on_class-Still ErrorClass.bad_request at key turn a s e k = refl
    on_class-Still _ at key turn a s e k = cc

    on_protected-Still :
        (at : Site) (turn : Turn) (a : Answer) (final : String) (s : State env)
        → Still s (on_protected env text lib settings req at turn a final s).1
    unfolding on_protected trip_upstream
    on_protected-Still at turn a final s k = ground arith

    pub on_outcome_rows :
        (at : Site) (key : ℕ) (turn : Turn) (o : Outcome) (s : State env)
        → let t = (on_outcome env text lib settings req at key turn o s).1 in
          Still s t ⊎ (Blames text at o × Only key s t)
    unfolding on_outcome on_answer on_network_error trip_upstream
    on_outcome_rows at key turn (network_error e true) s = inl (λ k. refl)
    on_outcome_rows at key turn (network_error e false) s = inl (λ k. refl)
    on_outcome_rows at key turn (answered a) s =
        if_rule
          (λ (out : Next × State env).
            Still s out.1 ⊎ (Blames text at (answered a) × Only key s out.1))
          (is_protected (decision_of text at a)) _ _
          (λ shielded. inl (on_protected-Still at turn a _ _))
          λ plain. elim (Bool-cases (is_about_key (class_of at a))) [
            | inl about ↦ inr (
              (a, refl, plain, about),
              on_class-Only (class_of at a) at key turn a (seen env text lib settings req at a s),
            )
            | inr other ↦ inl (
                on_class-Still (class_of at a) at key turn a (seen env text lib settings req at a s)
                  other)
          ]
