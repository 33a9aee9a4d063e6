-- ===== src/Dispatcher/Chances.antt =====
-- How often the rounds with one key go on: only the one forced refresh of its credential and the one
-- repeat of a shielded answer begin another round. No round changes the id of a row.
use void_switch.Base.{
  ℕ, ◌+◌, ◌<◌, String, Option, none, some, false, not, ◌≡◌, refl, arith, if_rule, ◌&&◌, ◌==◌, ◌∙◌,
  if◌then◌else◌,
}
use void_switch.ErrorPolicy.{TextLib}
use void_switch.Keys.{ApiKey, KeyStatus}
use void_switch.Keys.Changes.{disable_key, mark_rate_limited, reward_key}
use void_switch.Providers.{ErrorClass}
use void_switch.UpstreamHealth.{HeaderLib}
use void_switch.Dispatcher.{
  Env, State, Request, Settings, Site, Turn, Next, again, Answer, Outcome, network_error, answered,
}
use void_switch.Dispatcher.Answers.{
  try_key, on_outcome, on_answer, on_class, on_fine, on_empty, on_served, on_key_invalid, disable,
  checked_row, moved, renewed, after_refresh, on_rate_limited, on_not_found, on_server_error,
  on_protected, on_network_error, trip_upstream, seen, attempted, call_of, is_protected,
  decision_of, class_of,
}

-- What a turn has left: the refresh and the repeat.
abbrev pub chances : Turn → ℕ
chances turn =
    (if turn.oauth_refreshed then 0 else 1) + (if turn.protected_repeat_used then 0 else 1)

module _ (env : Env) where
  pub record Round (turn : Turn) (s : State env) (out : Next × State env) : Type 0 where
    pub ids : (n : ℕ) → (out.1.rows n).id ≡ (s.rows n).id
    pub fewer : (t : Turn) → out.0 ≡ again t → chances t < chances turn

  checked_row_id : (checked : Option ℕ) (k : ApiKey) → (checked_row checked k).id ≡ k.id
  checked_row_id none k = refl
  checked_row_id (some now) k = refl

  pub moved_ids :
      (key : ℕ) (checked : Option ℕ) (world : env.World) (s : State env) (n : ℕ)
      → ((moved env key checked world s).rows n).id ≡ (s.rows n).id
  moved_ids key checked world s n =
      if_rule (λ (k : ApiKey). k.id ≡ (s.rows n).id) (n == key) _ _
        (λ same. checked_row_id checked (s.rows n)) (λ other. refl)

  module _ (text : TextLib) (lib : HeaderLib) (settings : Settings) (req : Request) where
    on_fine-Round :
        (at : Site) (key : ℕ) (turn : Turn) (a : Answer) (s : State env)
        → Round turn s (on_fine env text lib settings req at key a s)
    unfolding on_fine on_empty on_served reward_key
    on_fine-Round at key turn a s = record { ids = λ n. ground arith; fewer = λ t e. ground arith }

    disable-Round :
        (key : ℕ) (turn : Turn) (a : Answer) (found : ErrorClass) (status : KeyStatus)
        (s : State env)
        → Round turn s (disable env text lib settings req key a found status s)
    unfolding disable disable_key
    disable-Round key turn a found status s = record {
      ids = λ n. ground arith;
      fewer = λ t e. absurd (cc e);
    }

    after_refresh-Round :
        (key : ℕ) (turn : Turn) (a : Answer) (o : Option Turn) (checked : Option ℕ)
        (world : env.World) (s : State env)
        → ((t : Turn) → o ≡ some t → chances t < chances turn)
        → Round turn s
            (after_refresh env text lib settings req key a o (moved env key checked world s))
    after_refresh-Round key turn a none checked world s less =
        let out =
          disable-Round key turn a ErrorClass.key_invalid KeyStatus.invalid
            (moved env key checked world s) in
        record { ids = λ n. out.ids n ∙ moved_ids key checked world s n; fewer = out.fewer }
    after_refresh-Round key turn a (some t) checked world s less = record {
      ids = moved_ids key checked world s;
      fewer = λ u e. less u (cc e);
    }

    renewed-chances :
        (at : Site) (turn : Turn) (o : Option String) (t : Turn)
        → turn.oauth_refreshed ≡ false
        → renewed env text lib settings req at turn o ≡ some t
        → chances t < chances turn
    renewed-chances at turn none t first e = absurd (cc e)
    renewed-chances at turn (some c) t first e = ground arith

    on_key_invalid-Round :
        (at : Site) (key : ℕ) (turn : Turn) (a : Answer) (s : State env)
        → Round turn s (on_key_invalid env text lib settings req at key turn a s)
    unfolding on_key_invalid
    on_key_invalid-Round at key turn a s =
        if_rule (Round turn s)
          (at.provider.adapter.refresh_on_invalid_key && not turn.oauth_refreshed) _ _
          (λ first.
            after_refresh-Round key turn a _ _ _ s
              (λ t e. renewed-chances at turn _ t (ground arith) e))
          (λ last. disable-Round key turn a _ _ s)

    on_class-Round :
        (c : ErrorClass) (at : Site) (key : ℕ) (turn : Turn) (a : Answer) (s : State env)
        → Round turn s (on_class env text lib settings req c at key turn a s)
    unfolding on_class on_not_found on_rate_limited on_server_error trip_upstream mark_rate_limited
    on_class-Round ErrorClass.fine at key turn a s = on_fine-Round at key turn a s
    on_class-Round ErrorClass.key_invalid at key turn a s = on_key_invalid-Round at key turn a s
    on_class-Round ErrorClass.insufficient_balance at key turn a s = disable-Round key turn a _ _ s
    on_class-Round ErrorClass.rate_limited at key turn a s = record {
      ids = λ n. ground arith;
      fewer = λ t e. ground arith;
    }
    on_class-Round ErrorClass.server_error at key turn a s = record {
      ids = λ n. ground arith;
      fewer = λ t e. absurd (cc e);
    }
    on_class-Round _ at key turn a s = record { ids = λ n. refl; fewer = λ t e. absurd (cc e) }

    on_protected-Round :
        (at : Site) (turn : Turn) (a : Answer) (final : String) (s : State env)
        → Round turn s (on_protected env text lib settings req at turn a final s)
    unfolding on_protected trip_upstream
    on_protected-Round at turn a final s = record {
      ids = λ n. ground arith;
      fewer = λ t e. ground arith;
    }

    on_outcome-Round :
        (at : Site) (key : ℕ) (turn : Turn) (o : Outcome) (s : State env)
        → Round turn s (on_outcome env text lib settings req at key turn o s)
    unfolding on_outcome on_answer on_network_error trip_upstream
    on_outcome-Round at key turn (network_error e b) s = record {
      ids = λ n. ground arith;
      fewer = λ t e. ground arith;
    }
    on_outcome-Round at key turn (answered a) s =
        let t = seen env text lib settings req at a s in
        if_rule (Round turn s) (is_protected (decision_of text at a)) _ _
          (λ shielded.
            let out = on_protected-Round at turn a _ t in
            record { ids = out.ids; fewer = out.fewer })
          λ plain.
            let out = on_class-Round (class_of at a) at key turn a t in
            record { ids = out.ids; fewer = out.fewer }

    pub try_key-Round :
        (at : Site) (key : ℕ) (turn : Turn) (s : State env)
        → Round turn s (try_key env text lib settings req at key turn s)
    unfolding try_key
    try_key-Round at key turn s =
        let out = env.attempt (call_of env text lib settings req at turn) s.world in
        let done =
          on_outcome-Round at key turn out.0 (attempted env text lib settings req at key out s) in
        record { ids = done.ids; fewer = done.fewer }
