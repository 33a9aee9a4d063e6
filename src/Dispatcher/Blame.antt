-- ===== src/Dispatcher/Blame.antt =====
-- Which rows of keys a whole dispatch changes.
use void_switch.Base.{ℕ, none, true, ◌≡◌, ◌⊎◌, Mem}
use mathlib.Core.Logic.Or
use void_switch.ErrorPolicy.{TextLib}
use void_switch.Keys.{ApiKey}
use void_switch.Dispatcher.{Env, State, Site, Outcome, tried}
use void_switch.Dispatcher.Frame.{Blames}

-- A row without the time of its last check, which every resolution of its credential may set.
abbrev pub unchecked : ApiKey → ApiKey
unchecked k = record k { last_checked_at = none }

module _ (env : Env) (text : TextLib) (rows : ℕ → ApiKey) where
  -- An attempt with the key had an answer that may change its row.
  abbrev pub Blamed : ℕ → State env → Type 0
  Blamed key s =
      (n : ℕ) × (at : Site) × (o : Outcome) × (at.provider.enabled ≡ true)
      × Blames text at o
      × Mem (tried n at.provider.id key at.upstream_model o) s.summaries

  abbrev Accounted : State env → Type 0
  Accounted s = (key : ℕ) → (unchecked (s.rows key) ≡ unchecked (rows key)) ⊎ Blamed key s
