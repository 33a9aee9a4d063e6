-- ===== src/Dispatcher/Replies.antt =====
-- What the reply of a whole dispatch says about the attempts that it made.
use void_switch.Base.{ℕ, String, some, List, true, false, ◌≡◌, ◌≤◌, ◌⊎◌, Mem}
use mathlib.Core.Logic.Or
use void_switch.ErrorPolicy.{TextLib}
use void_switch.Keys.{ApiKey}
use void_switch.UpstreamHealth.{HeaderLib}
use void_switch.Dispatcher.{
  Env, State, Request, Settings, Site, Reply, upstream_error, unavailable, raised, Answer, answered,
  tried, ProviderRow,
}
use void_switch.Dispatcher.Answers.{is_fine}
use void_switch.Dispatcher.Results.{Earned}

module _ (env : Env) where
  -- An attempt at an enabled provider had this answer, and its adapter took it for an error.
  abbrev pub Refused : Answer → State env → Type 0
  Refused a s =
      (n : ℕ) × (key : ℕ) × (model : String) × (p : ProviderRow) × (p.enabled ≡ true)
      × (is_fine (p.adapter.classify a.status a.body_json) ≡ false)
      × Mem (tried n p.id key model (answered a)) s.summaries

  -- The flag that returns the answer seen last is only set for a refused one.
  abbrev pub Shown : State env → Type 0
  Shown s = s.return_last_http ≡ true → (a : Answer) × (s.last_http ≡ some a) × Refused a s

module _ (env : Env) (text : TextLib) (lib : HeaderLib) (settings : Settings) (req : Request) where
  abbrev Enabled : Site → Type 0
  Enabled at = at.provider.enabled ≡ true

  -- The first request for a key of an enabled provider, with its resolved credential, cannot be
  -- built.
  abbrev pub Unbuilt : Type 0
  Unbuilt =
      (at : Site) × (row : ApiKey) × (world : env.World) × (c : String) × (at.provider.enabled
        ≡ true)
      × ((env.resolve at.provider row false world).0 ≡ some c)
      × (env.prepares at.provider at.upstream_model c ≡ false)

  -- What a reply that ends the search says.
  abbrev pub Given : Reply → State env → Type 0
  Given raised s = Earned env text lib settings req raised s ⊎ Unbuilt
  Given r s = Earned env text lib settings req r s

  -- While an upstream works, its provider is enabled.
  abbrev ShownAt : Site → State env → Type 0
  ShownAt at s = Enabled at × Shown env s

  -- What a reply says of the attempts: the last answer earned it, or a refused answer is returned
  -- that was seen last, or the status is one of an error.
  abbrev pub Justified : Reply → State env → Type 0
  Justified (upstream_error a) s = (s.last_http ≡ some a) × Refused env a s
  Justified (unavailable status e) s = 400 ≤ status
  Justified r s = Given r s
