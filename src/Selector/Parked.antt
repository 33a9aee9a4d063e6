-- ===== src/Selector/Parked.antt =====
-- When a key that the dispatcher parked (Keys/Changes) may be selected again.
use void_switch.Base.{
  ℕ, ◌+◌, ◌*◌, Option, none, true, false, ◌≡◌, refl, ◌≤◌, ◌↔◌, ◌⊎◌, arith, leb→le,
}
use void_switch.Keys.{ApiKey, KeyStatus, is_active, is_rate_limited, Reason}
use void_switch.Keys.Changes.{
  CooldownSettings, cooldown_of, mark_rate_limited, reward_key, disable_key, second, capped,
}
use void_switch.Selector.{rate_limited_eligible, is_recovered}

capped_le : (maximum t : ℕ) → (maximum ≡ 0) ⊎ (capped maximum t ≤ maximum * second)
capped_le maximum t = ground arith

-- A key that a 429 parked, up to a time within the calendar, may be tried again exactly from the
-- end of its cooldown on, whatever the recovery setting; the cooldown keeps a set maximum; once the key serves it is active and no
-- longer parked. A disabled key is neither active nor eligible at any time.
pub mark_rate_limited-is_recovered :
    (wait : Option ℕ) (s : CooldownSettings) (now : ℕ) (k : ApiKey) (t recovery : ℕ)
    (status : KeyStatus) (reason : Reason)
    → is_active status ≡ false
    → is_rate_limited status ≡ false
    → let parked = mark_rate_limited wait s now k in
      let disabled = disable_key status reason now k in
      ((is_recovered t recovery false parked ≡ true) ↔ (now + cooldown_of wait s ≤ t))
      × ((s.max_cooldown ≡ 0) ⊎ (cooldown_of wait s ≤ s.max_cooldown * second))
      × (is_active (reward_key t parked).status ≡ true)
      × ((reward_key t parked).rate_limit_until ≡ none)
      × (is_active disabled.status ≡ false)
      × (is_recovered t recovery true disabled ≡ false)
unfolding mark_rate_limited reward_key disable_key is_recovered rate_limited_eligible cooldown_of
mark_rate_limited-is_recovered wait s now k t recovery status reason inactive unlimited = (
  (λ e. leb→le _ _ (ground arith), λ h. ground arith),
  capped_le s.max_cooldown _,
  refl,
  refl,
  inactive,
  rw (inactive, unlimited) refl,
)
