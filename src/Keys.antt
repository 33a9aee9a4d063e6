-- ===== src/Keys.antt =====
-- backend/voidswitch/constants.py (the statuses and modes of keys) and the columns of the ApiKey
-- row of backend/voidswitch/models/db.py that the selection and the dispatcher read or write.
-- Times are microseconds since the epoch. A stored time without a zone counts as UTC, as the code
-- takes it, so one number stands for both forms.
pub mod Changes
use void_switch.Providers.{ErrorClass}
use void_switch.Base.{ℕ, String, Option, Bool, true, false}

pub data KeyStatus : Type 0 where
  active invalid insufficient_balance rate_limited disabled : KeyStatus

abbrev pub is_active : KeyStatus → Bool
is_active active = true
is_active _ = false

abbrev pub is_rate_limited : KeyStatus → Bool
is_rate_limited rate_limited = true
is_rate_limited _ = false

-- `legacy` stands for a stored mode that is none of the five.
pub data KeySelectMode : Type 0 where
  round_robin random fallback pinned_round_robin pinned_random legacy : KeySelectMode

-- What set the length of a cooldown.
pub data CooldownSource : Type 0 where
  retry_after from_provider from_global : CooldownSource

-- Why a key is disabled, by the parts of the text that the code stores.
pub data Reason : Type 0 where
  http_error : ℕ → ErrorClass → Reason
  rate_limited_for : ℕ → CooldownSource → Reason
  other_reason : String → Reason

pub record ApiKey : Type 0 where
  pub id : Option ℕ
  pub pool : String
  pub sort_order : ℕ
  pub status : KeyStatus
  pub failed_count : ℕ
  pub total_requests : ℕ
  pub disabled_reason : Option Reason
  pub disabled_since : Option ℕ
  pub rate_limit_until : Option ℕ
  pub last_used_at : Option ℕ
  pub last_checked_at : Option ℕ
