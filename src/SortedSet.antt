-- ===== src/SortedSet.antt =====
-- The Redis commands that the scripts of backend/voidswitch/core/ratelimit.py and core/sse.py call,
-- on one key that holds a sorted set: ZREMRANGEBYSCORE from -inf, ZCARD, ZADD, ZSCORE, ZREM,
-- PEXPIRE. Times are milliseconds. An entry is a score and a member, newest first.
use void_switch.Base.{
  ℕ, ◌+◌, ◌*◌, ◌/◌, String, Option, none, some, List, [], ◌∷◌, Bool, true, false, leb,
  if◌then◌else◌, keep, length, str_eq, any, ◌≡◌, ◌⊎◌, inl, inr, ◌≤◌, arith, Bool-cases,
  Option-cases, leb→le,
}

pub record SortedSet : Type 0 where
  pub entries : List (ℕ × String)
  pub expires : Option ℕ

abbrev pub empty_set : SortedSet
empty_set = record { entries = []; expires = none }

-- `redis.call('TIME')` in milliseconds.
abbrev pub now_ms : ℕ → ℕ → ℕ
now_ms seconds micros = seconds * 1000 + micros / 1000

-- A key past its deadline is gone.
unfoldable pub at_time : ℕ → SortedSet → SortedSet
at_time now z = elim z.expires [ none ↦ z | some d ↦ if leb d now then empty_set else z ]

abbrev pub has_member : String → ℕ × String → Bool
has_member m (score, member) = str_eq member m

abbrev pub other_member : String → ℕ × String → Bool
other_member m e = if has_member m e then false else true

-- The entries but those with a score at or below the cutoff, which is given by a test.
unfoldable pub remove_scores : (ℕ → Bool) → SortedSet → SortedSet
remove_scores low z = record z { entries = keep (λ e. if low e.0 then false else true) z.entries }

unfoldable pub add : ℕ → String → SortedSet → SortedSet
add score m z = record z { entries = (score, m) ∷ keep (other_member m) z.entries }

unfoldable pub remove : String → SortedSet → SortedSet
remove m z = record z { entries = keep (other_member m) z.entries }

abbrev pub card : SortedSet → ℕ
card z = length z.entries

abbrev pub holds : String → SortedSet → Bool
holds m z = any (has_member m) z.entries

unfoldable pub expire_at : ℕ → SortedSet → SortedSet
expire_at deadline z = record z { expires = some deadline }

-- At a time the key either stands as it was or has passed its deadline.
pub at_time-cases :
    (now : ℕ) (z : SortedSet)
    → (at_time now z ≡ z)
      ⊎ ((at_time now z ≡ empty_set) × (d : ℕ) × (z.expires ≡ some d) × (d ≤ now))
unfolding at_time
at_time-cases now z = elim (Option-cases z.expires) [
  | inl e ↦ inl (ground arith)
  | inr (d, e) ↦ elim (Bool-cases (leb d now)) [
    | inl h ↦ inr (ground arith, d, e, leb→le d now h)
    | inr h ↦ inl (ground arith)
  ]
]
