-- ===== src/Selector/Tests.antt =====
-- The selection at concrete inputs.
use mathlib.Core.List.{mem-cons_self, Mem, Perm}
use mathlib.Core.List.Perm
use void_switch.Base.{
  true, ◌↔◌, ◌⊎◌, ◌≤◌, ◌+◌, ◌*◌, ℕ, Option, none, some, List, [], ◌∷◌, ◌++◌, ◌≡◌, refl, arith,
  false, ◌≢◌, keep, leb, ◌%◌,
}
use void_switch.Base.Sort.{IsSorted, by, lex}
use void_switch.Keys.{
  ApiKey, KeyStatus, active, rate_limited, invalid, KeySelectMode, round_robin, is_active,
}
use void_switch.Selector.{
  Provider, Redis, Rng, select_keys, rotate_by, recovered_key, in_pool, is_recovered,
}
use void_switch.Keys.{other_reason, is_active}
use void_switch.Keys.Changes.{
  CooldownSettings, cooldown_of, mark_rate_limited, reward_key, disable_key, second,
}
use void_switch.Selector.Parked.{mark_rate_limited-is_recovered}
use void_switch.Selector.Orders.{
  select_keys-perm, select_keys_layers, parked-not-mem-select_keys, usable,
}
use void_switch.Selector.Turns.{leads, rotate_turns}

abbrev key : ℕ → ℕ → KeyStatus → Option ℕ → ApiKey
key id position status until = record {
  id = some id;
  pool = "";
  sort_order = position;
  status = status;
  failed_count = 0;
  total_requests = 0;
  disabled_reason = none;
  disabled_since = none;
  rate_limit_until = until;
  last_used_at = none;
  last_checked_at = none;
}

abbrev keys : List ApiKey
keys =
    key 1 2 active none
    ∷ key 2 1 active none
    ∷ key 3 0 rate_limited (some 50)
    ∷ key 4 4 rate_limited (some 900)
    ∷ key 5 5 invalid none
    ∷ []

abbrev provider : KeySelectMode → Provider
provider mode = record { id = some 7; key_select_mode = some mode; keys = keys }

abbrev redis : Redis
redis = record { cursor = λ p pool. 5; pin = λ p pool s. none; faults = [] }

head_choice : List ApiKey → ApiKey
head_choice [] = key 0 0 active none
head_choice (k ∷ ks) = k

head_choice_mem : (l : List ApiKey) → l ≢ [] → Mem (head_choice l) l
unfolding head_choice
head_choice_mem [] h = absurd (h refl)
head_choice_mem (k ∷ ks) h = mem-cons_self

abbrev rng : Rng
rng = record {
  shuffle = λ l. l;
  choice = head_choice;
  shuffle_perm = Perm.refl;
  choice_mem = head_choice_mem;
}

-- The cursor stands at 5, so the second key in manual order leads; the recovered key comes last.
select_keys_runs :
    (select_keys rng (provider round_robin) "" 180 none false 100 redis).0
    ≡ key 1 2 active none ∷ key 2 1 active none ∷ key 3 0 rate_limited (some 50) ∷ []
unfolding select_keys rotate_by
select_keys_runs = refl

select_keys-perm_example :
    Perm
      (select_keys rng (provider round_robin) "" 180 none false 100 redis).0
      (keep (usable "" 100 180 false) keys)
select_keys-perm_example = select_keys-perm rng (provider round_robin) "" 180 none false 100 redis

select_keys_layers_example :
    (front back : List ApiKey) × ((select_keys rng
        (provider round_robin)
        ""
        180
        none
        false
        100
        redis).0
      ≡ front ++ back)
    × Perm front (keep (in_pool "") (keep (λ k. is_active k.status) keys))
    × Perm back (keep (in_pool "") (keep (is_recovered 100 180 false) keys))
    × IsSorted (by (lex leb) recovered_key) back
select_keys_layers_example =
    select_keys_layers rng (provider round_robin) "" 180 none false 100 redis

parked-not-mem-select_keys_example :
    ¬ Mem
      (key 4 4 rate_limited (some 900))
      (select_keys rng (provider round_robin) "" 180 none false 100 redis).0
parked-not-mem-select_keys_example =
    parked-not-mem-select_keys rng (provider round_robin) "" 180 none 100 redis
      (key 4 4 rate_limited (some 900)) 900 refl refl (omega arith)

abbrev pair : List ApiKey
pair = key 1 2 active none ∷ key 2 1 active none ∷ []

rotate_turns_example :
    (leads 2 pair 7 "" redis ≡ rotate_by (5 % 2) pair) × Perm (leads 2 pair 7 "" redis) pair
rotate_turns_example = rotate_turns pair 7 "" redis refl (omega arith)

abbrev limits : CooldownSettings
limits = record { provider_cooldown = 0; global_cooldown = 180; max_cooldown = 60 }

mark_rate_limited-is_recovered_example :
    let parked = mark_rate_limited none limits 100 (key 1 2 active none) in
    let disabled = disable_key invalid (other_reason "refused") 100 (key 1 2 active none) in
    ((is_recovered 200 180 false parked ≡ true) ↔ (100 + cooldown_of none limits ≤ 200))
    × ((limits.max_cooldown ≡ 0) ⊎ (cooldown_of none limits ≤ 60 * second))
    × (is_active (reward_key 200 parked).status ≡ true)
    × ((reward_key 200 parked).rate_limit_until ≡ none)
    × (is_active disabled.status ≡ false)
    × (is_recovered 200 180 true disabled ≡ false)
mark_rate_limited-is_recovered_example =
    mark_rate_limited-is_recovered none limits 100 (key 1 2 active none) 200 180 invalid
      (other_reason "refused") refl refl
