-- ===== src/Selector.antt =====
-- backend/voidswitch/services/selector.py: the order in which a provider's keys are tried.
-- Redis is a store of cursors and pins; its keys are the tuples that `_state_key` digests, and
-- `faults` says which of the coming calls raise a RedisError. The proofs are in the modules below.
pub mod Orders
pub mod Pins
pub mod Turns
pub mod Parked
mod Tests
use Prim.Native.Nat.{◌%◌}
use void_switch.Base.{
  ℕ, zero, suc, ◌+◌, ◌*◌, String, Option, none, some, List, [], ◌∷◌, ◌++◌, Bool, true, false, ◌&&◌,
  ◌||◌, str_eq, length, take, drop, keep, any, map, or_zero, leb, ◌==◌, if◌then◌else◌, not, Perm,
  Mem, ◌≢◌,
}
use void_switch.Base.Sort.{sort_by, by, lex}
use void_switch.Keys.{
  KeySelectMode, round_robin, random, fallback, pinned_round_robin, pinned_random, legacy, ApiKey,
  is_active, is_rate_limited,
}

pub record Provider : Type 0 where
  pub id : Option ℕ
  pub key_select_mode : Option KeySelectMode
  pub keys : List ApiKey

-- What `int(raw)` makes of a stored pin.
pub data RawPin : Type 0 where
  int_value : ℕ → RawPin
  not_int : RawPin

pub record Redis : Type 0 where
  pub cursor : ℕ → String → ℕ
  pub pin : ℕ → String → String → Option RawPin
  pub faults : List Bool

-- The source of randomness (Python's `random`), with what its documentation promises.
pub record Rng : Type 0 where
  pub shuffle : List ApiKey → List ApiKey
  pub choice : List ApiKey → ApiKey
  pub shuffle_perm : (l : List ApiKey) → Perm (shuffle l) l
  pub choice_mem : (l : List ApiKey) → l ≢ [] → Mem (choice l) l

-- One call of the client: does it raise, and the store after it.
abbrev pub raises : Redis → Bool
raises r = elim r.faults [ [] ↦ false | f ∷ _ ↦ f ]

abbrev pub called : Redis → Redis
called r = record r { faults = elim r.faults [ [] ↦ [] | _ ∷ fs ↦ fs ] }

abbrev pub bump_cursor : ℕ → String → Redis → Redis
bump_cursor p pool r = record r {
  cursor =
      λ q other. if q == p && str_eq other pool then r.cursor q other + 1 else r.cursor q other;
}

abbrev pub write_pin : ℕ → String → String → Option RawPin → Redis → Redis
write_pin p pool session value r = record r {
  pin = λ q other s.
      if q == p && (str_eq other pool && str_eq s session) then value else r.pin q other s;
}

pub next_cursor : ℕ → String → Redis → Option ℕ × Redis
next_cursor p pool r =
    if raises r then (none, called r) else (some (r.cursor p pool), bump_cursor p pool (called r))

abbrev pub contains : List ℕ → ℕ → Bool
contains ids n = any (λ i. i == n) ids

abbrev pub pin_in : List ℕ → RawPin → Option ℕ
pin_in valid (int_value n) = if contains valid n then some n else none
pin_in valid not_int = none

-- A live pin is refreshed; a dead one is deleted, unless the deletion raises.
found_pin : ℕ → String → String → Option ℕ → Redis → Option ℕ × Redis
found_pin p pool session (some n) r = (if raises r then none else some n, called r)
found_pin p pool session none r =
    (none, if raises r then called r else write_pin p pool session none (called r))

read_pin : ℕ → String → String → List ℕ → Option RawPin → Redis → Option ℕ × Redis
unfolding found_pin
read_pin p pool session valid none r = (none, r)
read_pin p pool session valid (some raw) r = found_pin p pool session (pin_in valid raw) r

pub lookup_pin : ℕ → String → String → List ℕ → Redis → Option ℕ × Redis
unfolding read_pin
lookup_pin p pool session valid r =
    if raises r
    then (none, called r)
    else read_pin p pool session valid (r.pin p pool session) (called r)

abbrev pub pin_number : Option RawPin → Option ℕ
pin_number (some (int_value n)) = some n
pin_number _ = none

-- SET NX: a pin that is there already wins.
set_pin : ℕ → String → String → ℕ → Option RawPin → Redis → Option ℕ × Redis
set_pin p pool session key_id none r =
    (some key_id, write_pin p pool session (some (int_value key_id)) r)
set_pin p pool session key_id (some raw) r =
    (if raises r then none else pin_number (some raw), called r)

pub store_pin : ℕ → String → String → ℕ → Redis → Option ℕ × Redis
unfolding set_pin
store_pin p pool session key_id r =
    if raises r
    then (none, called r)
    else set_pin p pool session key_id (r.pin p pool session) (called r)

abbrev pub lru_key : Option ℕ → ℕ
lru_key = or_zero

abbrev pub manual_key : ApiKey → List ℕ
manual_key k = k.sort_order ∷ or_zero k.id ∷ []

pub manual_order : List ApiKey → List ApiKey
unfolding sort_by
manual_order = sort_by (by (lex leb) manual_key)

unfoldable pub rotate_by : ℕ → List ApiKey → List ApiKey
rotate_by start ordered = drop start ordered ++ take start ordered

abbrev rotate_at : List ApiKey → Option ℕ × Redis → List ApiKey × Redis
rotate_at ordered (none, r) = (ordered, r)
rotate_at ordered (some cursor, r) = (rotate_by (cursor % length ordered) ordered, r)

pub rotate : List ApiKey → ℕ → String → Redis → List ApiKey × Redis
unfolding next_cursor rotate_by
rotate ordered p pool r =
    if leb (length ordered) 1 then (ordered, r) else rotate_at ordered (next_cursor p pool r)

abbrev pub has_id : ℕ → ApiKey → Bool
has_id n k = elim k.id [ none ↦ false | some i ↦ i == n ]

pub lead_with : List ApiKey → ℕ → List ApiKey
lead_with ordered key_id =
    keep (has_id key_id) ordered ++ keep (λ k. if has_id key_id k then false else true) ordered

-- `{k.id for k in manual if k.id is not None}`
abbrev pub valid_ids : List ApiKey → List ℕ
valid_ids [] = []
valid_ids (k ∷ ks) = elim k.id [ none ↦ valid_ids ks | some i ↦ i ∷ valid_ids ks ]

abbrev pub head_or : ApiKey → List ApiKey → ApiKey
head_or d [] = d
head_or d (k ∷ ks) = k

-- After `_store_pin`: the pin that stands, if it is a candidate, and else the key just chosen.
abbrev lead_stored : List ApiKey → ℕ → Option ℕ × Redis → List ApiKey × Redis
lead_stored manual own (none, r) = (lead_with manual own, r)
lead_stored manual own (some n, r) =
    (lead_with manual (if contains (valid_ids manual) n then n else own), r)

-- A fresh pin for the chosen key.
lead_chosen : List ApiKey → ℕ → String → Option String → ApiKey × Redis → List ApiKey × Redis
unfolding lead_with store_pin
lead_chosen manual p pool session (chosen, r) = elim chosen.id [
  | none ↦ (manual, r)
  | some own ↦ elim session [
    | none ↦ (lead_with manual own, r)
    | some s ↦ lead_stored manual own (store_pin p pool s own r)
  ]
]

abbrev first_of_rotation : ApiKey → List ApiKey × Redis → ApiKey × Redis
first_of_rotation d (l, r) = (head_or d l, r)

-- The pinned modes: the session's live pin, or a fresh one by `choose`.
abbrev lead_existing :
    List ApiKey
    → ℕ
    → String
    → Option String
    → (Redis → ApiKey × Redis)
    → Option ℕ × Redis
    → List ApiKey × Redis
lead_existing manual p pool session choose (some n, r) = (lead_with manual n, r)
lead_existing manual p pool session choose (none, r) = lead_chosen manual p pool session (choose r)

pinned :
    List ApiKey
    → ℕ
    → String
    → Option String
    → (Redis → ApiKey × Redis)
    → Redis
    → List ApiKey × Redis
unfolding lookup_pin lead_chosen
pinned manual p pool none choose r = lead_chosen manual p pool none (choose r)
pinned manual p pool (some s) choose r =
    lead_existing manual p pool (some s) choose (lookup_pin p pool s (valid_ids manual) r)

abbrev pub mode_of : Provider → KeySelectMode
mode_of provider = elim provider.key_select_mode [ none ↦ round_robin | some m ↦ m ]

module _ (rng : Rng) where
  by_mode :
      KeySelectMode
      → ApiKey
      → List ApiKey
      → ℕ
      → String
      → Option String
      → Redis
      → List ApiKey × Redis
  unfolding rotate pinned
  by_mode fallback d manual p pool session r = (manual, r)
  by_mode random d manual p pool session r = (rng.shuffle manual, r)
  by_mode pinned_random d manual p pool session r =
      pinned manual p pool session (λ s. (rng.choice manual, s)) r
  by_mode pinned_round_robin d manual p pool session r =
      pinned manual p pool session (λ s. first_of_rotation d (rotate manual p pool s)) r
  by_mode _ d manual p pool session r = rotate manual p pool r

  pub apply_mode : Provider → List ApiKey → String → Option String → Redis → List ApiKey × Redis
  unfolding by_mode manual_order
  apply_mode provider [] pool session r = ([], r)
  apply_mode provider (k ∷ []) pool session r = (k ∷ [], r)
  apply_mode provider (k ∷ l ∷ rest) pool session r =
      by_mode (mode_of provider) k (manual_order (k ∷ l ∷ rest)) (or_zero provider.id) pool session
        r

abbrev pub recovered_key : ApiKey → List ℕ
recovered_key k = lru_key k.rate_limit_until ∷ k.sort_order ∷ or_zero k.id ∷ []

pub recovered_order : List ApiKey → List ApiKey
unfolding sort_by
recovered_order = sort_by (by (lex leb) recovered_key)

abbrev then_recovered : List ApiKey → List ApiKey × Redis → List ApiKey × Redis
then_recovered recovered (ordered, r) = (ordered ++ recovered_order recovered, r)

ordered_candidates :
    Rng
    → Provider
    → List ApiKey
    → List ApiKey
    → String
    → Option String
    → Redis
    → List ApiKey × Redis
unfolding apply_mode recovered_order
ordered_candidates rng provider active recovered pool session r =
    then_recovered recovered (apply_mode rng provider active pool session r)

abbrev pub second : ℕ
second = 1_000_000

-- Whether a rate-limited key may be tried again at `now`.
unfoldable pub rate_limited_eligible : ApiKey → ℕ → ℕ → Bool
rate_limited_eligible k now recovery_seconds =
    is_rate_limited k.status && (elim k.rate_limit_until [
      | some until ↦ leb until now
      | none ↦ if recovery_seconds == 0 then false else (elim k.disabled_since [
        | none ↦ false
        | some since ↦ leb (since + recovery_seconds * second) now
      ])
    ])

unfoldable pub is_recovered : ℕ → ℕ → Bool → ApiKey → Bool
unfolding rate_limited_eligible
is_recovered now recovery_seconds ignore_cooldown k =
    if is_active k.status
    then false
    else rate_limited_eligible k now recovery_seconds
      || (ignore_cooldown && is_rate_limited k.status)

abbrev pub in_pool : String → ApiKey → Bool
in_pool pool k = if str_eq pool "" then true else str_eq k.pool pool

unfoldable pub select_keys :
    Rng → Provider → String → ℕ → Option String → Bool → ℕ → Redis → List ApiKey × Redis
unfolding ordered_candidates is_recovered
select_keys rng provider pool recovery_seconds session ignore_cooldown now r =
    let active = keep (λ k. is_active k.status) provider.keys in
    let recovered = keep (is_recovered now recovery_seconds ignore_cooldown) provider.keys in
    ordered_candidates rng provider (keep (in_pool pool) active) (keep (in_pool pool) recovered)
      pool session r
