-- ===== src/Selector/Pins.antt =====
-- The pinned modes keep a session on its key for as long as that key is a candidate.
use mathlib.Core.List.Perm
use mathlib.Core.Logic.Or
use void_switch.Base.{
  ℕ, String, Option, none, some, List, [], ◌∷◌, ◌++◌, ◌≡◌, arith, keep, Perm, true, Mem, ◌⊎◌,
}
use void_switch.Keys.{KeySelectMode, ApiKey, pinned_round_robin, pinned_random}
use void_switch.Selector.{Redis, int_value, lead_with, valid_ids, has_id, contains}

-- The id of the key that is tried first.
abbrev pub leader : List ApiKey → Option ℕ
leader [] = none
leader (k ∷ ks) = k.id

has_id_lem : (n : ℕ) (k : ApiKey) → has_id n k ≡ true → k.id ≡ some n
has_id_lem n k h = ground arith

leader-keep :
    (n : ℕ) (l rest : List ApiKey)
    → contains (valid_ids l) n ≡ true
    → leader (keep (has_id n) l ++ rest) ≡ some n
leader-keep n [] rest h = cc
leader-keep n (k ∷ ks) rest h = ground (arith, leader-keep n ks rest)

pub leader-lead_with :
    (l : List ApiKey) (n : ℕ) → contains (valid_ids l) n ≡ true → leader (lead_with l n) ≡ some n
unfolding lead_with
leader-lead_with l n h = leader-keep n l _ h

module _ (p : ℕ) (pool session : String) where
  -- The pin stands, and Redis answers.
  abbrev IsPinned : ℕ → Redis → Type 0
  IsPinned n r = (r.pin p pool session ≡ some (int_value n)) × (r.faults ≡ [])

  -- The pin in force after a pinned selection is the leader of its order.
  abbrev Leads : List ApiKey × Redis → Type 0
  Leads (l, r) = (n : ℕ) × (leader l ≡ some n) × IsPinned n r

  -- A choice of a candidate, by which the store's pins and faults do not change.
  abbrev Chooses : List ApiKey → (Redis → ApiKey × Redis) → Type 0
  Chooses manual choose =
      (r : Redis)
      → r.faults ≡ []
      → Mem (choose r).0 manual × ((choose r).1.pin ≡ r.pin) × ((choose r).1.faults ≡ [])

  abbrev Looked : List ApiKey → Option ℕ × Redis → Type 0
  Looked manual (some n, r) = IsPinned n r × (contains (valid_ids manual) n ≡ true)
  Looked manual (none, r) = (r.pin p pool session ≡ none) × (r.faults ≡ [])

abbrev pub IsPinnedMode : KeySelectMode → Type 0
IsPinnedMode m = (m ≡ pinned_round_robin) ⊎ (m ≡ pinned_random)
