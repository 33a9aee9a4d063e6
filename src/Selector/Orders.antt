-- ===== src/Selector/Orders.antt =====
-- Which keys the try order of `select_keys` holds, for every mode and every failure of Redis.
use mathlib.Core.List.{perm_append_comm}
use mathlib.Core.List.Perm
use void_switch.Base.{
  ◌%◌, Option-cases, ℕ, String, Option, none, some, List, [], ◌∷◌, ◌++◌, Bool, true, false, ◌≡◌,
  refl, arith, inl, inr, take, drop, keep, keep-perm, take-append-drop, subst, if◌then◌else◌, Perm,
  leb, ◌&&◌, ◌||◌, keep_two-perm, keep_mem, ◌<◌, Mem, length,
}
use void_switch.Base.Sort.{
  sort_by-perm, IsPreorder, IsSorted, sort_by-IsSorted, by, lex, leb-IsPreorder, lex-IsPreorder,
  by-IsPreorder,
}
use void_switch.Keys.{
  KeySelectMode, random, fallback, pinned_round_robin, pinned_random, ApiKey, rate_limited,
  is_active,
}
use void_switch.Selector.{
  Provider, Redis, Rng, manual_order, rotate_by, rotate, lead_with, has_id, lead_chosen, pinned,
  by_mode, apply_mode, recovered_order, recovered_key, is_recovered, in_pool, select_keys,
  next_cursor, store_pin, mode_of, manual_key, rotate_at, lead_stored, lead_existing,
}

pub rotate_by-perm : (n : ℕ) (l : List ApiKey) → Perm (rotate_by n l) l
unfolding rotate_by
rotate_by-perm n l =
    subst (Perm (drop n l ++ take n l)) (take-append-drop n l)
      (perm_append_comm (drop n l) (take n l))

rotate_at-perm : (l : List ApiKey) (c : Option ℕ × Redis) → Perm (rotate_at l c).0 l
rotate_at-perm l (none, r) = Perm.refl l
rotate_at-perm l (some c, r) = rotate_by-perm (c % length l) l

pub rotate-perm :
    (l : List ApiKey) (p : ℕ) (pool : String) (r : Redis) → Perm (rotate l p pool r).0 l
unfolding rotate
rotate-perm l p pool r = ground (arith, Perm.refl l, rotate_at-perm l (next_cursor p pool r))

pub lead_with-perm : (l : List ApiKey) (n : ℕ) → Perm (lead_with l n) l
unfolding lead_with
lead_with-perm l n = keep-perm (has_id n) (λ k. if has_id n k then false else true) l (λ x. refl)

lead_stored-perm : (l : List ApiKey) (n : ℕ) (c : Option ℕ × Redis) → Perm (lead_stored l n c).0 l
lead_stored-perm l n (none, r) = lead_with-perm l n
lead_stored-perm l n (some m, r) = lead_with-perm l _

lead_chosen-perm :
    (l : List ApiKey) (p : ℕ) (pool : String) (session : Option String) (c : ApiKey × Redis)
    → Perm (lead_chosen l p pool session c).0 l
unfolding lead_chosen
lead_chosen-perm l p pool none (c, r) = elim (Option-cases c.id) [
  | inl e ↦ rw e (Perm.refl l)
  | inr (n, e) ↦ rw e (lead_with-perm l n)
]
lead_chosen-perm l p pool (some s) (c, r) = elim (Option-cases c.id) [
  | inl e ↦ rw e (Perm.refl l)
  | inr (n, e) ↦ rw e (lead_stored-perm l n (store_pin p pool s n r))
]

lead_existing-perm :
    (l : List ApiKey) (p : ℕ) (pool : String) (session : Option String)
    (choose : Redis → ApiKey × Redis) (c : Option ℕ × Redis)
    → Perm (lead_existing l p pool session choose c).0 l
lead_existing-perm l p pool session choose (none, r) = lead_chosen-perm l p pool session (choose r)
lead_existing-perm l p pool session choose (some n, r) = lead_with-perm l n

pinned-perm :
    (l : List ApiKey) (p : ℕ) (pool : String) (session : Option String)
    (choose : Redis → ApiKey × Redis) (r : Redis)
    → Perm (pinned l p pool session choose r).0 l
unfolding pinned
pinned-perm l p pool none choose r = lead_chosen-perm l p pool none (choose r)
pinned-perm l p pool (some s) choose r = lead_existing-perm l p pool (some s) choose _

pub manual_order-perm : (l : List ApiKey) → Perm (manual_order l) l
unfolding manual_order
manual_order-perm l = sort_by-perm (by (lex leb) manual_key) l

pub manual_key-IsPreorder : IsPreorder (by (lex leb) manual_key)
manual_key-IsPreorder = by-IsPreorder (lex leb) manual_key (lex-IsPreorder leb leb-IsPreorder)

recovered_key-IsPreorder : IsPreorder (by (lex leb) recovered_key)
recovered_key-IsPreorder = by-IsPreorder (lex leb) recovered_key (lex-IsPreorder leb leb-IsPreorder)

module _ (rng : Rng) where
  by_mode-perm :
      (m : KeySelectMode) (d : ApiKey) (l : List ApiKey) (p : ℕ) (pool : String)
      (session : Option String) (r : Redis)
      → Perm (by_mode rng m d l p pool session r).0 l
  unfolding by_mode
  by_mode-perm fallback d l p pool session r = Perm.refl l
  by_mode-perm random d l p pool session r = rng.shuffle_perm l
  by_mode-perm pinned_random d l p pool session r = pinned-perm l p pool session _ r
  by_mode-perm pinned_round_robin d l p pool session r = pinned-perm l p pool session _ r
  by_mode-perm _ d l p pool session r = rotate-perm l p pool r

  pub apply_mode-perm :
      (provider : Provider) (l : List ApiKey) (pool : String) (session : Option String) (r : Redis)
      → Perm (apply_mode rng provider l pool session r).0 l
  unfolding apply_mode
  apply_mode-perm provider [] pool session r = Perm.nil
  apply_mode-perm provider (k ∷ []) pool session r = Perm.refl _
  apply_mode-perm provider (k ∷ j ∷ rest) pool session r =
      Perm.trans (by_mode-perm (mode_of provider) k _ _ pool session r) (manual_order-perm _)

-- The keys that a request may use, said without the order in which the code collects them.
abbrev pub usable : String → ℕ → ℕ → Bool → ApiKey → Bool
usable pool now recovery_seconds ignore_cooldown k =
    in_pool pool k && (is_active k.status || is_recovered now recovery_seconds ignore_cooldown k)

active_not_recovered :
    (now recovery_seconds : ℕ) (ignore_cooldown : Bool) (k : ApiKey)
    → is_active k.status ≡ true
    → is_recovered now recovery_seconds ignore_cooldown k ≡ false
unfolding is_recovered
active_not_recovered now recovery_seconds ignore_cooldown k h = rw h

module _ (rng : Rng) (provider : Provider) (pool : String) (recovery_seconds : ℕ)
    (session : Option String) (ignore_cooldown : Bool) (now : ℕ) (r : Redis) where
  recovered_order-perm : (l : List ApiKey) → Perm (recovered_order l) l
  unfolding recovered_order
  recovered_order-perm l = sort_by-perm (by (lex leb) recovered_key) l

  -- The try order holds every key that is active or past its cooldown and of the wanted pool
  -- exactly as often as the provider does, and no other key, in every mode and on every failure
  -- of Redis.
  pub select_keys-perm :
      Perm
        (select_keys rng provider pool recovery_seconds session ignore_cooldown now r).0
        (keep (usable pool now recovery_seconds ignore_cooldown) provider.keys)
  unfolding select_keys
  select_keys-perm =
      Perm.trans
        (Perm.append (apply_mode-perm rng provider active pool session r)
          (recovered_order-perm recovered))
        (keep_two-perm (in_pool pool) (λ k. is_active k.status) resting provider.keys
          (active_not_recovered now recovery_seconds ignore_cooldown))
    where
      resting : ApiKey → Bool
      resting = is_recovered now recovery_seconds ignore_cooldown

      active : List ApiKey
      active = keep (in_pool pool) (keep (λ k. is_active k.status) provider.keys)

      recovered : List ApiKey
      recovered = keep (in_pool pool) (keep resting provider.keys)

  -- The try order is a front of active keys and a back of recovered ones: the front is a
  -- permutation of the pool's active keys, and the back holds the pool's recovered keys in order of
  -- the time since which they are free, then of their manual position, then of their id.
  pub select_keys_layers :
      (front back : List ApiKey) × ((select_keys rng provider pool recovery_seconds session
          ignore_cooldown now r).0
        ≡ front ++ back)
      × Perm front (keep (in_pool pool) (keep (λ k. is_active k.status) provider.keys))
      × Perm back (
          keep
            (in_pool pool)
            (keep (is_recovered now recovery_seconds ignore_cooldown) provider.keys))
      × IsSorted (by (lex leb) recovered_key) back
  unfolding select_keys
  select_keys_layers = (
    (apply_mode rng provider active pool session r).0,
    recovered_order recovered,
    refl,
    apply_mode-perm rng provider active pool session r,
    recovered_order-perm recovered,
    sort_by-IsSorted _ recovered_key-IsPreorder recovered,
  )
    where
      active : List ApiKey
      active = keep (in_pool pool) (keep (λ k. is_active k.status) provider.keys)

      recovered : List ApiKey
      recovered =
          keep (in_pool pool)
            (keep (is_recovered now recovery_seconds ignore_cooldown) provider.keys)

-- A key that is parked until a later time never stands in the try order, unless the caller asks
-- to ignore cooldowns.
pub parked-not-mem-select_keys :
    (rng : Rng) (provider : Provider) (pool : String) (recovery_seconds : ℕ)
    (session : Option String) (now : ℕ) (r : Redis) (k : ApiKey) (until : ℕ)
    → k.status ≡ rate_limited
    → k.rate_limit_until ≡ some until
    → now < until
    → ¬ Mem k (select_keys rng provider pool recovery_seconds session false now r).0
unfolding is_recovered
parked-not-mem-select_keys rng provider pool recovery_seconds session now r k until st ru late m =
    not_usable (
      keep_mem (usable pool now recovery_seconds false) k provider.keys (
        (Perm.mem_iff (select_keys-perm rng provider pool recovery_seconds session false now r)).0
          m))
  where
    not_usable : ¬ (usable pool now recovery_seconds false k ≡ true)
    not_usable h = ground arith
