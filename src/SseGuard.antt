-- ===== src/SseGuard.antt =====
-- backend/voidswitch/core/sse.py: the leases that bound a user's live streams. A script runs as one
-- step on the user's sorted set, whose scores are the times at which the leases lapse; a lease id is
-- a fresh UUID. `_renewals` is the list of the lease ids that a renewal task serves. A Redis that
-- raises ends a renewal task; acquire and release then raise themselves, and no step is taken.
pub mod Leases
mod Tests
use void_switch.Base.{
  ℕ, zero, ◌+◌, ◌*◌, String, Option, none, some, List, [], ◌∷◌, Bool, true, false, ◌&&◌, leb, ltb,
  if◌then◌else◌, keep, str_eq,
}
use void_switch.SortedSet.{SortedSet, at_time, remove_scores, add, remove, card, holds, expire_at}

abbrev pub lease_ms : ℕ
lease_ms = 90 * 1000

-- _ACQUIRE_SCRIPT
unfoldable pub acquire_script : ℕ → ℕ → ℕ → String → SortedSet → Bool × SortedSet
unfolding at_time remove_scores add expire_at
acquire_script now limit ttl lease z =
    let live = remove_scores (λ score. leb score now) (at_time now z) in
    if ltb 0 limit && leb limit (card live)
    then (false, live)
    else (true, expire_at (now + (ttl + 1000)) (add (now + ttl) lease live))

-- _RENEW_SCRIPT
unfoldable pub renew_script : ℕ → ℕ → String → SortedSet → Bool × SortedSet
unfolding at_time add expire_at
renew_script now ttl lease z =
    let present = at_time now z in
    if holds lease present
    then (true, expire_at (now + (ttl + 1000)) (add (now + ttl) lease present))
    else (false, present)

-- A user's state: the sorted set of Redis, and the leases that this worker renews.
pub record Guard : Type 0 where
  pub leases : SortedSet
  pub renewals : List String

abbrev other_id : String → String → Bool
other_id lease id = if str_eq id lease then false else true

-- False is the 429 that `acquire` raises; a refused call has still dropped the lapsed leases.
unfoldable pub acquire : ℕ → ℕ → String → Guard → Bool × Guard
unfolding acquire_script
acquire now limit lease g =
    let (b, z) = acquire_script now limit lease_ms lease g.leases in
    (b, record { leases = z; renewals = if b then lease ∷ g.renewals else g.renewals })

unfoldable pub release : ℕ → Option String → Guard → Guard
unfolding at_time remove
release now none g = g
release now (some lease) g = record {
  leases = remove lease (at_time now g.leases);
  renewals = keep (other_id lease) g.renewals;
}

-- One round of the renewal task of a lease: it goes on only if the lease was renewed.
unfoldable pub renew : ℕ → String → Guard → Guard
unfolding renew_script
renew now lease g =
    let (b, z) = renew_script now lease_ms lease g.leases in
    record { leases = z; renewals = if b then g.renewals else keep (other_id lease) g.renewals }
