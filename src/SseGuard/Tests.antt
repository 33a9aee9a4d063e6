-- ===== src/SseGuard/Tests.antt =====
-- The stream guard at concrete inputs.
use void_switch.Base.{
  ℕ, String, [], ◌∷◌, true, false, some, ◌≡◌, refl, ◌≤◌, ◌<◌, ◌⊎◌, ◌↔◌, arith, if◌then◌else◌,
  length,
}
use void_switch.SortedSet.{empty_set, card, holds}
use void_switch.SseGuard.{Guard, acquire, renew, release}
use void_switch.SseGuard.Leases.{
  here, next, acquires, renews, Reach-Within, acquire_exact, live, release_final,
}

abbrev idle : Guard
idle = record { leases = empty_set; renewals = [] }

abbrev one : Guard
one = (acquire 1000 2 "a" idle).1

abbrev two : Guard
two = (acquire 2000 2 "b" one).1

-- The third stream is refused while two leases are live, and let in when they have lapsed.
acquire_runs : ((acquire 3000 2 "c" two).0 ≡ false) × ((acquire 91_500 2 "c" two).0 ≡ true)
unfolding acquire
acquire_runs = (refl, refl)

abbrev Any : String → Type 0
Any id = Unit

Reach-Within_example : card (renew 5000 "a" two).leases ≤ 2
Reach-Within_example = Reach-Within 2 Any idle (renew 5000 "a" two) (omega arith) (omega arith) (
    next (next (next here (acquires 1000 "a" idle tt)) (acquires 2000 "b" one tt))
      (renews 5000 "a" two))

acquire_exact_example :
    (((acquire 3000 2 "c" two).0 ≡ true) ↔ ((◌≡◌ {A = ℕ} 2 0) ⊎ (length (live 3000 two) < 2)))
    × ((acquire 3000 2 "c" two).1.renewals
        ≡ (if (acquire 3000 2 "c" two).0 then "c" ∷ two.renewals else two.renewals))
acquire_exact_example = acquire_exact 3000 2 "c" two

-- The renewal task of the released lease wakes once more.
release_final_example : holds "a" (renew 31_000 "a" (release 30_000 (some "a") two)).leases ≡ false
release_final_example =
    release_final 2 30_000 "a" two (renew 31_000 "a" (release 30_000 (some "a") two))
      (next here (renews 31_000 "a" (release 30_000 (some "a") two)))
