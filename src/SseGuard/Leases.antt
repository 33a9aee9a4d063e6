-- ===== src/SseGuard/Leases.antt =====
-- A user's leases stay within the limit, and a refusal means that all of them are live.
use native.Mathlib.Nat.{le_refl}
use void_switch.Base.{
  ℕ, suc, ◌+◌, String, Option, none, some, List, [], ◌∷◌, true, false, leb, if◌then◌else◌, keep,
  length-keep-le, any-keep, length, str_eq, str_eq_iff, ◌≡◌, refl, ap, ◌≤◌, ◌<◌, ◌⊎◌, ◌↔◌, inl, inr,
  arith, Bool-cases, any,
}
use void_switch.SortedSet.{SortedSet, at_time, at_time-cases, card, holds, has_member, other_member}
use void_switch.SseGuard.{Guard, acquire, release, renew, lease_ms}

-- What workers, tasks and clients may do to one user's leases, in any order and at any times; new
-- leases are asked for under ids that `Asked` allows.
pub data Step (limit : ℕ) (Asked : String → Type 0) : Guard → Guard → Type 0 where
  acquires :
      (now : ℕ) (lease : String) (g : Guard)
      → Asked lease
      → Step limit Asked g (acquire now limit lease g).1
  renews : (now : ℕ) (lease : String) (g : Guard) → Step limit Asked g (renew now lease g)
  releases :
      (now : ℕ) (lease : Option String) (g : Guard) → Step limit Asked g (release now lease g)

pub data Reach (limit : ℕ) (Asked : String → Type 0) (g : Guard) : Guard → Type 0 where
  here : Reach limit Asked g g
  next : {h k : Guard} → Reach limit Asked g h → Step limit Asked h k → Reach limit Asked g k

abbrev pub Within : ℕ → Guard → Type 0
Within limit g = card g.leases ≤ limit

at_time-card : (now : ℕ) (z : SortedSet) → card (at_time now z) ≤ card z
at_time-card now z = elim (at_time-cases now z) [
  | inl e ↦ rw e (le_refl (card z))
  | inr (e, d, x, y) ↦ rw e (omega arith)
]

-- Replacing the entry of a member that is there leaves no more entries.
length-other :
    (m : String) (es : List (ℕ × String))
    → any (has_member m) es ≡ true
    → suc (length (keep (other_member m) es)) ≤ length es
length-other m [] h = cc
length-other m (e ∷ es) h = ground (arith, length-other m es, length-keep-le (other_member m) es)

acquire-Within :
    (limit now : ℕ) (lease : String) (g : Guard)
    → 0 < limit
    → Within limit g
    → Within limit (acquire now limit lease g).1
unfolding acquire
acquire-Within limit now lease g p w = ground (
  arith,
  at_time-card now g.leases,
  length-keep-le (λ e. if leb e.0 now then false else true) (at_time now g.leases).entries,
  length-keep-le (other_member lease)
      (keep (λ e. if leb e.0 now then false else true) (at_time now g.leases).entries),
)

renew-Within :
    (limit now : ℕ) (lease : String) (g : Guard) → Within limit g → Within limit (renew now lease g)
unfolding renew
renew-Within limit now lease g w =
    ground (arith, at_time-card now g.leases, length-other lease (at_time now g.leases).entries)

release-Within :
    (limit now : ℕ) (lease : Option String) (g : Guard)
    → Within limit g
    → Within limit (release now lease g)
unfolding release
release-Within limit now none g w = w
release-Within limit now (some lease) g w = omega (
  arith,
  length-keep-le (other_member lease) (at_time now g.leases).entries,
  at_time-card now g.leases,
)

Step-Within :
    {limit : ℕ} {Asked : String → Type 0} {g h : Guard}
    → 0 < limit
    → Within limit g
    → Step limit Asked g h
    → Within limit h
Step-Within {limit} p w (acquires now lease g a) = acquire-Within limit now lease g p w
Step-Within {limit} p w (renews now lease g) = renew-Within limit now lease g w
Step-Within {limit} p w (releases now lease g) = release-Within limit now lease g w

-- Under a positive limit, no order of acquisitions, renewals (of lapsed leases too) and releases,
-- at whatever times, brings more leases than the limit into a user's set.
pub Reach-Within :
    (limit : ℕ) (Asked : String → Type 0) (g h : Guard)
    → 0 < limit
    → Within limit g
    → Reach limit Asked g h
    → Within limit h
Reach-Within limit Asked g h p w here = w
Reach-Within limit Asked g h p w (next {h = k} r s) =
    Step-Within p (Reach-Within limit Asked g k p w r) s

-- The leases that have not lapsed.
abbrev pub live : ℕ → Guard → List (ℕ × String)
live now g = keep (λ e. if leb e.0 now then false else true) (at_time now g.leases).entries

-- A lease is granted exactly when there is no limit or fewer leases are live than the limit, and
-- the worker renews it only if it was granted.
pub acquire_exact :
    (now limit : ℕ) (lease : String) (g : Guard)
    → (((acquire now limit lease g).0 ≡ true) ↔ ((limit ≡ 0) ⊎ (length (live now g) < limit)))
      × ((acquire now limit lease g).1.renewals
          ≡ (if (acquire now limit lease g).0 then lease ∷ g.renewals else g.renewals))
unfolding acquire
acquire_exact now limit lease g = ground arith

abbrev pub Gone : String → Guard → Type 0
Gone lease g = holds lease g.leases ≡ false

at_time-holds :
    (now : ℕ) (lease : String) (z : SortedSet)
    → holds lease z ≡ false
    → holds lease (at_time now z) ≡ false
at_time-holds now lease z h = elim (at_time-cases now z) [
  | inl e ↦ rw e h
  | inr (e, d, x, y) ↦ rw e refl
]

holds-other :
    (lease : String) (es : List (ℕ × String))
    → any (has_member lease) (keep (other_member lease) es) ≡ false
holds-other lease [] = refl
holds-other lease (e ∷ es) = ground (arith, holds-other lease es)

any-keep_add :
    (lease other : String) (es : List (ℕ × String)) (score : ℕ)
    → str_eq other lease ≡ false
    → any (has_member lease) es ≡ false
    → any (has_member lease) ((score, other) ∷ keep (other_member other) es) ≡ false
any-keep_add lease other es score d h = rw d (any-keep (has_member lease) (other_member other) es h)

acquire-Gone :
    (limit now : ℕ) (lease other : String) (g : Guard)
    → str_eq other lease ≡ false
    → Gone lease g
    → Gone lease (acquire now limit other g).1
unfolding acquire
acquire-Gone limit now lease other g d w =
    let here = at_time-holds now lease g.leases w in
    let kept =
      any-keep (has_member lease) (λ e. if leb e.0 now then false else true)
        (at_time now g.leases).entries here in
    ground (arith, kept, any-keep_add lease other _ (now + lease_ms) d kept)

renew-Gone :
    (now : ℕ) (lease other : String) (g : Guard) → Gone lease g → Gone lease (renew now other g)
unfolding renew
renew-Gone now lease other g w =
    let here = at_time-holds now lease g.leases w in
    elim (Bool-cases (str_eq other lease)) [
      | inl same ↦
          let e = (str_eq_iff other lease).0 same in
          ground (arith, here, ap (λ (m : String). holds m (at_time now g.leases)) e)
      | inr differ ↦ ground (
        arith,
        here,
        any-keep_add lease other (at_time now g.leases).entries (now + lease_ms) differ here,
      )
    ]

release-Gone :
    (now : ℕ) (lease : String) (other : Option String) (g : Guard)
    → Gone lease g
    → Gone lease (release now other g)
unfolding release
release-Gone now lease none g w = w
release-Gone now lease (some other) g w =
    any-keep (has_member lease) (other_member other) (at_time now g.leases).entries
      (at_time-holds now lease g.leases w)

Step-Gone :
    {limit : ℕ} (lease : String) {g h : Guard}
    → Gone lease g
    → Step limit (λ id. str_eq id lease ≡ false) g h
    → Gone lease h
Step-Gone {limit} lease w (acquires now other g a) = acquire-Gone limit now lease other g a w
Step-Gone lease w (renews now other g) = renew-Gone now lease other g w
Step-Gone lease w (releases now other g) = release-Gone now lease other g w

-- A released lease never comes back: after the release, no order of renewals (its own late ones
-- too), releases, and acquisitions under other ids puts it into the set again.
pub release_final :
    (limit now : ℕ) (lease : String) (g h : Guard)
    → Reach limit (λ id. str_eq id lease ≡ false) (release now (some lease) g) h
    → holds lease h.leases ≡ false
release_final limit now lease g h here = at_release now lease g
  where
    at_release : (t : ℕ) (m : String) (k : Guard) → Gone m (release t (some m) k)
    at_release t m k = unfold release in holds-other m (at_time t k.leases).entries
release_final limit now lease g h (next {h = k} r s) =
    Step-Gone lease (release_final limit now lease g k r) s
