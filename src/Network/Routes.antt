-- ===== src/Network/Routes.antt =====
-- The routes that a request tries.
use text.Mathlib.TextPositions.{eq_refl}
use mathlib.Core.List.{append_assoc, append-nil}
use void_switch.Base.{
  String, any-append, length-append, ℕ, ◌+◌, Option, none, some, List, [], ◌∷◌, ◌++◌, true, false,
  leb, ◌≡◌, refl, ◌≤◌, ◌<◌, arith, inl, inr, ◌⊎◌, if◌then◌else◌, if_rule, length, All,
}
use void_switch.Routing.{Route}
use void_switch.Network.{
  Candidate, same_route, is_seen, or_direct, choose, select_routes, same_text, same_number,
}

-- Each route differs from those before it.
abbrev pub Apart : List Candidate → List Candidate → Type 0
Apart before [] = Unit
Apart before (c ∷ cs) = (is_seen before c ≡ false) × Apart (before ++ c ∷ []) cs

same_text_refl : (t : Option String) → same_text t t ≡ true
same_text_refl none = refl
same_text_refl (some s) = eq_refl s

same_number_refl : (n : Option ℕ) → same_number n n ≡ true
same_number_refl none = refl
same_number_refl (some n) = ground arith

same_route_refl : (r : Route) → same_route r r ≡ true
same_route_refl r = ground (
  arith,
  same_text_refl r.proxy_url,
  same_text_refl r.local_address,
  same_number_refl r.agent_node_id,
)

length-snoc : (xs : List Candidate) (c : Candidate) → length (xs ++ c ∷ []) ≡ length xs + 1
length-snoc xs c = length-append xs (c ∷ [])

Apart-snoc :
    (before cs : List Candidate) (c : Candidate)
    → Apart before cs
    → is_seen (before ++ cs) c ≡ false
    → Apart before (cs ++ c ∷ [])
Apart-snoc before [] c h new = (rw append-nil at new, tt)
Apart-snoc before (d ∷ cs) c h new =
    (h.0, Apart-snoc (before ++ d ∷ []) cs c h.1 (rw append_assoc new))

-- What the loop makes of the routes chosen before it.
record Chosen (limit : ℕ) (chosen routes result : List Candidate) : Type 0 where
  apart : Apart [] result
  bounded : length result ≤ limit
  longer : length chosen ≤ length result
  keeps : (c : Candidate) → is_seen chosen c ≡ true → is_seen result c ≡ true
  covers : (limit ≤ length result) ⊎ All (λ c. is_seen result c ≡ true) routes

next_keeps :
    (chosen : List Candidate) (c d : Candidate)
    → is_seen chosen d ≡ true
    → is_seen (if is_seen chosen c then chosen else chosen ++ c ∷ []) d ≡ true
next_keeps chosen c d h =
    if_rule (λ next. is_seen next d ≡ true) (is_seen chosen c) _ _ (λ old. h)
      (λ new. rw (any-append, h) refl)

next_has :
    (chosen : List Candidate) (c : Candidate)
    → is_seen (if is_seen chosen c then chosen else chosen ++ c ∷ []) c ≡ true
next_has chosen c =
    if_rule (λ next. is_seen next c ≡ true) (is_seen chosen c) _ _ (λ old. old)
      (λ new. rw (any-append, new, same_route_refl c.0) refl)

next-Apart :
    (chosen : List Candidate) (c : Candidate)
    → Apart [] chosen
    → Apart [] (if is_seen chosen c then chosen else chosen ++ c ∷ [])
next-Apart chosen c h =
    if_rule (Apart []) (is_seen chosen c) _ _ (λ old. h) (λ new. Apart-snoc [] chosen c h new)

next-length :
    (chosen : List Candidate) (c : Candidate)
    → let next = if is_seen chosen c then chosen else chosen ++ c ∷ [] in
      (length chosen ≤ length next) × (length next ≤ length chosen + 1)
next-length chosen c =
    if_rule (λ next. (length chosen ≤ length next) × (length next ≤ length chosen + 1))
      (is_seen chosen c) _ _ (λ old. (omega arith, omega arith))
      (λ new. (omega (arith, length-snoc chosen c), omega (arith, length-snoc chosen c)))

choose-Chosen :
    (limit : ℕ) (chosen routes : List Candidate)
    → Apart [] chosen
    → length chosen < limit
    → Chosen limit chosen routes (choose limit chosen routes)
unfolding choose
choose-Chosen limit chosen [] h room = record {
  apart = h;
  bounded = omega arith;
  longer = omega arith;
  keeps = λ c e. e;
  covers = inr tt;
}
choose-Chosen limit chosen (c ∷ more) h room =
    let next = if is_seen chosen c then chosen else chosen ++ c ∷ [] in
    let (longer, step) = next-length chosen c in
    if_rule (Chosen limit chosen (c ∷ more)) (leb limit (length next)) _ _
      (λ full. record {
        apart = next-Apart chosen c h;
        bounded = omega arith;
        longer = longer;
        keeps = next_keeps chosen c;
        covers = inl (ground arith);
      })
      (λ left.
        let rest = choose-Chosen limit next more (next-Apart chosen c h) (ground arith) in
        record {
          apart = rest.apart;
          bounded = rest.bounded;
          longer = omega (arith, rest.longer);
          keeps = λ d e. rest.keeps d (next_keeps chosen c d e);
          covers = elim rest.covers [
            | inl full ↦ inl full
            | inr all ↦ inr (rest.keeps c (next_has chosen c), all)
          ];
        })

first_chosen :
    (limit : ℕ) (c : Candidate) (more : List Candidate) → 1 ≤ length (choose limit [] (c ∷ more))
unfolding choose
first_chosen limit c more =
    if_rule (λ l. 1 ≤ length l) (leb limit 1) (c ∷ []) _ (λ full. omega arith)
      (λ left. (choose-Chosen limit (c ∷ []) more (refl, tt) (ground arith)).longer)

-- The routes that a request tries are at least one, at most as many as the limit and differ from
-- each other, and unless the limit is reached every given route is among them; where no route is
-- given, that is the direct one.
pub select_routes-Apart :
    (limit : ℕ) (routes : List Candidate)
    → 0 < limit
    → let selected = select_routes limit routes in
      Apart [] selected
      × (1 ≤ length selected)
      × (length selected ≤ limit)
      × ((limit ≤ length selected) ⊎ All (λ c. is_seen selected c ≡ true) (or_direct routes))
unfolding select_routes
select_routes-Apart limit [] h =
    let c = choose-Chosen limit [] (or_direct []) tt h in
    (c.apart, first_chosen limit _ [], c.bounded, c.covers)
select_routes-Apart limit (r ∷ routes) h =
    let c = choose-Chosen limit [] (r ∷ routes) tt h in
    (c.apart, first_chosen limit r routes, c.bounded, c.covers)
