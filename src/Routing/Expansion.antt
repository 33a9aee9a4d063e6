-- ===== src/Routing/Expansion.antt =====
-- The expansion of a group: enough fuel, and what the whole expansion holds.
use void_switch.Base.{
  ℕ, zero, suc, ◌+◌, Option, none, some, List, [], ◌∷◌, Bool, true, false, not, ◌==◌, keep, map,
  ◌≡◌, refl, ◌∙◌, ap, ◌≤◌, ◌<◌, ◌↔◌, arith, inl, inr, Bool-cases, length, length-map,
  length-keep-le, ==_iff,
}
use void_switch.Routing.Groups.{
  Member, node, inherited, empty, Group, lookup, has, Collected, nothing, visit_source, add_member,
  add_members, collect_group, collect_group_members, merge_found,
}
use void_switch.Routing.Found.{is_found}
use void_switch.Routing.Reach.{Reach, collect_sound}
use void_switch.Routing.Walks.{Known-source, Walk-found, reach-Walk}

-- The groups of the index that are not on the path.
abbrev unvisited : List ℕ → List ℕ → List ℕ
unvisited path ids = keep (λ i. not (has i path)) ids

unvisited_le :
    (x : ℕ) (path ids : List ℕ) → length (unvisited (x ∷ path) ids) ≤ length (unvisited path ids)
unvisited_le x path [] = omega arith
unvisited_le x path (i ∷ ids) = ground (arith, unvisited_le x path ids)

unvisited_lt :
    (x : ℕ) (path ids : List ℕ)
    → has x path ≡ false
    → has x ids ≡ true
    → length (unvisited (x ∷ path) ids) < length (unvisited path ids)
unvisited_lt x path [] new member = cc
unvisited_lt x path (i ∷ ids) new member = elim (Bool-cases (i == x)) [
  | inl same ↦
      let absent : has i path ≡ false = rw ((==_iff i x).0 same) new in
      let le = unvisited_le x path ids in ground arith
  | inr other ↦ let lt = unvisited_lt x path ids new (rw other at member) in ground arith
]

known_id :
    (x : ℕ) (groups : List Group) (g : Group)
    → lookup x groups ≡ some g
    → has x (map (λ (h : Group). h.id) groups) ≡ true
known_id x [] g e = cc
known_id x (h ∷ groups) g e = elim (Bool-cases (h.id == x)) [
  | inl same ↦ rw same refl
  | inr other ↦ rw (other, known_id x groups g (rw other at e)) refl
]

-- The expansion depends on what is visited at the sources only.
module _ (groups : List Group) (visit visit' : Group → Collected)
    (same : (id : ℕ) (h : Group) → lookup id groups ≡ some h → visit h ≡ visit' h) where
  add_member_cong :
      (m : Member) (found : Collected)
      → add_member visit groups m found ≡ add_member visit' groups m found
  unfolding add_member
  add_member_cong (node n pin) found = refl
  add_member_cong empty found = refl
  add_member_cong (inherited id) found = source (lookup id groups) refl
    where
      source :
          (o : Option Group)
          → lookup id groups ≡ o
          → merge_found (visit_source visit o) found ≡ merge_found (visit_source visit' o) found
      source none e = refl
      source (some h) e = ap (λ c. merge_found c found) (same id h e)

  add_members_cong :
      (ms : List Member) (found : Collected)
      → add_members visit groups ms found ≡ add_members visit' groups ms found
  unfolding add_members
  add_members_cong [] found = refl
  add_members_cong (m ∷ ms) found =
      add_members_cong ms (add_member visit groups m found)
      ∙ ap (add_members visit' groups ms) (add_member_cong m found)

module _ (groups : List Group) where
  abbrev ids : List ℕ
  ids = map (λ (g : Group). g.id) groups

  enough_fuel :
      (f f' : ℕ) (path : List ℕ) (g : Group)
      → lookup g.id groups ≡ some g
      → length (unvisited path ids) < f
      → length (unvisited path ids) < f'
      → collect_group f groups path g ≡ collect_group f' groups path g
  unfolding collect_group
  enough_fuel zero f' path g known h h' = absurd (omega arith)
  enough_fuel (suc f) zero path g known h h' = absurd (omega arith)
  enough_fuel (suc f) (suc f') path g known h h' = elim (Bool-cases (has g.id path)) [
    | inl old ↦ rw old refl
    | inr new ↦
        let fewer = unvisited_lt g.id path ids new (known_id g.id groups g known) in
        rw new (
          add_members_cong groups (collect_group f groups (g.id ∷ path))
            (collect_group f' groups (g.id ∷ path))
            (λ id s e.
              enough_fuel f f' (g.id ∷ path) s (source_known id s e) (omega arith) (omega arith))
            g.members nothing)
  ]
    where
      source_known : (id : ℕ) (s : Group) → lookup id groups ≡ some s → lookup s.id groups ≡ some s
      source_known id s e = Known-source false 0 groups id s e

  few : length (unvisited [] ids) < length groups + 1
  few =
      let kept = length-keep-le (λ i. not (has i [])) ids in
      let all = length-map (λ (g : Group). g.id) groups in omega (arith, kept, all)

  -- Any fuel that exceeds the number of groups gives the whole expansion.
  pub collect_group-members :
      (fuel : ℕ) (g : Group)
      → lookup g.id groups ≡ some g
      → length groups < fuel
      → collect_group fuel groups [] g ≡ collect_group_members groups g
  unfolding collect_group_members
  collect_group-members fuel g known more =
      enough_fuel fuel (length groups + 1) [] g known (omega (arith, few)) few

  -- The expansion of a group of the index holds a node exactly if it is reached from the group
  -- through inheritance, however the groups inherit from each other, and holds it among the pinned
  -- ones exactly if it is reached by a pinned member row.
  pub collect_group_members-Reach :
      (pinned : Bool) (n : ℕ) (g : Group)
      → lookup g.id groups ≡ some g
      → (is_found pinned n (collect_group_members groups g) ≡ true) ↔ Reach pinned n groups g
  unfolding collect_group_members
  collect_group_members-Reach pinned n g known = (
    collect_sound pinned n groups (length groups + 1) [] g,
    λ reach.
        let (k, walk) = reach-Walk pinned n groups g known reach in
        let fuel = length groups + 1 + k in
        ap (is_found pinned n)
          (enough_fuel (length groups + 1) fuel [] g known few (omega (arith, few)))
        ∙ Walk-found pinned n groups fuel k [] g (omega arith) known walk,
  )
