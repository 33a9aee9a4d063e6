-- ===== src/Routing/Walks.antt =====
-- A walk through the groups can be cut where it meets a group for the last time, so the collection
-- finds the end of every walk, if its fuel exceeds the length.
use void_switch.Base.{
  ℕ, zero, suc, some, List, [], ◌∷◌, Bool, true, false, ◌==◌, ◌≡◌, refl, sym, ◌∙◌, ap, subst, ◌<◌,
  arith, inl, inr, ◌⊎◌, Bool-cases, Mem, ==_iff, find,
}
use void_switch.Routing.Groups.{
  Member, node, empty, inherited, Group, lookup, has, collect_group, Collected,
}
use void_switch.Routing.Found.{any_of_mem, is_found, gives, finds}
use void_switch.Routing.Reach.{
  Reach, own, through, Known, Walk, here, step, Left, at_once, onward, collect_found,
}

find_test :
    {A : Type 0} (test : A → Bool) (xs : List A) (x : A) → find test xs ≡ some x → test x ≡ true
find_test test [] x e = cc
find_test test (y ∷ ys) x e = elim (Bool-cases (test y)) [
  | inl passes ↦
      let same : some y ≡ some x = rw passes at e in subst (λ z. test z ≡ true) (cc) passes
  | inr other ↦ find_test test ys x (rw other at e)
]

pub lookup_same :
    (groups : List Group) (id : ℕ) (h : Group) → lookup id groups ≡ some h → (h.id ≡ id)
lookup_same groups id h e = (==_iff h.id id).0 (find_test (λ g. g.id == id) groups h e)

module _ (pinned : Bool) (n : ℕ) (groups : List Group) where
  pub Known-source : (id : ℕ) (h : Group) → lookup id groups ≡ some h → Known pinned n groups h
  Known-source id h e = ap (λ i. lookup i groups) (lookup_same groups id h e) ∙ e

  same_group :
      (a g : Group) → Known pinned n groups a → Known pinned n groups g → a.id ≡ g.id → a ≡ g
  same_group a g ka kg e =
      let both : some a ≡ some g = sym ka ∙ ap (λ i. lookup i groups) e ∙ kg in cc

  fresh_head :
      (path : List ℕ) (k : ℕ) (a : Group) → Walk pinned n groups path k a → has a.id path ≡ false
  fresh_head path _ a (here k _ m new known mem e) = new
  fresh_head path _ a (step k _ h id new known mem source w) = new

  weaken :
      (path : List ℕ) (k : ℕ) (g : Group)
      → Left pinned n groups path k g
      → Left pinned n groups path (suc k) g
  weaken path k g (at_once m mem e) = at_once m mem e
  weaken path k g (onward j h id less mem source w) = onward j h id (omega arith) mem source w

  cut :
      (path : List ℕ) (k : ℕ) (a g : Group)
      → Known pinned n groups g
      → Walk pinned n groups path k a
      → Walk pinned n groups (g.id ∷ path) k a ⊎ Left pinned n groups path k g
  cut path _ a g kg (here k _ m new known mem e) = elim (Bool-cases (g.id == a.id)) [
    | inl same ↦
        let ag = same_group a g known kg (sym ((==_iff g.id a.id).0 same)) in
        inr (at_once m (subst (λ (x : Group). Mem m x.members) ag mem) e)
    | inr other ↦ inl (here k a m (rw (other, new) refl) known mem e)
  ]
  cut path _ a g kg (step k _ h id new known mem source w) = elim (cut path k h g kg w) [
    | inr left ↦ inr (weaken path k g left)
    | inl rest ↦ elim (Bool-cases (g.id == a.id)) [
      | inl same ↦
          let ag = same_group a g known kg (sym ((==_iff g.id a.id).0 same)) in
          inr (
            onward k h id (omega arith) (subst (λ (x : Group). Mem (inherited id) x.members) ag mem)
              source rest)
      | inr other ↦ inl (step k a h id (rw (other, new) refl) known mem source rest)
    ]
  ]

  own_found :
      (visit : Group → Collected) (m : Member)
      → gives pinned n m ≡ true
      → finds pinned n visit groups m ≡ true
  own_found visit (node k pin) e = e
  own_found visit (inherited id) e = cc
  own_found visit empty e = e

  pub Walk-found :
      (fuel k : ℕ) (path : List ℕ) (g : Group)
      → k < fuel
      → Known pinned n groups g
      → Walk pinned n groups path k g
      → is_found pinned n (collect_group fuel groups path g) ≡ true
  Walk-found zero k path g less kg w = absurd (omega arith)
  Walk-found (suc fuel) k path g less kg w =
      collect_found pinned n groups fuel path g (fresh_head path k g w)
      ∙ (elim (cut path k g g kg w) [
        | inl again ↦ absurd (not_fresh g.id path (fresh_head (g.id ∷ path) k g again))
        | inr (at_once m mem e) ↦ any_of_mem _ m g.members mem (own_found _ m e)
        | inr (onward j h id near mem source rest) ↦ any_of_mem _ (inherited id) g.members mem (
            rw source
              (Walk-found fuel j (g.id ∷ path) h (omega arith) (Known-source id h source) rest))
      ])
    where
      not_fresh : (i : ℕ) (path : List ℕ) → ¬ (has i (i ∷ path) ≡ false)
      not_fresh i path e = ground arith

  -- Whatever is reached is at the end of a walk.
  pub reach-Walk :
      (g : Group)
      → Known pinned n groups g
      → Reach pinned n groups g
      → (k : ℕ) × Walk pinned n groups [] k g
  reach-Walk g kg (own _ m mem e) = (0, here 0 g m refl kg mem e)
  reach-Walk g kg (through _ h id mem source r) =
      let (k, w) = reach-Walk h (Known-source id h source) r in
      (suc k, step k g h id refl kg mem source w)
