-- ===== src/Routing/Reach.antt =====
-- The nodes of a group are those that can be reached through inheritance.
use void_switch.Base.{
  ℕ, zero, suc, Option, none, some, List, ◌∷◌, Bool, true, false, ◌||◌, any, ◌≡◌, refl, sym, ◌∙◌,
  ap, subst, ◌<◌, inl, inr, ◌⊎◌, Bool-cases, Mem,
}
use void_switch.Routing.Groups.{
  Member, node, inherited, empty, Group, lookup, has, Collected, nothing, visit_source,
  collect_group,
}
use void_switch.Routing.Found.{any_witness, is_found, gives, finds, is_found-add_members}

-- The group inherits the node, or its pin where only pins count, along member rows.
pub data Reach (pinned : Bool) (n : ℕ) (groups : List Group) : Group → Type 0 where
  own :
      (g : Group) (m : Member) → Mem m g.members → gives pinned n m ≡ true → Reach pinned n groups g
  through :
      (g h : Group) (id : ℕ)
      → Mem (inherited id) g.members
      → lookup id groups ≡ some h
      → Reach pinned n groups h
      → Reach pinned n groups g

nothing_found : (pinned : Bool) (n : ℕ) → is_found pinned n nothing ≡ false
nothing_found true n = refl
nothing_found false n = refl

module _ (pinned : Bool) (n : ℕ) (groups : List Group) where
  -- What a member finds is its own node or a node of its source.
  finds_cases :
      (visit : Group → Collected) (m : Member)
      → finds pinned n visit groups m ≡ true
      → (gives pinned n m ≡ true)
        ⊎ ((h : Group) × (id : ℕ) × (m ≡ inherited id)
            × (lookup id groups ≡ some h)
            × (is_found pinned n (visit h) ≡ true))
  finds_cases visit (node m pin) e = inl e
  finds_cases visit empty e = inl e
  finds_cases visit (inherited id) e = source (lookup id groups) refl e
    where
      source :
          (o : Option Group)
          → lookup id groups ≡ o
          → is_found pinned n (visit_source visit o) ≡ true
          → (gives pinned n (inherited id) ≡ true)
            ⊎ ((h : Group) × (id' : ℕ) × (inherited id ≡ inherited id')
                × (lookup id' groups ≡ some h)
                × (is_found pinned n (visit h) ≡ true))
      source none l e = absurd (cc (e, nothing_found pinned n))
      source (some h) l e = inr (h, id, refl, l, e)

  pub collect_found :
      (fuel : ℕ) (path : List ℕ) (g : Group)
      → has g.id path ≡ false
      → is_found pinned n (collect_group (suc fuel) groups path g)
        ≡ any (finds pinned n (collect_group fuel groups (g.id ∷ path)) groups) g.members
  unfolding collect_group
  collect_found fuel path g new = rw new (
      is_found-add_members pinned n (collect_group fuel groups (g.id ∷ path)) groups g.members
        nothing
      ∙ ap
          (λ b.
            b || any (finds pinned n (collect_group fuel groups (g.id ∷ path)) groups) g.members)
          (nothing_found pinned n))

  pub collect_skips :
      (fuel : ℕ) (path : List ℕ) (g : Group)
      → has g.id path ≡ true
      → is_found pinned n (collect_group fuel groups path g) ≡ false
  unfolding collect_group
  collect_skips zero path g old = nothing_found pinned n
  collect_skips (suc fuel) path g old = rw old (nothing_found pinned n)

  pub collect_sound :
      (fuel : ℕ) (path : List ℕ) (g : Group)
      → is_found pinned n (collect_group fuel groups path g) ≡ true
      → Reach pinned n groups g
  unfolding collect_group
  collect_sound zero path g e = absurd (cc (e, nothing_found pinned n))
  collect_sound (suc fuel) path g e = elim (Bool-cases (has g.id path)) [
    | inl old ↦ absurd (cc (e, collect_skips (suc fuel) path g old))
    | inr new ↦
        let (m, member, found) =
          any_witness _ g.members (sym (collect_found fuel path g new) ∙ e) in
        elim (finds_cases _ m found) [
          | inl given ↦ own g m member given
          | inr (h, id, same, source, inner) ↦
              through g h id (subst (λ x. Mem x g.members) same member) source
                (collect_sound fuel (g.id ∷ path) h inner)
        ]
  ]

  -- A group as the index has it.
  abbrev pub Known : Group → Type 0
  Known g = lookup g.id groups ≡ some g

  -- A way of `k` steps to a member that gives the node, through groups that are not on the path.
  pub data Walk (path : List ℕ) : ℕ → Group → Type 0 where
    here :
        (k : ℕ) (g : Group) (m : Member)
        → has g.id path ≡ false
        → Known g
        → Mem m g.members
        → gives pinned n m ≡ true
        → Walk path k g
    step :
        (k : ℕ) (g h : Group) (id : ℕ)
        → has g.id path ≡ false
        → Known g
        → Mem (inherited id) g.members
        → lookup id groups ≡ some h
        → Walk path k h
        → Walk path (suc k) g

  -- Where a walk ends that leaves `g` for the last time.
  pub data Left (path : List ℕ) (k : ℕ) (g : Group) : Type 0 where
    at_once : (m : Member) → Mem m g.members → gives pinned n m ≡ true → Left path k g
    onward :
        (j : ℕ) (h : Group) (id : ℕ)
        → j < k
        → Mem (inherited id) g.members
        → lookup id groups ≡ some h
        → Walk (g.id ∷ path) j h
        → Left path k g
