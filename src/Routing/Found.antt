-- ===== src/Routing/Found.antt =====
-- What the loop over the members of a group finds.
use mathlib.Core.List.{mem-cons, not-mem-nil}
use mathlib.Core.Logic.Or
use void_switch.Base.{
  ℕ, List, [], ◌∷◌, ◌++◌, Bool, true, false, not, ◌==◌, ◌||◌, ◌&&◌, any, any-append, if◌then◌else◌,
  ◌≡◌, refl, ◌∙◌, arith, inl, inr, ◌⊎◌, Bool-cases, Mem, ==_iff,
}
use void_switch.Routing.Groups.{
  Member, node, inherited, empty, Group, lookup, has, set_default, set_defaults, Collected,
  merge_found, visit_source, add_member, add_members,
}

or_true : (a b : Bool) → (a || b) ≡ true → (a ≡ true) ⊎ (b ≡ true)
or_true true b h = inl refl
or_true false b h = inr h

module _ {A : Type 0} (test : A → Bool) where
  pub any_witness : (xs : List A) → any test xs ≡ true → (x : A) × Mem x xs × (test x ≡ true)
  any_witness [] h = cc
  any_witness (x ∷ xs) h = elim (or_true (test x) _ h) [
    | inl e ↦ (x, mem-cons.1 (Or.inl refl), e)
    | inr e ↦ let (y, m, t) = any_witness xs e in (y, mem-cons.1 (Or.inr m), t)
  ]

  pub any_of_mem : (x : A) (xs : List A) → Mem x xs → test x ≡ true → any test xs ≡ true
  any_of_mem x [] m h = absurd (not-mem-nil m)
  any_of_mem x (y ∷ ys) m h =
      Or.elim (hlevel) (mem-cons.0 m) (λ e. rw (← e, h) refl)
        (λ later. rw (any_of_mem x ys later h) (or_last (test y)))
    where
      or_last : (b : Bool) → (b || true) ≡ true
      or_last true = refl
      or_last false = refl

-- Is the node among the found ones (`false`), or among the pinned (`true`)?
abbrev pub is_found : Bool → ℕ → Collected → Bool
is_found false n found = has n found.0
is_found true n found = has n found.1

abbrev pub gives : Bool → ℕ → Member → Bool
gives pinned n (node m pin) = m == n && (not pinned || pin)
gives pinned n _ = false

abbrev pub finds : Bool → ℕ → (Group → Collected) → List Group → Member → Bool
finds pinned n visit groups (inherited id) =
    is_found pinned n (visit_source visit (lookup id groups))
finds pinned n visit groups m = gives pinned n m

known : (n m : ℕ) (ns : List ℕ) → has m ns ≡ true → has n ns ≡ (has n ns || m == n)
known n m ns old = elim (Bool-cases (m == n)) [
  | inl same ↦ let here : has n ns ≡ true = rw ((==_iff m n).0 same) at old in rw here refl
  | inr other ↦ ground (arith, other)
]

has-set_default : (n m : ℕ) (ns : List ℕ) → has n (set_default m ns) ≡ (has n ns || m == n)
has-set_default n m ns = elim (Bool-cases (has m ns)) [
  | inl old ↦ rw old (known n m ns old)
  | inr new ↦ rw (new, any-append) (ground arith)
]

has-set_defaults : (n : ℕ) (ms ns : List ℕ) → has n (set_defaults ms ns) ≡ (has n ns || has n ms)
has-set_defaults n [] ns = ground arith
has-set_defaults n (m ∷ ms) ns =
    has-set_defaults n ms (set_default m ns) ∙ ground (arith, has-set_default n m ns)

is_found-merge_found :
    (pinned : Bool) (n : ℕ) (a b : Collected)
    → is_found pinned n (merge_found a b) ≡ (is_found pinned n b || is_found pinned n a)
is_found-merge_found false n a b = has-set_defaults n a.0 b.0
is_found-merge_found true n a b = any-append (λ m. m == n) b.1 a.1

is_found-pin :
    (pinned : Bool) (n m : ℕ) (pin : Bool) (nodes pins : List ℕ)
    → is_found pinned n (set_default m nodes, if pin then pins ++ m ∷ [] else pins)
      ≡ (is_found pinned n (nodes, pins) || (m == n && (not pinned || pin)))
is_found-pin false n m pin nodes pins = has-set_default n m nodes ∙ ground arith
is_found-pin true n m true nodes pins = any-append (λ m. m == n) pins (m ∷ []) ∙ ground arith
is_found-pin true n m false nodes pins = ground arith

module _ (pinned : Bool) (n : ℕ) (visit : Group → Collected) (groups : List Group) where
  is_found-add_member :
      (m : Member) (found : Collected)
      → is_found pinned n (add_member visit groups m found)
        ≡ (is_found pinned n found || finds pinned n visit groups m)
  unfolding add_member
  is_found-add_member (node m pin) found = is_found-pin pinned n m pin found.0 found.1
  is_found-add_member (inherited id) found =
      is_found-merge_found pinned n (visit_source visit (lookup id groups)) found
  is_found-add_member empty found = ground arith

  pub is_found-add_members :
      (ms : List Member) (found : Collected)
      → is_found pinned n (add_members visit groups ms found)
        ≡ (is_found pinned n found || any (finds pinned n visit groups) ms)
  unfolding add_members
  is_found-add_members [] found = ground arith
  is_found-add_members (m ∷ ms) found =
      is_found-add_members ms (add_member visit groups m found)
      ∙ ground (arith, is_found-add_member m found)
