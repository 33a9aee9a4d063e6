-- ===== src/Access/Groups/Rows.antt =====
-- backend/voidswitch/services/role_groups.py, sync_auto_memberships and sync_auto_adminships: what one
-- step does to the rows of a table.
use void_switch.Base.{
  ℕ, ◌≡◌, refl, ◌∙◌, Option, none, some, List, [], ◌∷◌, ◌++◌, Bool, true, false, ◌&&◌, not, ◌==◌,
  if◌then◌else◌, keep, arith, inl, inr, Bool-cases,
}
use void_switch.Access.{Source, auto, manual, other, Row}
use void_switch.Access.Groups.{in_set, is_row, is_stale, source_of, set_auto, grant_row}

-- A user has one row for a group at most, as the tables' constraint asks.
abbrev pub IsUnique : List Row → Type 0
IsUnique [] = Unit
IsUnique (row ∷ rows) = (source_of row.user_id row.group_id rows ≡ none) × IsUnique rows

-- What a row that is desired becomes.
abbrev pub granted : Option Source → Option Source
granted (some manual) = some manual
granted source = some auto

-- What a row becomes that may be desired or not.
abbrev pub settled : Bool → Option Source → Option Source
settled true source = granted source
settled false (some auto) = none
settled false source = source

abbrev pub kept : Bool → Option Source → Option Source
kept false (some auto) = none
kept desired source = source

source_of-append :
    (v h : ℕ) (rows : List Row) (row : Row)
    → source_of v h rows ≡ none
    → source_of v h (rows ++ row ∷ []) ≡ (if is_row v h row then some row.source else none)
unfolding source_of
source_of-append v h [] row e = refl
source_of-append v h (first ∷ rows) row e = ground (arith, source_of-append v h rows row)

source_of-append_other :
    (v h : ℕ) (rows : List Row) (row : Row)
    → is_row v h row ≡ false
    → source_of v h (rows ++ row ∷ []) ≡ source_of v h rows
unfolding source_of
source_of-append_other v h [] row e = ground (arith, e)
source_of-append_other v h (first ∷ rows) row e =
    ground (arith, source_of-append_other v h rows row e)

source_of-set_auto :
    (u g : ℕ) (s : Source) (rows : List Row)
    → source_of u g rows ≡ some s
    → source_of u g (set_auto u g rows) ≡ some auto
unfolding source_of
source_of-set_auto u g s [] e = cc
source_of-set_auto u g s (row ∷ rows) e = ground (arith, source_of-set_auto u g s rows)

source_of-set_auto_other :
    (u g v h : ℕ) (rows : List Row)
    → (u == v && g == h) ≡ false
    → source_of v h (set_auto u g rows) ≡ source_of v h rows
unfolding source_of
source_of-set_auto_other u g v h [] e = refl
source_of-set_auto_other u g v h (row ∷ rows) e =
    ground (arith, source_of-set_auto_other u g v h rows e)

grant_row_self :
    (u g : ℕ) (rows : List Row) (o : Option Source)
    → source_of u g rows ≡ o
    → source_of u g (grant_row u g o rows) ≡ granted o
unfolding grant_row
grant_row_self u g rows none e =
    source_of-append u g rows (record { user_id = u; group_id = g; source = auto }) e ∙ ground arith
grant_row_self u g rows (some manual) e = e
grant_row_self u g rows (some auto) e = source_of-set_auto u g auto rows e
grant_row_self u g rows (some (other s)) e = source_of-set_auto u g (other s) rows e

pub grant_row_other :
    (u g v h : ℕ) (rows : List Row) (o : Option Source)
    → (u == v && g == h) ≡ false
    → source_of v h (grant_row u g o rows) ≡ source_of v h rows
unfolding grant_row
grant_row_other u g v h rows none e = source_of-append_other v h rows _ e
grant_row_other u g v h rows (some manual) e = refl
grant_row_other u g v h rows (some auto) e = source_of-set_auto_other u g v h rows e
grant_row_other u g v h rows (some (other s)) e = source_of-set_auto_other u g v h rows e

same_place :
    (u g v h : ℕ) (rows : List Row)
    → (u == v && g == h) ≡ true
    → source_of u g rows ≡ source_of v h rows
same_place u g v h rows e =
    let users : u ≡ v = ground arith in let groups : g ≡ h = ground arith in rw (users, groups) refl

pub grant_row_lem :
    (u g v h : ℕ) (rows : List Row)
    → source_of v h (grant_row u g (source_of u g rows) rows)
      ≡ (if u == v && g == h then granted (source_of v h rows) else source_of v h rows)
grant_row_lem u g v h rows = elim (Bool-cases (u == v && g == h)) [
  | inl e ↦
      rw
        (
          e,
          ← same_place u g v h rows e,
          ← same_place u g v h (grant_row u g (source_of u g rows) rows) e,
        )
        (grant_row_self u g rows (source_of u g rows) refl)
  | inr e ↦ rw e (grant_row_other u g v h rows _ e)
]

pub source_of-keep :
    (u v g : ℕ) (desired : List ℕ) (rows : List Row)
    → IsUnique rows
    → source_of v g (keep (λ row. not (is_stale u desired row)) rows)
      ≡ (if u == v then kept (in_set g desired) (source_of v g rows) else source_of v g rows)
unfolding source_of
source_of-keep u v g desired [] q = ground arith
source_of-keep u v g desired (row ∷ rows) q = elim (Bool-cases (is_row v g row)) [
  | inl e ↦ rw e (
      ground (
        arith,
        source_of-keep u v g desired rows q.1,
        same_place row.user_id row.group_id v g rows e,
      ))
  | inr e ↦ rw e (ground (arith, source_of-keep u v g desired rows q.1))
]

none-keep :
    (test : Row → Bool) (v h : ℕ) (rows : List Row)
    → source_of v h rows ≡ none
    → source_of v h (keep test rows) ≡ none
unfolding source_of
none-keep test v h [] e = refl
none-keep test v h (row ∷ rows) e = ground (arith, none-keep test v h rows)

pub keep-IsUnique :
    (test : Row → Bool) (rows : List Row) → IsUnique rows → IsUnique (keep test rows)
keep-IsUnique test [] q = tt
keep-IsUnique test (row ∷ rows) q = elim (Bool-cases (test row)) [
  | inl e ↦ rw e (none-keep test row.user_id row.group_id rows q.0, keep-IsUnique test rows q.1)
  | inr e ↦ rw e (keep-IsUnique test rows q.1)
]

append-IsUnique :
    (rows : List Row) (row : Row)
    → IsUnique rows
    → source_of row.user_id row.group_id rows ≡ none
    → IsUnique (rows ++ row ∷ [])
unfolding source_of
append-IsUnique [] row q e = (refl, tt)
append-IsUnique (first ∷ rows) row q e = (
  source_of-append first.user_id first.group_id rows row q.0 ∙ ground arith,
  append-IsUnique rows row q.1 (ground arith),
)

none-set_auto :
    (u g v h : ℕ) (rows : List Row)
    → source_of v h rows ≡ none
    → source_of v h (set_auto u g rows) ≡ none
unfolding source_of
none-set_auto u g v h [] e = refl
none-set_auto u g v h (row ∷ rows) e = ground (arith, none-set_auto u g v h rows)

set_auto-IsUnique : (u g : ℕ) (rows : List Row) → IsUnique rows → IsUnique (set_auto u g rows)
set_auto-IsUnique u g [] q = tt
set_auto-IsUnique u g (row ∷ rows) q = elim (Bool-cases (is_row u g row)) [
  | inl e ↦
      rw e (none-set_auto u g row.user_id row.group_id rows q.0, set_auto-IsUnique u g rows q.1)
  | inr e ↦
      rw e (none-set_auto u g row.user_id row.group_id rows q.0, set_auto-IsUnique u g rows q.1)
]

pub grant_row-IsUnique :
    (u g : ℕ) (rows : List Row) (o : Option Source)
    → source_of u g rows ≡ o
    → IsUnique rows
    → IsUnique (grant_row u g o rows)
unfolding grant_row
grant_row-IsUnique u g rows none e q =
    append-IsUnique rows (record { user_id = u; group_id = g; source = auto }) q e
grant_row-IsUnique u g rows (some manual) e q = q
grant_row-IsUnique u g rows (some auto) e q = set_auto-IsUnique u g rows q
grant_row-IsUnique u g rows (some (other s)) e q = set_auto-IsUnique u g rows q
