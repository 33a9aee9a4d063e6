-- ===== src/Access/Groups/Synced.antt =====
-- backend/voidswitch/services/role_groups.py, sync_auto_memberships and sync_auto_adminships: what a
-- login leaves in the tables.
use void_switch.Base.{
  ℕ, ◌≡◌, refl, ◌∙◌, Option, none, some, List, [], ◌∷◌, ◌++◌, Bool, true, false, ◌&&◌, ◌||◌, not,
  ◌==◌, if◌then◌else◌, any-append, keep, arith, inl, inr, Bool-cases,
}
use void_switch.Access.{Source, auto, manual, other, Row}
use void_switch.Access.Groups.Granted.{in_set-add_to}
use void_switch.Access.Groups.Rows.{
  IsUnique, granted, settled, kept, grant_row_other, grant_row_lem, source_of-keep, keep-IsUnique,
  grant_row-IsUnique,
}
use void_switch.Access.Groups.{
  in_set, add_to, set_of, is_stale, source_of, grant_row, grant_rows, sync_auto,
}

abbrev IsDistinct : List ℕ → Type 0
IsDistinct [] = Unit
IsDistinct (g ∷ gs) = (in_set g gs ≡ false) × IsDistinct gs

-- What the loop over the desired groups needs: their rows are still those read at first.
abbrev Agrees : ℕ → List Row → List ℕ → List Row → Type 0
Agrees u existing [] rows = Unit
Agrees u existing (g ∷ gs) rows =
    (source_of u g rows ≡ source_of u g existing) × Agrees u existing gs rows

Agrees-grant_row :
    (u g : ℕ) (o : Option Source) (existing : List Row) (gs : List ℕ) (rows : List Row)
    → in_set g gs ≡ false
    → Agrees u existing gs rows
    → Agrees u existing gs (grant_row u g o rows)
Agrees-grant_row u g o existing [] rows h a = tt
Agrees-grant_row u g o existing (k ∷ gs) rows h a = (
  grant_row_other u g u k rows o (ground arith) ∙ a.0,
  Agrees-grant_row u g o existing gs rows (ground arith) a.1,
)

grant_rows-IsUnique :
    (u : ℕ) (existing : List Row) (gs : List ℕ) (rows : List Row)
    → IsDistinct gs
    → Agrees u existing gs rows
    → IsUnique rows
    → IsUnique (grant_rows u existing gs rows)
unfolding grant_rows
grant_rows-IsUnique u existing [] rows d a q = q
grant_rows-IsUnique u existing (g ∷ gs) rows d a q =
    grant_rows-IsUnique u existing gs (grant_row u g (source_of u g existing) rows) d.1
      (Agrees-grant_row u g _ existing gs rows d.0 a.1) (grant_row-IsUnique u g rows _ a.0 q)

granted_once :
    (b c d : Bool) (o : Option Source)
    → (if b && d
        then granted (if b && c then granted o else o)
        else (if b && c then granted o else o))
      ≡ (if b && (c || d) then granted o else o)
granted_once false c d o = refl
granted_once true false d o = refl
granted_once true true false o = refl
granted_once true true true none = refl
granted_once true true true (some auto) = refl
granted_once true true true (some manual) = refl
granted_once true true true (some (other s)) = refl

grant_rows_lem :
    (u v h : ℕ) (existing : List Row) (gs : List ℕ) (rows : List Row)
    → IsDistinct gs
    → Agrees u existing gs rows
    → source_of v h (grant_rows u existing gs rows)
      ≡ (if u == v && in_set h gs then granted (source_of v h rows) else source_of v h rows)
unfolding grant_rows
grant_rows_lem u v h existing [] rows d a = ground arith
grant_rows_lem u v h existing (g ∷ gs) rows d a = rw (← a.0) (
    grant_rows_lem u v h existing gs (grant_row u g (source_of u g rows) rows) d.1
      (Agrees-grant_row u g _ existing gs rows d.0 a.1)
    ∙ rw (grant_row_lem u g v h rows) (granted_once (u == v) (g == h) (in_set h gs) _))

add_to-IsDistinct : (g : ℕ) (set : List ℕ) → IsDistinct set → IsDistinct (add_to g set)
add_to-IsDistinct g set d = elim (Bool-cases (in_set g set)) [
  | inl e ↦ rw e d
  | inr e ↦ rw e (last set d e)
]
  where
    last : (gs : List ℕ) → IsDistinct gs → in_set g gs ≡ false → IsDistinct (gs ++ g ∷ [])
    last [] d e = (refl, tt)
    last (k ∷ gs) d e =
        (any-append (λ h. h == k) gs (g ∷ []) ∙ ground (arith, d.0), last gs d.1 (ground arith))

set_of-IsDistinct : (set gs : List ℕ) → IsDistinct set → IsDistinct (set_of set gs)
unfolding set_of
set_of-IsDistinct set [] d = d
set_of-IsDistinct set (g ∷ gs) d = set_of-IsDistinct (add_to g set) gs (add_to-IsDistinct g set d)

in_set-set_of : (h : ℕ) (set gs : List ℕ) → in_set h (set_of set gs) ≡ (in_set h set || in_set h gs)
unfolding set_of
in_set-set_of h set [] = ground arith
in_set-set_of h set (g ∷ gs) =
    in_set-set_of h (add_to g set) gs ∙ rw (in_set-add_to g h set) (ground arith)

module _ (u : ℕ) (ids : List ℕ) (rows : List Row) (unique : IsUnique rows) where
  abbrev desired : List ℕ
  desired = set_of [] ids

  abbrev left : List Row
  left = keep (λ row. not (is_stale u desired row)) rows

  left-Agrees :
      (gs : List ℕ)
      → ((g : ℕ) → in_set g gs ≡ true → in_set g desired ≡ true)
      → Agrees u rows gs left
  left-Agrees [] f = tt
  left-Agrees (g ∷ gs) f = (
    source_of-keep u u g desired rows unique ∙ ground (arith, f g),
    left-Agrees gs (λ k h. f k (ground arith)),
  )

  all-Agrees : Agrees u rows desired left
  all-Agrees = left-Agrees desired (λ g h. h)

  pub sync_auto-IsUnique : IsUnique (sync_auto u ids rows)
  unfolding sync_auto
  sync_auto-IsUnique =
      grant_rows-IsUnique u rows desired left (set_of-IsDistinct [] ids tt) all-Agrees
        (keep-IsUnique _ rows unique)

  settled_lem :
      (b d : Bool) (o : Option Source)
      → (if b && d then granted (if b then kept d o else o) else (if b then kept d o else o))
        ≡ (if b then settled d o else o)
  settled_lem false d o = refl
  settled_lem true true o = refl
  settled_lem true false none = refl
  settled_lem true false (some auto) = refl
  settled_lem true false (some manual) = refl
  settled_lem true false (some (other s)) = refl

  -- In tables with one row at most for a user and a group, a login leaves it so. It gives the user an
  -- automatic row for each granted group without one, takes away the automatic rows of all others,
  -- and leaves manual rows, and the rows of other users, as they are.
  pub sync_auto_exact :
      (v g : ℕ)
      → IsUnique (sync_auto u ids rows)
        × (source_of v g (sync_auto u ids rows)
            ≡ (if u == v then settled (in_set g ids) (source_of v g rows) else source_of v g rows))
  unfolding sync_auto
  sync_auto_exact v g = (
    sync_auto-IsUnique,
    grant_rows_lem u v g rows desired left (set_of-IsDistinct [] ids tt) all-Agrees
        ∙ rw (source_of-keep u v g desired rows unique, in_set-set_of g [] ids)
            (settled_lem (u == v) (in_set g ids) (source_of v g rows)),
  )
