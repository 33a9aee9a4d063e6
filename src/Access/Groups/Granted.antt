-- ===== src/Access/Groups/Granted.antt =====
-- backend/voidswitch/services/role_groups.py, evaluate_auto_group_ids: exactly which groups the
-- mappings grant.
use void_switch.Base.{
  ℕ, ◌≡◌, refl, ◌∙◌, ap, List, [], ◌∷◌, Bool, true, false, ◌&&◌, ◌||◌, not, ◌==◌, if◌then◌else◌,
  any, any-append, keep, str_eq, arith, inl, inr, Bool-cases, ==_iff,
}
use void_switch.Access.{RoleText, Team, Mapping, RoleGroup}
use void_switch.Access.Groups.{
  in_set, add_to, qualifies, scan_mappings, grant_groups, evaluate_auto_group_ids,
}

in_set_seen :
    (g h : ℕ) (set : List ℕ) → in_set g set ≡ true → in_set h set ≡ (in_set h set || g == h)
in_set_seen g h set e = elim (Bool-cases (g == h)) [
  | inl same ↦ let equal : g ≡ h = (==_iff g h).0 same in rw (same, ← equal, e) refl
  | inr differ ↦ rw differ (ground arith)
]

pub in_set-add_to : (g h : ℕ) (set : List ℕ) → in_set h (add_to g set) ≡ (in_set h set || g == h)
in_set-add_to g h set = elim (Bool-cases (in_set g set)) [
  | inl e ↦ rw e (in_set_seen g h set e)
  | inr e ↦ rw (e, any-append (λ k. k == h) set (g ∷ [])) (ground arith)
]

in_set_add_if :
    (b : Bool) (g h : ℕ) (set : List ℕ)
    → in_set h (if b then add_to g set else set) ≡ (in_set h set || (g == h && b))
in_set_add_if true g h set = rw (in_set-add_to g h set) (ground arith)
in_set_add_if false g h set = ground arith

or_assoc : (a b c : Bool) → ((a || b) || c) ≡ (a || (b || c))
or_assoc a b c = ground arith

any-keep_and {ℓ} :
    {A : Type ℓ} (p test : A → Bool) (xs : List A)
    → any test (keep p xs) ≡ any (λ x. p x && test x) xs
any-keep_and p test [] = refl
any-keep_and p test (x ∷ xs) = ground (arith, any-keep_and p test xs)

module _ (text : RoleText) (teams : List Team) where
  -- What a mapping is for: `admin`, or else membership.
  abbrev pub gives_admin : Mapping → Bool
  gives_admin mapping = qualifies text teams mapping && str_eq mapping.grants "admin"

  abbrev pub gives_member : Mapping → Bool
  gives_member mapping = qualifies text teams mapping && not (str_eq mapping.grants "admin")

  scan_mappings_lem :
      (mappings : List Mapping) (member_hit admin_hit : Bool)
      → scan_mappings text teams mappings member_hit admin_hit
        ≡ (member_hit || any gives_member mappings, admin_hit || any gives_admin mappings)
  unfolding scan_mappings
  scan_mappings_lem [] member_hit admin_hit = ground arith
  scan_mappings_lem (mapping ∷ mappings) member_hit admin_hit = ground (
    arith,
    scan_mappings_lem mappings member_hit admin_hit,
    scan_mappings_lem mappings member_hit true,
    scan_mappings_lem mappings true admin_hit,
  )

  abbrev hits : (Mapping → Bool) → ℕ → RoleGroup → Bool
  hits gives g group = group.id == g && any gives group.mappings

  grant_groups-cons :
      (group : RoleGroup) (groups : List RoleGroup) (m a : List ℕ)
      → grant_groups text teams (group ∷ groups) m a
        ≡ grant_groups text teams groups
            (if any gives_member group.mappings then add_to group.id m else m)
            (if any gives_admin group.mappings then add_to group.id a else a)
  unfolding grant_groups
  grant_groups-cons group groups m a =
      ap
        (λ hit.
          grant_groups text teams groups (if hit.0 then add_to group.id m else m)
            (if hit.1 then add_to group.id a else a))
        (scan_mappings_lem group.mappings false false)

  grant_groups_lem :
      (groups : List RoleGroup) (g : ℕ) (m a : List ℕ)
      → (in_set g (grant_groups text teams groups m a).0
          ≡ (in_set g m || any (hits gives_member g) groups))
        × (in_set g (grant_groups text teams groups m a).1
            ≡ (in_set g a || any (hits gives_admin g) groups))
  unfolding grant_groups
  grant_groups_lem [] g m a = ground arith
  grant_groups_lem (group ∷ groups) g m a =
      let more =
        grant_groups_lem groups g (if any gives_member group.mappings then add_to group.id m else m)
          (if any gives_admin group.mappings then add_to group.id a else a) in
      rw (grant_groups-cons group groups m a) (
        more.0
            ∙ rw (in_set_add_if (any gives_member group.mappings) group.id g m)
                (or_assoc (in_set g m) _ _),
        more.1
            ∙ rw (in_set_add_if (any gives_admin group.mappings) group.id g a)
                (or_assoc (in_set g a) _ _),
      )

  abbrev pub is_granted : (Mapping → Bool) → ℕ → RoleGroup → Bool
  is_granted gives g group = not group.builtin && (group.id == g && any gives group.mappings)

  -- A login is granted membership of exactly the groups that are not built in and have a mapping
  -- for members that the user's best role in its team meets, and adminship of those with such a
  -- mapping for admins; one never brings the other with it.
  pub evaluate_auto_group_ids_exact :
      (groups : List RoleGroup) (g : ℕ)
      → (in_set g (evaluate_auto_group_ids text teams groups).0
          ≡ any (is_granted gives_member g) groups)
        × (in_set g (evaluate_auto_group_ids text teams groups).1
            ≡ any (is_granted gives_admin g) groups)
  unfolding evaluate_auto_group_ids
  evaluate_auto_group_ids_exact groups g =
      let granted = grant_groups_lem (keep (λ group. not group.builtin) groups) g [] [] in
      (granted.0 ∙ any-keep_and _ _ groups, granted.1 ∙ any-keep_and _ _ groups)
