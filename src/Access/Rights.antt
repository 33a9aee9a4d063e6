-- ===== src/Access/Rights.antt =====
-- backend/voidswitch/core/auth.py and backend/voidswitch/services/role_groups.py: what a user may do
-- after a login.
use void_switch.Base.{
  ℕ, ◌≡◌, refl, ap, ◌∙◌, max, Option, none, some, List, [], ◌∷◌, Bool, true, false, ◌&&◌, ◌||◌, not,
  ◌==◌, if◌then◌else◌, any, find, str_eq, is_some, arith, inl, inr, Bool-cases,
}
use void_switch.Base.Results.{err, ok}
use void_switch.Access.{RoleText, Role, Row, Source, User}
use void_switch.Access.Roles.{role_rank, is_moderator, role_rank-merge_role}
use void_switch.Access.Groups.{
  in_set, source_of, user_group_ids, meets, allowed_ids, user_can_access_model,
  model_allowed_for_groups, evaluate_auto_group_ids, sync_auto,
}
use void_switch.Access.Groups.Granted.{gives_member, is_granted, evaluate_auto_group_ids_exact}
use void_switch.Access.Groups.Rows.{IsUnique, settled}
use void_switch.Access.Groups.Synced.{sync_auto_exact}
use void_switch.Access.Login.{
  LoginSettings, Identity, Database, no_access, is_empty_set, resolve_role, restore_tokens,
  stored_user, stored_users, synced, upsert_user, new_user, updated_user,
}

-- The two checks of a call agree.
pub user_can_access_model_lem :
    (role : Option Role) (u : ℕ) (entry : Option (List ℕ)) (rows : List Row)
    → user_can_access_model role u entry rows
      ≡ model_allowed_for_groups entry (user_group_ids u rows) (is_moderator role)
unfolding user_can_access_model model_allowed_for_groups
user_can_access_model_lem role u none rows = refl
user_can_access_model_lem role u (some []) rows = refl
user_can_access_model_lem role u (some (g ∷ ids)) rows = refl

in_set-user_group_ids :
    (u g : ℕ) (rows : List Row) → in_set g (user_group_ids u rows) ≡ is_some (source_of u g rows)
unfolding source_of
in_set-user_group_ids u g [] = refl
in_set-user_group_ids u g (row ∷ rows) = elim (Bool-cases (row.user_id == u)) [
  | inl e ↦ rw e (ground (arith, in_set-user_group_ids u g rows))
  | inr e ↦ rw e (in_set-user_group_ids u g rows)
]

meets-user_group_ids :
    (u : ℕ) (rows : List Row) (ids : List ℕ)
    → meets (user_group_ids u rows) ids ≡ any (λ g. is_some (source_of u g rows)) ids
meets-user_group_ids u rows [] = refl
meets-user_group_ids u rows (g ∷ ids) =
    rw (in_set-user_group_ids u g rows, meets-user_group_ids u rows ids) refl

restore_tokens_lem :
    (user : User) → ((restore_tokens user).id ≡ user.id) × ((restore_tokens user).role ≡ user.role)
unfolding restore_tokens
restore_tokens_lem user = ground arith

any_same : (p q : ℕ → Bool) (ids : List ℕ) → ((g : ℕ) → p g ≡ q g) → any p ids ≡ any q ids
any_same p q [] h = refl
any_same p q (g ∷ ids) h = rw (h g, any_same p q ids h) refl

access_any :
    (role : Option Role) (u : ℕ) (entry : Option (List ℕ)) (rows : List Row)
    → user_can_access_model role u entry rows
      ≡ (is_moderator role || any (λ g. is_some (source_of u g rows)) (allowed_ids entry))
unfolding model_allowed_for_groups
access_any role u entry rows =
    user_can_access_model_lem role u entry rows
    ∙ rw (meets-user_group_ids u rows (allowed_ids entry)) (ground arith)

if-ok :
    {E A : Type 0} (b : Bool) (e : E) (a : A) {out : A}
    → (if b then err e else ok a) ≡ ok out
    → a ≡ out
if-ok true e a h = cc
if-ok false e a h = cc

abbrev pub role_before : Option User → Option Role
role_before none = none
role_before (some user) = user.role

module _ (text : RoleText) (settings : LoginSettings) (now new_id : ℕ) (identity : Identity)
    (db : Database) (unique : IsUnique db.memberships) where
  abbrev pub granted_now : List ℕ × List ℕ
  granted_now = evaluate_auto_group_ids text identity.teams db.role_groups

  -- The row of a user for a group after a login, from the row before.
  abbrev pub row_after : ℕ → ℕ → Option Source
  row_after u g =
      settled
        (any (is_granted text identity.teams (gives_member text identity.teams) g) db.role_groups)
        (source_of u g db.memberships)

  row_after_lem :
      (u g : ℕ) → source_of u g (sync_auto u granted_now.0 db.memberships) ≡ row_after u g
  row_after_lem u g =
      (sync_auto_exact u granted_now.0 db.memberships unique u g).1
      ∙ rw ((evaluate_auto_group_ids_exact text identity.teams db.role_groups g).0) (ground arith)

  abbrev pub Entitled : Option (List ℕ) → User × Database → Type 0
  Entitled entry out =
      user_can_access_model out.0.role out.0.id entry out.1.memberships
      ≡ (is_moderator out.0.role || any (λ g. is_some (row_after out.0.id g)) (allowed_ids entry))

  synced_access :
      (user : User) (users : List User) (entry : Option (List ℕ))
      → Entitled entry (synced text settings now new_id identity user granted_now users db)
  unfolding synced
  synced_access user users entry =
      let same = restore_tokens_lem user in
      rw same.0 (
        access_any (restore_tokens user).role user.id entry
          (sync_auto user.id granted_now.0 db.memberships)
        ∙ ap (λ b. is_moderator (restore_tokens user).role || b)
            (any_same _ _ (allowed_ids entry) (λ g. ap is_some (row_after_lem user.id g))))

  abbrev pub stored : Option User
  stored = find (λ user. str_eq user.sub identity.sub) db.users

  abbrev pub is_first : Bool
  is_first = is_empty_set db.users && not (is_some stored)

  -- The role that this login alone would give.
  abbrev pub role_now : Role
  role_now = resolve_role text settings identity is_first

  stored_user_role :
      (existing : Option User)
      → role_rank (stored_user text settings now new_id identity existing role_now).role
        ≡ max (role_rank (role_before existing)) (role_rank (some role_now))
  unfolding new_user updated_user
  stored_user_role none = omega arith
  stored_user_role (some user) = role_rank-merge_role user.role role_now

  -- In tables with one row at most for a user and a group, a user who is let in may call a model
  -- exactly if the user is staff, or has, for a group that the model allows, a row that this login
  -- grants, or one from before that is not automatic; and the user's rank is the higher one of the
  -- stored role and of the role that the login gives.
  pub upsert_user_rights :
      (entry : Option (List ℕ)) (out : User × Database)
      → upsert_user text settings now new_id identity db ≡ ok out
      → Entitled entry out
        × (role_rank out.0.role ≡ max (role_rank (role_before stored)) (role_rank (some role_now)))
  unfolding upsert_user
  upsert_user_rights entry out h =
      let user = stored_user text settings now new_id identity stored role_now in
      let same = if-ok _ no_access _ h in
      rw (← same) (
        synced_access user (stored_users text settings now new_id identity stored user db.users)
            entry,
        ap role_rank (restore_tokens_lem user).1 ∙ stored_user_role stored,
      )
