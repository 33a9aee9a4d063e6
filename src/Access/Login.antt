-- ===== src/Access/Login.antt =====
-- backend/voidswitch/core/auth.py, upsert_user: what a login makes of an identity of Prism and its teams.
-- `now` and `new_id` are the clock and the key that the database gives a new user.
use void_switch.Base.{
  ℕ, String, Option, none, some, List, [], ◌∷◌, ◌++◌, map, Bool, true, false, ◌&&◌, ◌||◌, not,
  if◌then◌else◌, any, find, str_eq, is_some,
}
use void_switch.Base.Results.{Result, err, ok}
use void_switch.Access.{RoleText, Role, owner, member, Team, RoleGroup, Row, VoidToken, User}
use void_switch.Access.Roles.{
  effective_team_role, resolve_main_team_role, merge_role, is_staff_role,
}
use void_switch.Access.Groups.{evaluate_auto_group_ids, sync_auto}

pub record LoginSettings : Type 0 where
  pub owner_subs : List String
  pub owner_emails : List String
  pub bootstrap_first_user : Bool
  pub main_team_id : String

pub record Identity : Type 0 where
  pub sub : String
  pub username : Option String
  pub email : Option String
  pub name : Option String
  pub picture : Option String
  pub teams : List Team

pub record Database : Type 0 where
  pub users : List User
  pub role_groups : List RoleGroup
  pub memberships : List Row
  pub adminships : List Row

pub data LoginDenied : Type 0 where
  no_access : LoginDenied

abbrev pub holds : List String → String → Bool
holds texts text = any (λ t. str_eq t text) texts

-- identity.email and identity.email in owner_emails
abbrev pub holds_email : List String → Option String → Bool
holds_email emails none = false
holds_email emails (some email) = not (str_eq email "") && holds emails email

abbrev pub is_empty_set {ℓ} : {A : Type ℓ} → List A → Bool
is_empty_set [] = true
is_empty_set (x ∷ xs) = false

-- new or old
abbrev pub or_old : Option String → Option String → Option String
or_old none old = old
or_old (some text) old = if str_eq text "" then old else some text

abbrev pub ids_of : List Team → List String
ids_of [] = []
ids_of (team ∷ teams) =
    let rest = ids_of teams in elim team.id [ none ↦ rest | some id ↦ id ∷ rest ]

-- restore_auto_disabled_tokens
abbrev pub restore_token : VoidToken → VoidToken
restore_token token =
    if not token.deleted && token.auto_disabled
    then record token { enabled = true; auto_disabled = false }
    else token

unfoldable pub restore_tokens : User → User
restore_tokens user =
    if not user.enabled || not user.void_tokens_admin_disabled
    then user
    else record user { tokens = map restore_token user.tokens; void_tokens_admin_disabled = false }

-- A row of `users` with the key of `user` becomes `user`.
abbrev pub put_user : User → List User → List User
put_user user users = map (λ old. if str_eq old.sub user.sub then user else old) users

module _ (text : RoleText) (settings : LoginSettings) where
  -- _resolve_role
  unfoldable pub resolve_role : Identity → (is_first_user : Bool) → Role
  resolve_role identity is_first_user =
      if holds settings.owner_subs identity.sub
      then owner
      else if holds_email settings.owner_emails identity.email
      then owner
      else elim (resolve_main_team_role text settings.main_team_id identity.teams) [
        | some role ↦ role
        | none ↦ if is_first_user && settings.bootstrap_first_user then owner else member
      ]

  abbrev pub is_explicit : Identity → (is_first_user : Bool) → Bool
  is_explicit identity is_first_user =
      holds settings.owner_subs identity.sub
      || (holds_email settings.owner_emails identity.email
          || (is_first_user && settings.bootstrap_first_user))

  module _ (now new_id : ℕ) (identity : Identity) where
    unfoldable pub new_user : Role → User
    new_user role = record {
      id = new_id;
      sub = identity.sub;
      username = identity.username;
      email = identity.email;
      name = identity.name;
      picture = identity.picture;
      role = some role;
      prism_role = effective_team_role text identity.teams settings.main_team_id;
      team_ids = ids_of identity.teams;
      enabled = true;
      last_login_at = now;
      void_tokens_admin_disabled = false;
      tokens = [];
    }

    unfoldable pub updated_user : User → Role → User
    unfolding merge_role
    updated_user existing role = record existing {
      username = or_old identity.username existing.username;
      email = or_old identity.email existing.email;
      name = or_old identity.name existing.name;
      picture = or_old identity.picture existing.picture;
      prism_role = effective_team_role text identity.teams settings.main_team_id;
      team_ids = ids_of identity.teams;
      last_login_at = now;
      role = merge_role existing.role role;
    }

    -- The part after the rows of the user are written.
    unfoldable pub synced : User → List ℕ × List ℕ → List User → Database → User × Database
    unfolding restore_tokens sync_auto
    synced user granted users db = (
      restore_tokens user,
      record db {
        users = put_user (restore_tokens user) users;
        memberships = sync_auto user.id granted.0 db.memberships;
        adminships = sync_auto user.id granted.1 db.adminships;
      },
    )

    abbrev pub stored_user : Option User → Role → User
    stored_user none role = new_user role
    stored_user (some existing) role = updated_user existing role

    abbrev pub stored_users : Option User → User → List User → List User
    stored_users none user users = users ++ user ∷ []
    stored_users (some existing) user users = users

    unfoldable pub upsert_user : Database → Result LoginDenied (User × Database)
    unfolding resolve_role synced new_user updated_user evaluate_auto_group_ids
    upsert_user db =
        let existing = find (λ user. str_eq user.sub identity.sub) db.users in
        let is_first_user = is_empty_set db.users && not (is_some existing) in
        let role = resolve_role identity is_first_user in
        let granted = evaluate_auto_group_ids text identity.teams db.role_groups in
        let user = stored_user existing role in
        if not (is_staff_role role)
          && (not (is_explicit identity is_first_user)
              && (is_empty_set granted.0 && is_empty_set granted.1))
        then err no_access
        else ok (synced user granted (stored_users existing user db.users) db)
