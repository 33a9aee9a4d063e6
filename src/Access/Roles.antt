-- ===== src/Access/Roles.antt =====
-- backend/voidswitch/services/role_groups.py and backend/voidswitch/core/auth.py: the roles of a user
-- in a team and on the platform.
use void_switch.Base.{
  ℕ, ◌≡◌, refl, max, String, Option, none, some, List, [], ◌∷◌, Bool, true, false, ltb, leb,
  if◌then◌else◌, str_eq, arith, inl, inr, Bool-cases,
}
use void_switch.Access.{RoleText, Role, owner, co_owner, admin, member, Team}

-- The branches that a key without spaces, hyphens and underscores can take.
abbrev pub role_of_key : String → Option Role
role_of_key key =
    if str_eq key "coowner"
    then some co_owner
    else if str_eq key "owner"
    then some owner
    else if str_eq key "admin"
    then some admin
    else if str_eq key "member"
    then some member
    else none

-- TEAM_ROLE_RANK.get(role, 0)
abbrev pub team_rank : Option Role → ℕ
team_rank none = 0
team_rank (some owner) = 4
team_rank (some co_owner) = 3
team_rank (some admin) = 2
team_rank (some member) = 1

-- _MAIN_TEAM_ROLE_TO_VS.get(role)
abbrev pub main_team_role_to_vs : Option Role → Option Role
main_team_role_to_vs (some owner) = some owner
main_team_role_to_vs (some co_owner) = some co_owner
main_team_role_to_vs (some admin) = some admin
main_team_role_to_vs role = none

-- _ROLE_RANK.get(role, 0)
abbrev pub role_rank : Option Role → ℕ
role_rank none = 0
role_rank (some member) = 1
role_rank (some admin) = 2
role_rank (some co_owner) = 3
role_rank (some owner) = 3

abbrev pub is_owner_role : Role → Bool
is_owner_role owner = true
is_owner_role co_owner = true
is_owner_role role = false

abbrev pub is_staff_role : Role → Bool
is_staff_role member = false
is_staff_role role = true

-- user.role in STAFF_ROLES
abbrev pub is_moderator : Option Role → Bool
is_moderator none = false
is_moderator (some role) = is_staff_role role

-- _merge_role
unfoldable pub merge_role : Option Role → Role → Option Role
merge_role existing role =
    if is_owner_role role
    then some role
    else if leb (role_rank (some role)) (role_rank existing)
    then existing
    else some role

-- The stored role keeps the higher of the two ranks.
pub role_rank-merge_role :
    (existing : Option Role) (role : Role)
    → role_rank (merge_role existing role) ≡ max (role_rank existing) (role_rank (some role))
unfolding merge_role
role_rank-merge_role none owner = refl
role_rank-merge_role none co_owner = refl
role_rank-merge_role none admin = refl
role_rank-merge_role none member = refl
role_rank-merge_role (some owner) owner = refl
role_rank-merge_role (some owner) co_owner = refl
role_rank-merge_role (some owner) admin = refl
role_rank-merge_role (some owner) member = refl
role_rank-merge_role (some co_owner) owner = refl
role_rank-merge_role (some co_owner) co_owner = refl
role_rank-merge_role (some co_owner) admin = refl
role_rank-merge_role (some co_owner) member = refl
role_rank-merge_role (some admin) owner = refl
role_rank-merge_role (some admin) co_owner = refl
role_rank-merge_role (some admin) admin = refl
role_rank-merge_role (some admin) member = refl
role_rank-merge_role (some member) owner = refl
role_rank-merge_role (some member) co_owner = refl
role_rank-merge_role (some member) admin = refl
role_rank-merge_role (some member) member = refl

-- str(entry.get("id"))
abbrev pub id_text : Option String → String
id_text none = "None"
id_text (some id) = id

module _ (text : RoleText) where
  unfoldable pub normalise_team_role : Option String → Option Role
  normalise_team_role none = none
  normalise_team_role (some value) =
      if str_eq value ""
      then none
      else role_of_key
          (text.replace "_" (text.replace "-" (text.replace " " (text.lower (text.strip value)))))

  -- team_role_rank of a role as it is written
  abbrev pub team_role_rank : Option String → ℕ
  team_role_rank value = team_rank (normalise_team_role value)

  -- One round of the loop: a strictly higher rank takes over.
  abbrev pub better_role : Option Role → Option Role → Option Role
  better_role best role = if ltb (team_rank best) (team_rank role) then role else best

  unfoldable pub best_role : (team_id : String) → Option Role → List Team → Option Role
  unfolding normalise_team_role
  best_role team_id best [] = best
  best_role team_id best (team ∷ teams) =
      best_role team_id
        (if str_eq (id_text team.id) team_id
          then better_role best (normalise_team_role team.role)
          else best)
        teams

  unfoldable pub effective_team_role : List Team → (team_id : String) → Option Role
  unfolding best_role
  effective_team_role teams team_id =
      if str_eq team_id "" then none else best_role team_id none teams

  unfoldable pub resolve_main_team_role : (main_team_id : String) → List Team → Option Role
  unfolding effective_team_role
  resolve_main_team_role main_team_id teams =
      if str_eq main_team_id ""
      then none
      else main_team_role_to_vs (effective_team_role teams main_team_id)

  -- The best rank among the rows of a team.
  abbrev pub highest_rank : (team_id : String) → List Team → ℕ
  highest_rank team_id [] = 0
  highest_rank team_id (team ∷ teams) =
      let rest = highest_rank team_id teams in
      if str_eq (id_text team.id) team_id then max (team_role_rank team.role) rest else rest

  better_role_rank :
      (best role : Option Role)
      → team_rank (better_role best role) ≡ max (team_rank best) (team_rank role)
  better_role_rank best role = ground arith

  best_role_rank :
      (team_id : String) (best : Option Role) (teams : List Team)
      → team_rank (best_role team_id best teams) ≡ max (team_rank best) (highest_rank team_id teams)
  unfolding best_role
  best_role_rank team_id best [] = omega arith
  best_role_rank team_id best (team ∷ teams) =
      elim (Bool-cases (str_eq (id_text team.id) team_id)) [
        | inl e ↦
            let role = normalise_team_role team.role in
            rw e (
              omega (
                arith,
                best_role_rank team_id (better_role best role) teams,
                better_role_rank best role,
              ))
        | inr e ↦ rw e (best_role_rank team_id best teams)
      ]

  -- The rank in a team is the highest that any row for the team gives.
  pub effective_team_role_rank :
      (teams : List Team) (team_id : String)
      → team_rank (effective_team_role teams team_id)
        ≡ (if str_eq team_id "" then 0 else highest_rank team_id teams)
  unfolding effective_team_role
  effective_team_role_rank teams team_id = ground (arith, best_role_rank team_id none teams)
