-- ===== src/Access/Groups.antt =====
-- backend/voidswitch/services/role_groups.py: the groups that the team mappings grant, how a login
-- brings the stored rows in line with them, and which models a user may call.
pub mod Granted
pub mod Rows
pub mod Synced
use void_switch.Base.{
  ℕ, ◌≡◌, refl, String, Option, none, some, List, [], ◌∷◌, ◌++◌, map, Bool, true, false, ◌&&◌, ◌||◌,
  not, ltb, leb, ◌==◌, if◌then◌else◌, any, keep, find, str_eq,
}
use void_switch.Access.{RoleText, Role, Team, Mapping, RoleGroup, Source, auto, manual, other, Row}
use void_switch.Access.Roles.{team_rank, team_role_rank, effective_team_role, is_moderator}

abbrev pub in_set : ℕ → List ℕ → Bool
in_set g set = any (λ h. h == g) set

-- set.add
abbrev pub add_to : ℕ → List ℕ → List ℕ
add_to g set = if in_set g set then set else set ++ g ∷ []

unfoldable pub set_of : List ℕ → List ℕ → List ℕ
set_of set [] = set
set_of set (g ∷ gs) = set_of (add_to g set) gs

module _ (text : RoleText) (teams : List Team) where
  -- The two tests before a mapping counts.
  unfoldable pub qualifies : Mapping → Bool
  qualifies mapping =
      let user_rank = team_rank (effective_team_role text teams mapping.team_id) in
      ltb 0 user_rank && leb (team_role_rank text (some mapping.min_role)) user_rank

  -- The loop over the mappings of a group: member_hit and admin_hit.
  unfoldable pub scan_mappings : List Mapping → Bool → Bool → Bool × Bool
  scan_mappings [] member_hit admin_hit = (member_hit, admin_hit)
  scan_mappings (mapping ∷ mappings) member_hit admin_hit =
      let missed = scan_mappings mappings member_hit admin_hit in
      let as_admin = scan_mappings mappings member_hit true in
      let as_member = scan_mappings mappings true admin_hit in
      if member_hit && admin_hit
      then (member_hit, admin_hit)
      else if not (qualifies mapping)
      then missed
      else if str_eq mapping.grants "admin"
      then as_admin
      else as_member

  unfoldable pub grant_groups : List RoleGroup → List ℕ → List ℕ → List ℕ × List ℕ
  unfolding scan_mappings
  grant_groups [] granted_member granted_admin = (granted_member, granted_admin)
  grant_groups (group ∷ groups) granted_member granted_admin =
      let hits = scan_mappings group.mappings false false in
      grant_groups groups (if hits.0 then add_to group.id granted_member else granted_member)
        (if hits.1 then add_to group.id granted_admin else granted_admin)

  unfoldable pub evaluate_auto_group_ids : List RoleGroup → List ℕ × List ℕ
  unfolding grant_groups
  evaluate_auto_group_ids groups = grant_groups (keep (λ g. not g.builtin) groups) [] []

abbrev pub is_auto : Source → Bool
is_auto auto = true
is_auto source = false

abbrev pub is_manual : Source → Bool
is_manual manual = true
is_manual source = false

abbrev pub is_row : ℕ → ℕ → Row → Bool
is_row u g row = row.user_id == u && row.group_id == g

-- The source of a user's row for a group. A user has one row for a group at most (a unique
-- constraint), so this is `existing.get(gid)`.
unfoldable pub source_of : ℕ → ℕ → List Row → Option Source
source_of u g [] = none
source_of u g (row ∷ rows) =
    let rest = source_of u g rows in if is_row u g row then some row.source else rest

abbrev pub is_stale : ℕ → List ℕ → Row → Bool
is_stale u desired row =
    row.user_id == u && (is_auto row.source && not (in_set row.group_id desired))

abbrev pub set_auto : ℕ → ℕ → List Row → List Row
set_auto u g [] = []
set_auto u g (row ∷ rows) =
    let rest = set_auto u g rows in
    (if is_row u g row then record row { source = auto } else row) ∷ rest

-- The body of `for gid in desired`, with the source that the row had at first.
unfoldable pub grant_row : ℕ → ℕ → Option Source → List Row → List Row
grant_row u g none rows = rows ++ record { user_id = u; group_id = g; source = auto } ∷ []
grant_row u g (some current) rows = if is_manual current then rows else set_auto u g rows

unfoldable pub grant_rows : ℕ → List Row → List ℕ → List Row → List Row
unfolding grant_row source_of
grant_rows u existing [] rows = rows
grant_rows u existing (g ∷ gs) rows =
    grant_rows u existing gs (grant_row u g (source_of u g existing) rows)

-- sync_auto_memberships, and sync_auto_adminships with the rows of adminship.
unfoldable pub sync_auto : ℕ → List ℕ → List Row → List Row
unfolding grant_rows set_of
sync_auto u auto_group_ids rows =
    let desired = set_of [] auto_group_ids in
    grant_rows u rows desired (keep (λ row. not (is_stale u desired row)) rows)

abbrev pub user_group_ids : ℕ → List Row → List ℕ
user_group_ids u rows = map (λ row. row.group_id) (keep (λ row. row.user_id == u) rows)

-- bool(allowed & groups)
abbrev pub meets : List ℕ → List ℕ → Bool
meets groups [] = false
meets groups (g ∷ allowed) = in_set g groups || meets groups allowed

-- `entry` is the allowed_role_group_ids of the exposed model, if there is one.
abbrev pub allowed_ids : Option (List ℕ) → List ℕ
allowed_ids none = []
allowed_ids (some ids) = ids

unfoldable pub user_can_access_model : Option Role → ℕ → Option (List ℕ) → List Row → Bool
user_can_access_model role u entry rows =
    if is_moderator role then true else elim (allowed_ids entry) [
      | [] ↦ false
      | g ∷ more ↦ meets (user_group_ids u rows) (g ∷ more)
    ]

unfoldable pub model_allowed_for_groups : Option (List ℕ) → List ℕ → (is_mod : Bool) → Bool
model_allowed_for_groups entry group_ids is_mod =
    if is_mod then true else meets group_ids (allowed_ids entry)

-- The row that the moderator's slug selects.
abbrev pub moderator_group : List RoleGroup → Option RoleGroup
moderator_group groups = find (λ g. has_slug g.slug) groups
  where
    has_slug : Option String → Bool
    has_slug none = false
    has_slug (some slug) = str_eq slug "moderator"

unfoldable pub ensure_moderator_group : (new_id : ℕ) → List RoleGroup → List RoleGroup
ensure_moderator_group new_id groups = elim (moderator_group groups) [
  | some group ↦ groups
  | none ↦
      groups ++ record { id = new_id; slug = some "moderator"; builtin = true; mappings = [] } ∷ []
]

-- `entry` as above; without one, all groups of the user count.
unfoldable pub rate_limit_groups :
    Option Role → ℕ → Option (List ℕ) → List RoleGroup → List Row → List RoleGroup
rate_limit_groups role u entry groups rows =
    let mine = keep (λ g. in_set g.id (user_group_ids u rows)) groups in
    if is_moderator role
    then elim (moderator_group groups) [ none ↦ [] | some group ↦ group ∷ [] ]
    else elim entry [ none ↦ mine | some ids ↦ keep (λ g. in_set g.id ids) mine ]
