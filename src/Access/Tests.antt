-- ===== src/Access/Tests.antt =====
-- Roles, groups and logins on concrete tables, and the theorems about them at concrete inputs.
use void_switch.Base.{
  ℕ, ◌≡◌, refl, String, none, some, List, [], ◌∷◌, map, true, false, max, any, if◌then◌else◌, ◌==◌,
}
use void_switch.Base.Results.{err, ok}
use void_switch.Access.{
  RoleText, co_owner, admin, member, Team, Mapping, RoleGroup, Row, Source, auto, manual, User,
}
use void_switch.Access.Roles.{role_rank, effective_team_role, resolve_main_team_role}
use void_switch.Access.Groups.{
  qualifies, evaluate_auto_group_ids, in_set, sync_auto, source_of, rate_limit_groups,
  ensure_moderator_group,
}
use void_switch.Access.Groups.Granted.{
  gives_member, gives_admin, is_granted, evaluate_auto_group_ids_exact,
}
use void_switch.Access.Groups.Rows.{IsUnique, settled}
use void_switch.Access.Groups.Synced.{sync_auto_exact}
use void_switch.Access.Login.{LoginSettings, Identity, Database, no_access, upsert_user}
use void_switch.Access.Rights.{Entitled, upsert_user_rights, role_before, stored, role_now}

-- Texts that are lower case and hold no spaces already, but for the hyphen.
abbrev plain : RoleText
plain = record { strip = λ s. s; lower = λ s. s; replace = λ part s. s }

abbrev teams : List Team
teams =
    record { id = some "red"; role = some "member" }
    ∷ record { id = some "blue"; role = some "admin" }
    ∷ record { id = some "red"; role = some "coowner" }
    ∷ []

abbrev mapping_of : String → String → String → Mapping
mapping_of team role grants = record { team_id = team; min_role = role; grants = grants }

-- Group 1 for admins of red, group 2 for owners of blue, group 3 for observers, group 4 built in.
abbrev groups : List RoleGroup
groups =
    record {
      id = 1;
      slug = none;
      builtin = false;
      mappings = mapping_of "red" "admin" "member" ∷ [];
    }
    ∷ record {
      id = 2;
      slug = none;
      builtin = false;
      mappings = mapping_of "blue" "owner" "member" ∷ [];
    }
    ∷ record {
      id = 3;
      slug = none;
      builtin = false;
      mappings = mapping_of "blue" "member" "admin" ∷ [];
    }
    ∷ record {
      id = 4;
      slug = some "moderator";
      builtin = true;
      mappings = mapping_of "red" "member" "member" ∷ [];
    }
    ∷ []

granted : evaluate_auto_group_ids plain teams groups ≡ (1 ∷ [], 3 ∷ [])
unfolding evaluate_auto_group_ids qualifies effective_team_role
granted = refl

evaluate_auto_group_ids_exact_example :
    (in_set 1 (evaluate_auto_group_ids plain teams groups).0
      ≡ any (is_granted plain teams (gives_member plain teams) 1) groups)
    × (in_set 1 (evaluate_auto_group_ids plain teams groups).1
        ≡ any (is_granted plain teams (gives_admin plain teams) 1) groups)
evaluate_auto_group_ids_exact_example = evaluate_auto_group_ids_exact plain teams groups 1

abbrev row : ℕ → ℕ → Source → Row
row u g source = record { user_id = u; group_id = g; source = source }

abbrev rows : List Row
rows = row 7 1 manual ∷ row 7 2 auto ∷ row 8 2 auto ∷ []

synced_rows : sync_auto 7 (1 ∷ 3 ∷ 3 ∷ []) rows ≡ row 7 1 manual ∷ row 8 2 auto ∷ row 7 3 auto ∷ []
unfolding sync_auto
synced_rows = refl

rows-IsUnique : IsUnique rows
unfolding source_of
rows-IsUnique = (refl, (refl, (refl, tt)))

sync_auto_exact_example :
    IsUnique (sync_auto 7 (1 ∷ 3 ∷ []) rows)
    × (source_of 7 2 (sync_auto 7 (1 ∷ 3 ∷ []) rows) ≡ (
        if 7 == 7
        then settled (in_set 2 (1 ∷ 3 ∷ [])) (source_of 7 2 rows)
        else source_of 7 2 rows))
sync_auto_exact_example = sync_auto_exact 7 (1 ∷ 3 ∷ []) rows rows-IsUnique 7 2

abbrev settings : LoginSettings
settings = record {
  owner_subs = "root" ∷ [];
  owner_emails = [];
  bootstrap_first_user = false;
  main_team_id = "red";
}

abbrev identity_of : String → List Team → Identity
identity_of sub teams = record {
  sub = sub;
  username = none;
  email = none;
  name = none;
  picture = none;
  teams = teams;
}

-- A user whom an owner made an admin on the dashboard.
abbrev local_admin : User
local_admin = record {
  id = 7;
  sub = "seven";
  username = none;
  email = none;
  name = none;
  picture = none;
  role = some admin;
  prism_role = none;
  team_ids = [];
  enabled = true;
  last_login_at = 0;
  void_tokens_admin_disabled = false;
  tokens = [];
}

abbrev db : Database
db = record { users = local_admin ∷ []; role_groups = groups; memberships = rows; adminships = [] }

-- The local admin, with a manual membership, is refused once no mapping applies.
local_admin_refused : upsert_user plain settings 5 9 (identity_of "seven" []) db ≡ err no_access
unfolding upsert_user resolve_main_team_role qualifies
local_admin_refused = refl

abbrev identity : Identity
identity = identity_of "seven" teams

abbrev let_in : User × Database
let_in = (
  record local_admin {
    role = some co_owner;
    prism_role = some co_owner;
    team_ids = "red" ∷ "blue" ∷ "red" ∷ [];
    last_login_at = 5;
  },
  record db {
    users =
        record local_admin {
          role = some co_owner;
          prism_role = some co_owner;
          team_ids = "red" ∷ "blue" ∷ "red" ∷ [];
          last_login_at = 5;
        }
        ∷ [];
    memberships = row 7 1 manual ∷ row 8 2 auto ∷ [];
    adminships = row 7 3 auto ∷ [];
  },
)

login_runs : upsert_user plain settings 5 9 identity db ≡ ok let_in
unfolding upsert_user resolve_main_team_role qualifies
login_runs = refl

upsert_user_rights_example :
    Entitled plain settings 5 9 identity db rows-IsUnique (some (2 ∷ [])) let_in
    × (role_rank let_in.0.role
        ≡ max
            (role_rank (role_before (stored plain settings 5 9 identity db rows-IsUnique)))
            (role_rank (some (role_now plain settings 5 9 identity db rows-IsUnique))))
upsert_user_rights_example =
    upsert_user_rights plain settings 5 9 identity db rows-IsUnique (some (2 ∷ [])) let_in
      login_runs

-- The budgets of a member are those of the groups that allow the model.
member_budgets :
    map (λ g. g.id) (rate_limit_groups (some member) 7 (some (2 ∷ [])) groups rows) ≡ 2 ∷ []
unfolding rate_limit_groups
member_budgets = refl

staff_budget : map (λ g. g.id) (rate_limit_groups (some admin) 7 none groups rows) ≡ 4 ∷ []
unfolding rate_limit_groups
staff_budget = refl

seeded_once : ensure_moderator_group 9 groups ≡ groups
unfolding ensure_moderator_group
seeded_once = refl
