-- ===== src/Access.antt =====
-- backend/voidswitch/constants.py, backend/voidswitch/models/db.py: the roles of a user and the
-- tables of role groups. Access/Roles, Groups and Login are the operations on them. Python's `str`
-- methods are the fields of `RoleText`; an identifier is compared as the text that `str` makes of it.
pub mod Roles
pub mod Groups
pub mod Login
pub mod Rights
mod Tests
use void_switch.Base.{ℕ, String, Option, none, some, List, [], ◌∷◌, Bool, true, false}

-- text.strip(), text.lower() and text.replace(part, "")
pub record RoleText : Type 0 where
  pub strip : String → String
  pub lower : String → String
  pub replace : (part text : String) → String

-- The roles of the platform and those of a team have the same names.
pub data Role : Type 0 where
  owner co_owner admin member : Role

-- A team of Prism as its dict has it: `id` (as `str` writes it) and `role`.
pub record Team : Type 0 where
  pub id : Option String
  pub role : Option String

pub record Mapping : Type 0 where
  pub team_id : String
  pub min_role : String
  pub grants : String

pub record RoleGroup : Type 0 where
  pub id : ℕ
  pub slug : Option String
  pub builtin : Bool
  pub mappings : List Mapping

pub data Source : Type 0 where
  auto manual : Source
  other : String → Source

-- A row of role_group_memberships or of role_group_adminships.
pub record Row : Type 0 where
  pub user_id : ℕ
  pub group_id : ℕ
  pub source : Source

pub record VoidToken : Type 0 where
  pub enabled : Bool
  pub deleted : Bool
  pub auto_disabled : Bool

-- A stored role that is none of the four is none.
pub record User : Type 0 where
  pub id : ℕ
  pub sub : String
  pub username : Option String
  pub email : Option String
  pub name : Option String
  pub picture : Option String
  pub role : Option Role
  pub prism_role : Option Role
  pub team_ids : List String
  pub enabled : Bool
  pub last_login_at : ℕ
  pub void_tokens_admin_disabled : Bool
  pub tokens : List VoidToken
