-- ===== src/Domain/User.antt =====
-- internal/domain/user.go: roles, users, project grants and pagination.
use Prim.Native.String.{String}

-- `type Role string`: any text, with three constants.
abbrev pub Role : Type 0
Role = String

abbrev pub role_admin : Role
role_admin = "admin"

abbrev pub role_operator : Role
role_operator = "operator"

abbrev pub role_viewer : Role
role_viewer = "viewer"

pub record User : Type 0 where
  pub id : String
  pub username : String
  pub email : String
  pub password_hash : String
  pub role : Role

pub record ProjectAcl : Type 0 where
  pub user_id : String
  pub project_id : String
  pub role : Role
  pub granted_by : String
