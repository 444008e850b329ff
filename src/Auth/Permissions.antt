-- ===== src/Auth/Permissions.antt =====
-- internal/auth/rbac.go: the permissions of each role.
use compose_cockpit.Base.{
  String, Bool, true, false, Option, none, some, List, [], ◌∷◌, ◌≡◌, contains, ◌⊎◌, ◌↔◌, arith,
  eq_iff,
}
use compose_cockpit.Base.Dict.{Dict, lookup}
use compose_cockpit.Domain.User.{Role, role_admin, role_operator, role_viewer}

-- `type Permission string`
abbrev pub Permission : Type 0
Permission = String

abbrev pub perm_project_read : Permission
perm_project_read = "project:read"

abbrev pub perm_project_operate : Permission
perm_project_operate = "project:operate"

abbrev pub perm_project_admin : Permission
perm_project_admin = "project:admin"

abbrev pub perm_user_manage : Permission
perm_user_manage = "user:manage"

abbrev pub perm_audit_read : Permission
perm_audit_read = "audit:read"

abbrev pub perm_global_events : Permission
perm_global_events = "events:global"

-- `rolePermissions`
abbrev pub role_permissions : Dict (List Permission)
role_permissions =
    (
      role_admin,
      perm_project_read ∷ perm_project_operate ∷ perm_project_admin ∷ perm_user_manage
          ∷ perm_audit_read ∷ perm_global_events ∷ [],
    )
    ∷ (role_operator, perm_project_read ∷ perm_project_operate ∷ perm_audit_read ∷ [])
    ∷ (role_viewer, perm_project_read ∷ [])
    ∷ []

granted : Option (List Permission) → Permission → Bool
granted none perm = false
granted (some perms) perm = contains perm perms

unfoldable pub has_permission : Role → Permission → Bool
unfolding granted
has_permission role perm = granted (lookup role role_permissions) perm

-- Every permission of a viewer is one of an operator, and every permission of any role, known or not,
-- is one of an administrator.
has_permission-monotone :
    (role : Role) (perm : Permission)
    → ((has_permission role_viewer perm ≡ true) → has_permission role_operator perm ≡ true)
      × ((has_permission role perm ≡ true) → has_permission role_admin perm ≡ true)
unfolding has_permission granted
has_permission-monotone role perm = ground arith

-- A role that may operate projects is the administrator or the operator.
pub operate-has_permission :
    (role : Role)
    → (has_permission role perm_project_operate ≡ true)
      ↔ (role ≡ role_admin) ⊎ (role ≡ role_operator)
unfolding has_permission granted
operate-has_permission role =
    ground (arith, eq_iff role_admin role, eq_iff role_operator role, eq_iff role_viewer role)
