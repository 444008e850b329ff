-- ===== src/Auth/Access.antt =====
-- The guards of a route: auth.Middleware, RequirePermission and RequireRole of internal/auth, and
-- ProjectACLMiddleware of internal/api/handlers, composed as internal/api/router.go does for the
-- routes of one project.
use compose_cockpit.Base.{
  String, Bool, Option, none, some, List, ◌≡◌, refl, same, contains, ◌&&◌, if◌then◌else◌, ◌⊎◌, ◌↔◌,
  ◌≢◌, arith, eq_iff,
}
use compose_cockpit.Domain.User.{Role, role_admin, role_operator, role_viewer}
use compose_cockpit.Auth.Permissions.{
  Permission, perm_project_read, perm_project_operate, has_permission, operate-has_permission,
}

-- What a guard answers: it calls the next handler, or it ends the request.
pub data Verdict : Type 0 where
  next unauthorized forbidden : Verdict

pub record Claims : Type 0 where
  pub user_id : String
  pub role : Role

-- The inner guard runs if the outer one calls it.
unfoldable pub then_guard : Verdict → Verdict → Verdict
then_guard next v = v
then_guard unauthorized v = unauthorized
then_guard forbidden v = forbidden

pub then_guard-outer : (u v : Verdict) → then_guard u v ≡ next → u ≡ next
unfolding then_guard
then_guard-outer next v h = refl
then_guard-outer unauthorized v h = h
then_guard-outer forbidden v h = h

-- `RequirePermission(perm)`
unfoldable pub require_permission : Permission → Option Claims → Verdict
require_permission perm none = unauthorized
require_permission perm (some c) = if has_permission c.role perm then next else forbidden

-- `RequireRole(roles...)`
unfoldable pub require_role : List Role → Option Claims → Verdict
require_role roles none = unauthorized
require_role roles (some c) = if contains c.role roles then next else forbidden

-- An identifier or a role that is the empty string.
unfoldable pub unset : String → Bool
unset s = same s ""

-- `ProjectACLMiddleware(aclRepo, requiredPerm)` for the project of the path; `role_in` is
-- GetUserProjectRole of the store, which gives "" where there is no entry.
unfoldable pub project_acl :
    (String → String → Role) → Permission → Option Claims → String → Verdict
unfolding unset
project_acl role_in required none project = unauthorized
project_acl role_in required (some c) project =
    if same c.role role_admin
    then next
    else if unset project
    then next
    else if unset (role_in c.user_id project)
    then forbidden
    else if same required perm_project_operate && same (role_in c.user_id project) role_viewer
    then forbidden
    else next

-- The guards before a read of a project, and before an operation on it.
unfoldable pub read_project : (String → String → Role) → Option Claims → String → Verdict
unfolding project_acl
read_project role_in claims project = project_acl role_in perm_project_read claims project

unfoldable pub operate_project : (String → String → Role) → Option Claims → String → Verdict
unfolding then_guard project_acl require_permission
operate_project role_in claims project =
    then_guard (project_acl role_in perm_project_read claims project) (
      then_guard (project_acl role_in perm_project_operate claims project)
        (require_permission perm_project_operate claims))

module _ (role_in : String → String → Role) (c : Claims) (project : String)
    (named : project ≢ "") where
  -- A read of a named project passes exactly for an administrator and for a user with a grant on it.
  pub read_project-passes :
      (read_project role_in (some c) project ≡ next)
      ↔ (c.role ≡ role_admin) ⊎ (role_in c.user_id project ≢ "")
  unfolding read_project project_acl unset
  read_project-passes =
      ground
        (arith, eq_iff c.role role_admin, eq_iff project "", eq_iff (role_in c.user_id project) "")

  -- An operation on a named project passes exactly for an administrator, and for a user whose own role
  -- is operator and whose grant on the project is any but none and viewer.
  pub operate_project-passes :
      (operate_project role_in (some c) project ≡ next)
      ↔ (c.role ≡ role_admin)
        ⊎ ((c.role ≡ role_operator)
            × (role_in c.user_id project ≢ "")
            × (role_in c.user_id project ≢ role_viewer))
  unfolding operate_project project_acl unset then_guard require_permission
  operate_project-passes = ground (
    arith,
    eq_iff c.role role_admin,
    eq_iff project "",
    eq_iff (role_in c.user_id project) "",
    eq_iff (role_in c.user_id project) role_viewer,
    operate-has_permission c.role,
  )

-- Whoever may operate a project may read it, and without claims neither passes.
operate_project-read_project :
    (role_in : String → String → Role) (claims : Option Claims) (project : String)
    → operate_project role_in claims project ≡ next
    → read_project role_in claims project ≡ next
unfolding operate_project read_project
operate_project-read_project role_in claims project h = then_guard-outer _ _ h
