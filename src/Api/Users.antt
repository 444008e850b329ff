-- ===== src/Api/Users.antt =====
-- The handlers of internal/api/handlers/user_handler.go and acl_handler.go.
use compose_cockpit.Base.{
  ℕ, List, String, Bool, true, false, ◌||◌, Option, none, some, same, if◌then◌else◌,
}
use compose_cockpit.Domain.Errors.{Code, text, no_details}
use compose_cockpit.Base.Results.{Result, ok, err}
use compose_cockpit.Api.Pages.{PaginationOpts, parse_pagination}
use compose_cockpit.Api.AuditLists.{Paginated}
use compose_cockpit.Domain.User.{User, ProjectAcl, Role, role_operator, role_viewer}
use compose_cockpit.Auth.Access.{Claims}
use compose_cockpit.Api.Reply.{Reply, success, failure}
use compose_cockpit.Api.Accounts.{
  UserRepository, AclRepository, bad_request, internal_error, new_user, created,
}

-- The bodies of Create, Update and Grant; a field that is absent is "".
pub record CreateRequest : Type 0 where
  pub username : String
  pub email : String
  pub password : String
  pub role : Role

pub record UpdateRequest : Type 0 where
  pub username : String
  pub email : String
  pub role : Role

pub record GrantAclRequest : Type 0 where
  pub user_id : String
  pub role : Role

-- `if v != "" { x = v }`
abbrev given : String → String → String
given old v = if same v "" then old else v

changed_user : User → UpdateRequest → User
changed_user user req = record user {
  username = given user.username req.username;
  email = given user.email req.email;
  role = given user.role req.role;
}

module _ {S : Type 0} (users : UserRepository S) where
  -- Create: the role that the body names, and viewer if it names none.
  unfoldable pub create_user : String → Option CreateRequest → S → Reply User × S
  unfolding bad_request
  create_user uuid none s = (bad_request "invalid request body", s)
  create_user uuid (some req) s =
      if same req.username "" || same req.email "" || same req.password ""
      then (bad_request "username, email, and password are required", s)
      else let user = new_user users uuid req.username req.email (given role_viewer req.role) in
        created users user (users.create user req.password s) s

  updated : User → Option S → S → Reply User × S
  unfolding internal_error
  updated user none s = (internal_error "failed to update user", s)
  updated user (some s') s = (success 200 user, s')

  update_found : Option UpdateRequest → Option User × Bool → S → Reply User × S
  unfolding updated changed_user bad_request
  update_found none (some user, false) s = (bad_request "invalid request body", s)
  update_found (some req) (some user, false) s =
      updated (changed_user user req) (users.update (changed_user user req) s) s
  update_found req (none, failed) s =
      (failure 404 Code.user_not_found (text "user not found") no_details, s)
  update_found req (some user, true) s =
      (failure 404 Code.user_not_found (text "user not found") no_details, s)

  -- Update
  unfoldable pub update_user : String → Option UpdateRequest → S → Reply User × S
  unfolding update_found
  update_user id req s = update_found req (users.get_by_id id s) s

  -- Delete answers 204 without a body.
  unfoldable pub delete_user : String → S → Reply Unit × S
  unfolding internal_error
  delete_user id s = elim (users.delete id s) [
    | none ↦ (internal_error "failed to delete user", s)
    | some s' ↦ (success 204 tt, s')
  ]

module _ {S : Type 0} (acls : AclRepository S) where
  unfoldable pub granted_acl : ProjectAcl → Option S → S → Reply ProjectAcl × S
  unfolding internal_error
  granted_acl acl none s = (internal_error "failed to set ACL", s)
  granted_acl acl (some s') s = (success 200 acl, s')

  -- Grant by the user of the claims.
  unfoldable pub grant : String → Claims → Option GrantAclRequest → S → Reply ProjectAcl × S
  unfolding bad_request granted_acl
  grant project_id c none s = (bad_request "invalid request body", s)
  grant project_id c (some req) s =
      if same req.user_id ""
      then (bad_request "user_id is required", s)
      else if same req.role role_operator || same req.role role_viewer
      then (let acl : ProjectAcl = record {
        user_id = req.user_id;
        project_id = project_id;
        role = req.role;
        granted_by = c.user_id;
      } in
          granted_acl acl (acls.set_project_acl acl s) s)
      else (bad_request "role must be 'operator' or 'viewer'", s)

  -- Revoke
  unfoldable pub revoke : String → String → S → Reply String × S
  unfolding internal_error
  revoke project_id user_id s = elim (acls.delete user_id project_id s) [
    | none ↦ (internal_error "failed to revoke ACL", s)
    | some s' ↦ (success 200 "revoked", s')
  ]

-- List of the users, by the query values of the request.
unfoldable pub users_reply : PaginationOpts → Result String (List User × ℕ) → Reply (Paginated User)
unfolding internal_error
users_reply opts (err e) = internal_error "failed to list users"
users_reply opts (ok (users, total)) =
    success 200 (record { entries = users; total = total; opts = opts })

pub list :
    (PaginationOpts → Result String (List User × ℕ)) → String → String → Reply (Paginated User)
unfolding users_reply
list repo limit offset = let opts = parse_pagination limit offset in users_reply opts (repo opts)

-- ListByProject of the grants.
unfoldable pub acls_reply : Result String (List ProjectAcl) → Reply (List ProjectAcl)
unfolding internal_error
acls_reply (err e) = internal_error "failed to list ACLs"
acls_reply (ok acls) = success 200 acls
