-- ===== src/Api/Accounts.antt =====
-- The handlers of internal/api/handlers/auth_handler.go, user_handler.go and acl_handler.go. A request's
-- body is what decodes from it, if it decodes; the repositories of internal/store are interfaces over the
-- state of the database.
pub mod Roles
use Prim.Native.Char.{Char, code}
use Prim.Native.String
use compose_cockpit.Base.{
  ℕ, ◌+◌, String, Bool, true, false, ◌||◌, Option, none, some, List, [], ◌∷◌, same, ltb, leb, ◌==◌,
  if◌then◌else◌,
}
use compose_cockpit.Base.Text.{byte_length}
use compose_cockpit.Domain.Errors.{Code, text, no_details}
use compose_cockpit.Domain.User.{User, ProjectAcl, Role, role_admin, role_operator, role_viewer}
use compose_cockpit.Auth.Access.{Claims}
use compose_cockpit.Auth.Tokens.{
  Jwt, JwtManager, TokenPair, generate_token_pair, validate_refresh_token,
}
use compose_cockpit.Api.Reply.{Reply, success, failure}
use compose_cockpit.Api.Pages.{PaginationOpts}

-- store.UserRepository: a read gives the user pointer and whether there was an error, a write the new
-- state or an error.
pub record UserRepository (S : Type 0) : Type 0 where
  pub create : User → String → S → Option S
  pub get_by_id : String → S → Option User × Bool
  pub get_by_username : String → S → Option User × Bool
  pub update : User → S → Option S
  pub delete : String → S → Option S
  pub validate_password : String → String → S → Option User × Bool
  pub count : S → Option ℕ

-- The writes of store.ACLRepository.
pub record AclRepository (S : Type 0) : Type 0 where
  pub set_project_acl : ProjectAcl → S → Option S
  pub delete : String → String → S → Option S

pub record LoginRequest : Type 0 where
  pub username : String
  pub password : String

pub record RegisterRequest : Type 0 where
  pub username : String
  pub email : String
  pub password : String

unfoldable pub bad_request : {A : Type 0} → String → Reply A
bad_request message = failure 400 Code.validation (text message) no_details

unfoldable pub internal_error : {A : Type 0} → String → Reply A
internal_error message = failure 500 Code.internal (text message) no_details

unfoldable pub unauthorized_reply : {A : Type 0} → Code → String → Reply A
unauthorized_reply code message = failure 401 code (text message) no_details

unfoldable pub tokens_reply : Option TokenPair → Reply TokenPair
unfolding internal_error
tokens_reply none = internal_error "failed to generate tokens"
tokens_reply (some pair) = success 200 pair

module _ {S : Type 0} (users : UserRepository S) where
  -- Login
  unfoldable pub login_user : Jwt → JwtManager → ℕ → Option User × Bool → Reply TokenPair
  unfolding internal_error unauthorized_reply tokens_reply
  login_user jwt m now (user, true) = internal_error "internal error"
  login_user jwt m now (none, false) = unauthorized_reply Code.unauthorized "invalid credentials"
  login_user jwt m now (some user, false) = tokens_reply (generate_token_pair jwt m now user)

  unfoldable pub login : Jwt → JwtManager → ℕ → Option LoginRequest → S → Reply TokenPair
  unfolding login_user bad_request
  login jwt m now none s = bad_request "invalid request body"
  login jwt m now (some req) s =
      if same req.username "" || same req.password ""
      then bad_request "username and password are required"
      else login_user jwt m now (users.validate_password req.username req.password s)

  -- Refresh
  refresh_user : Jwt → JwtManager → ℕ → Option User × Bool → Reply TokenPair
  unfolding unauthorized_reply tokens_reply
  refresh_user jwt m now (some user, false) = tokens_reply (generate_token_pair jwt m now user)
  refresh_user jwt m now (some user, true) = unauthorized_reply Code.unauthorized "user not found"
  refresh_user jwt m now (none, failed) = unauthorized_reply Code.unauthorized "user not found"

  unfoldable pub refresh : Jwt → JwtManager → ℕ → Option String → S → Reply TokenPair
  unfolding refresh_user bad_request unauthorized_reply
  refresh jwt m now none s = bad_request "invalid request body"
  refresh jwt m now (some token) s = elim (validate_refresh_token jwt m now token) [
    | none ↦ unauthorized_reply Code.token_invalid "invalid refresh token"
    | some id ↦ refresh_user jwt m now (users.get_by_id id s)
  ]

  -- "First registered user becomes admin"
  unfoldable pub first_role : Option ℕ → Role
  first_role none = role_viewer
  first_role (some n) = if n == 0 then role_admin else role_viewer

  abbrev pub new_user : String → String → String → Role → User
  new_user uuid username email role = record {
    id = uuid;
    username = username;
    email = email;
    password_hash = "";
    role = role;
  }

  unfoldable pub created : User → Option S → S → Reply User × S
  unfolding internal_error
  created user none s = (internal_error "failed to create user", s)
  created user (some s') s = (success 201 user, s')

  -- After GetByUsername, whose error Register ignores.
  register_new : String → RegisterRequest → Option User → S → Reply User × S
  unfolding created first_role
  register_new uuid req (some existing) s =
      (failure 409 Code.user_exists (text "username already taken") no_details, s)
  register_new uuid req none s =
      let user = new_user uuid req.username req.email (first_role (users.count s)) in
      created user (users.create user req.password s) s

  -- Register
  unfoldable pub register_user : String → Option RegisterRequest → S → Reply User × S
  unfolding bad_request register_new byte_length
  register_user uuid none s = (bad_request "invalid request body", s)
  register_user uuid (some req) s =
      if same req.username "" || same req.email "" || same req.password ""
      then (bad_request "username, email and password are required", s)
      else if ltb (byte_length req.password) 8
      then (bad_request "password must be at least 8 characters", s)
      else register_new uuid req (users.get_by_username req.username s).0 s
