-- ===== src/Api/Router.antt =====
-- internal/api/router.go: the routes with the guards that stand before their handlers. CORS, the
-- identifier of a request, logging and recovery stand before every route and end no request here.
pub mod Guards
pub mod Reach
use compose_cockpit.Base.{String, Option, none, some, List, [], ◌∷◌, ◌++◌, map}
use compose_cockpit.Base.Text.{cat}
use compose_cockpit.Domain.User.{Role, role_admin}
use compose_cockpit.Auth.Permissions.{Permission, perm_project_read, perm_project_operate}
use compose_cockpit.Auth.Access.{
  Verdict, next, unauthorized, forbidden, Claims, then_guard, require_permission, require_role,
  project_acl,
}

-- A middleware that a route uses.
pub data Guard : Type 0 where
  authenticated : Guard
  role permission acl : String → Guard

pub data Handler : Type 0 where
  liveness readiness version login refresh register : Handler
  list_projects trigger_scan get_project_detail list_services get_service_detail : Handler
  project_events project_stats service_logs list_audit : Handler
  list_acl grant revoke : Handler
  up down start stop restart service_start service_stop service_restart submit_async : Handler
  list_running get_operation cancel_operation global_events : Handler
  list_users create_user update_user delete_user list_all_audit : Handler

pub data Method : Type 0 where
  get post put delete : Method

pub record Route : Type 0 where
  pub method : Method
  pub path : String
  pub guards : List Guard
  pub handler : Handler

abbrev route : Method → String → Handler → Route
route m path h = record { method = m; path = path; guards = []; handler = h }

-- `r.With(g)` before one route, `r.Use(g)` before all of a group.
abbrev guarded : Guard → Route → Route
guarded g r = record r { guards = g ∷ r.guards }

-- `r.Route(prefix, …)`
abbrev below : String → Route → Route
below prefix r = record r { path = cat prefix r.path }

abbrev admin_only : Guard
admin_only = role role_admin

abbrev operations : List Route
operations =
    route post "/up" up
    ∷ route post "/down" down
    ∷ route post "/start" start
    ∷ route post "/stop" stop
    ∷ route post "/restart" restart
    ∷ route post "/services/{serviceName}/start" service_start
    ∷ route post "/services/{serviceName}/stop" service_stop
    ∷ route post "/services/{serviceName}/restart" service_restart
    ∷ route post "/async/{action}" submit_async
    ∷ []

abbrev grants : List Route
grants = route get "/" list_acl ∷ route post "/" grant ∷ route delete "/{userID}" revoke ∷ []

abbrev of_project : List Route
of_project =
    route get "/" get_project_detail
      ∷ route get "/services" list_services
      ∷ route get "/services/{serviceName}" get_service_detail
      ∷ route get "/events" project_events
      ∷ route get "/stats" project_stats
      ∷ route get "/services/{serviceName}/logs" service_logs
      ∷ route get "/audit" list_audit
      ∷ map (λ r. below "/acl" (guarded admin_only r)) grants
    ++ map (λ r. guarded (acl perm_project_operate) (guarded (permission perm_project_operate) r))
        operations

abbrev users : List Route
users =
    route get "/users" list_users
    ∷ route post "/users" create_user
    ∷ route put "/users/{userID}" update_user
    ∷ route delete "/users/{userID}" delete_user
    ∷ []

abbrev protected : List Route
protected =
    route get "/projects" list_projects
      ∷ guarded admin_only (route post "/projects/scan" trigger_scan)
      ∷ map (λ r. below "/projects/{projectID}" (guarded (acl perm_project_read) r)) of_project
    ++ route get "/operations" list_running
      ∷ route get "/operations/{opID}" get_operation
      ∷ guarded admin_only (route delete "/operations/{opID}" cancel_operation)
      ∷ guarded admin_only (route get "/events" global_events)
      ∷ map (guarded admin_only) users
    ++ guarded admin_only (route get "/audit" list_all_audit) ∷ []

-- The routes of NewRouter.
abbrev pub routes : List Route
routes =
    route get "/health" liveness
    ∷ route get "/ready" readiness
    ∷ route get "/version" version
    ∷ map (below "/api/v1") (
        route post "/auth/login" login
        ∷ route post "/auth/refresh" refresh
        ∷ route post "/auth/register" register
        ∷ map (guarded authenticated) protected)

-- What stands in the context of a request, and what one middleware answers by it.
module _ (role_in : String → String → Role) (project : String) (token : Option Claims) where
  unfoldable pub check : Guard → Option Claims → Verdict
  unfolding require_role require_permission project_acl
  check authenticated claims = elim token [ none ↦ unauthorized | some c ↦ next ]
  check (role r) claims = require_role (r ∷ []) claims
  check (permission p) claims = require_permission p claims
  check (acl p) claims = project_acl role_in p claims project

  -- The claims for the handlers behind the guard: the first middleware puts those of the token there.
  abbrev pub behind : Guard → Option Claims → Option Claims
  behind authenticated claims = token
  behind g claims = claims

  -- The guards one after the other: the handler runs if the answer is `next`.
  unfoldable pub pass : List Guard → Option Claims → Verdict
  unfolding check then_guard
  pass [] claims = next
  pass (g ∷ gs) claims = then_guard (check g claims) (pass gs (behind g claims))

  -- What a request for a route comes to; at first there are no claims.
  unfoldable pub reach : Route → Verdict
  unfolding pass
  reach r = pass r.guards none
