-- ===== src/Api/Projects.antt =====
-- internal/api/handlers/project_handler.go: the registry of projects, filled by a scan. The file system
-- and what the parser needs are as in Discovery, and the daemon as in Docker/Client.
pub mod Registry
pub mod Listing
use compose_cockpit.Base.{
  ℕ, String, Bool, true, false, Option, none, some, List, [], ◌∷◌, map, length, same, if◌then◌else◌,
}
use compose_cockpit.Base.Dict.{Dict, lookup, insert}
use compose_cockpit.Base.Results.{Result, ok, err}
use compose_cockpit.Domain.Errors.{
  Code, Message, text, AppError, new_app_error, no_details, GoError,
}
use compose_cockpit.Domain.User.{Role, role_admin}
use compose_cockpit.Domain.Project.{Project, ProjectStatus, Service}
use compose_cockpit.Docker.Client.{ContainerInfo, Daemon}
use compose_cockpit.Docker.History.{M, return, ◌>>=◌}
use compose_cockpit.Docker.Lifecycle.{get_project_status}
use compose_cockpit.Auth.Access.{Claims}
use compose_cockpit.Discovery.Scanner.{FileSystem, DiscoveredProject}
use compose_cockpit.Discovery.Scanner.Walk.{ScanError, scan}
use compose_cockpit.Discovery.Parser.{Surroundings, ParseError}
use compose_cockpit.Discovery.Parser.Parse.{parse_project}
use compose_cockpit.Api.Reply.{Reply, success, failure}

-- `projects`
abbrev pub Projects : Type 0
Projects = Dict Project

known : Option Project → Result AppError Project
known none = err (new_app_error Code.project_not_found (text "project not found") 404)
known (some p) = ok p

-- GetProject
unfoldable pub get_project : String → Projects → Result AppError Project
unfolding known
get_project id projects = known (lookup id projects)

-- The test of the loop of ListProjects; `role_in` is GetUserProjectRole of the store.
unfoldable pub listed_for : (String → String → Role) → Claims → Project → Bool
listed_for role_in c p =
    if same c.role role_admin
    then true
    else if same (role_in c.user_id p.id) ""
    then false
    else true

-- ListProjects
unfoldable pub list_projects : (String → String → Role) → Claims → Projects → List Project
unfolding listed_for
list_projects role_in c [] = []
list_projects role_in c ((id, p) ∷ projects) =
    let rest = list_projects role_in c projects in if listed_for role_in c p then p ∷ rest else rest

unfoldable pub not_found : {A : Type 0} → Reply A
not_found = failure 404 Code.project_not_found (text "project not found") no_details

-- A service with the container that was listed for it.
unfoldable pub with_container : Dict ContainerInfo → Service → Service
with_container containers svc = elim (lookup svc.name containers) [
  | none ↦ svc
  | some ctr ↦ record svc { container_id = ctr.id; state = ctr.state }
]

with_status : Result GoError (ProjectStatus × Dict ContainerInfo) → Project → Project
unfolding with_container
with_status (err e) p = p
with_status (ok (status, containers)) p = record p {
  status = status;
  services = map (with_container containers) p.services;
}

-- GetProjectDetail: the registry keeps the project with its new state.
unfoldable pub get_project_detail : Daemon → String → Projects → M (Reply Project × Projects)
unfolding not_found with_status
get_project_detail d id projects = elim (lookup id projects) [
  | none ↦ return (not_found, projects)
  | some p ↦ do
    r ← get_project_status d p
    return (success 200 (with_status r p), insert id (with_status r p) projects)
]

-- ListServices
unfoldable pub list_services : String → Projects → Reply (List Service)
unfolding not_found
list_services id projects = elim (lookup id projects) [
  | none ↦ not_found
  | some p ↦ success 200 p.services
]

first_service : String → List Service → Reply Service
first_service name [] = failure 404 Code.service_not_found (text "service not found") no_details
first_service name (s ∷ ss) =
    let rest = first_service name ss in if same s.name name then success 200 s else rest

-- GetServiceDetail
unfoldable pub get_service_detail : String → String → Projects → Reply Service
unfolding not_found first_service
get_service_detail id name projects = elim (lookup id projects) [
  | none ↦ not_found
  | some p ↦ first_service name p.services
]

module _ (around : Surroundings) where
  -- `newProjects[project.ID] = project`; a project that does not parse is passed over.
  add_parsed : Result ParseError Project → Projects → Projects
  add_parsed (err e) projects = projects
  add_parsed (ok p) projects = insert p.id p projects

  unfoldable pub parse_all : List DiscoveredProject → Projects → Projects
  unfolding add_parsed
  parse_all [] projects = projects
  parse_all (disc ∷ discovered) projects =
      parse_all discovered (add_parsed (parse_project around disc) projects)

  module _ (fs : FileSystem) (ended : ℕ → Bool) (max_depth : ℕ) (root_dir : String) where
    -- The text of the error behind "scan failed: " is left out.
    after_scan : Result ScanError (List DiscoveredProject) → Projects → Reply ℕ × Projects
    unfolding parse_all
    after_scan (err e) projects =
        (failure 500 Code.internal (text "scan failed: ") no_details, projects)
    after_scan (ok discovered) projects =
        let found = parse_all discovered [] in (success 200 (length found), found)

    -- TriggerScan: the number of projects, and the registry that replaces the old one.
    unfoldable pub trigger_scan : Projects → Reply ℕ × Projects
    unfolding after_scan
    trigger_scan projects = after_scan (scan fs ended max_depth root_dir) projects

    -- InitialScan: what is found is added.
    unfoldable pub initial_scan : Projects → Result ScanError Projects
    unfolding parse_all
    initial_scan projects = elim (scan fs ended max_depth root_dir) [
      | err e ↦ err e
      | ok discovered ↦ ok (parse_all discovered projects)
    ]
