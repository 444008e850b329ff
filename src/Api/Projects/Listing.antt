-- ===== src/Api/Projects/Listing.antt =====
-- ListProjects of internal/api/handlers/project_handler.go against the guard of a project's routes.
use compose_cockpit.Base.{
  filter, In-filter, filter-In, ap, String, true, some, [], ◌∷◌, map, ◌≡◌, ◌≢◌, refl, ◌↔◌,
  if◌then◌else◌, In, arith, eq_iff,
}
use compose_cockpit.Domain.User.{Role, role_admin}
use compose_cockpit.Domain.Project.{Project}
use compose_cockpit.Auth.Access.{Claims, next, read_project, project_acl}
use compose_cockpit.Api.Projects.{Projects, listed_for, list_projects}

module _ (role_in : String → String → Role) (c : Claims) where
  -- The test of the list is the guard.
  listed_for-read_project :
      (p : Project)
      → p.id ≢ ""
      → (listed_for role_in c p ≡ true) ↔ (read_project role_in (some c) p.id ≡ next)
  unfolding listed_for read_project project_acl
  listed_for-read_project p named =
      ground (arith, eq_iff c.role role_admin, eq_iff p.id "", eq_iff (role_in c.user_id p.id) "")

  list_projects-filter :
      (projects : Projects)
      → list_projects role_in c projects ≡ filter (listed_for role_in c) (map (λ e. e.1) projects)
  unfolding list_projects
  list_projects-filter [] = refl
  list_projects-filter ((id, p) ∷ projects) =
      ap (λ rest. if listed_for role_in c p then p ∷ rest else rest) (list_projects-filter projects)

  -- A user is shown a project with an identifier exactly if it is registered and the guard lets the user
  -- read it.
  pub list_projects-read_project :
      (projects : Projects) (p : Project)
      → p.id ≢ ""
      → (In p (list_projects role_in c projects))
        ↔ In p (map (λ e. e.1) projects) × (read_project role_in (some c) p.id ≡ next)
  list_projects-read_project projects p named =
      let all = map (λ e. e.1) projects in
      let (passes, listed) = listed_for-read_project p named in
      rw (list_projects-filter projects) (
        (λ i. let (there, t) = In-filter (listed_for role_in c) p all i in (there, passes t)),
        (λ h. filter-In (listed_for role_in c) p all h.0 (listed h.1)),
      )
