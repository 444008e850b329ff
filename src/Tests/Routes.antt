-- ===== src/Tests/Routes.antt =====
-- Requests for routes of one project.
use compose_cockpit.Base.{
  ℕ, zero, suc, String, Option, none, some, List, [], ◌∷◌, ◌≡◌, ◌≢◌, refl, inl, inr, ◌⊎◌, ◌↔◌, true,
  In, arith, eq_iff, same, if◌then◌else◌,
}
use compose_cockpit.Docker.History.{contains_text}
use compose_cockpit.Domain.User.{Role, role_admin, role_operator, role_viewer}
use compose_cockpit.Auth.Permissions.{has_permission}
use compose_cockpit.Auth.Access.{Claims, next, forbidden, unauthorized}
use compose_cockpit.Api.Router.{
  Route, routes, reach, get, post, authenticated, acl, permission, up, get_project_detail,
}
use compose_cockpit.Api.Router.Reach.{
  is_public, is_login, is_of_project, reach-changes, reach-project, reach-public,
}

at : {A : Type 0} → ℕ → List A → Option A
at n [] = none
at zero (x ∷ xs) = some x
at (suc n) (x ∷ xs) = at n xs

In-at : {A : Type 0} (n : ℕ) (x : A) (xs : List A) → at n xs ≡ some x → In x xs
unfolding at
In-at n x [] h = absurd (ground arith)
In-at zero x (y ∷ ys) h = inl (ground arith)
In-at (suc n) x (y ∷ ys) h = inr (In-at n x ys h)

abbrev bob : Claims
bob = record { user_id = "u2"; role = role_operator }

-- Bob operates the project "p1" and views the project "p2".
abbrev bobs_role : String → String → Role
bobs_role user project =
    if same project "p1" then role_operator else if same project "p2" then role_viewer else ""

abbrev up_route : Route
up_route = record {
  method = post;
  path = "/api/v1/projects/{projectID}/up";
  guards =
      authenticated
      ∷ acl "project:read"
      ∷ acl "project:operate"
      ∷ permission "project:operate"
      ∷ [];
  handler = up;
}

abbrev detail_route : Route
detail_route = record {
  method = get;
  path = "/api/v1/projects/{projectID}/";
  guards = authenticated ∷ acl "project:read" ∷ [];
  handler = get_project_detail;
}

up_route-In : In up_route routes
unfolding at
up_route-In = In-at 18 up_route routes refl

detail_route-In : In detail_route routes
unfolding at
detail_route-In = In-at 8 detail_route routes refl

-- Bob may run "p1", see "p2", and neither run "p2" nor see "p3".
answers :
    (reach bobs_role "p1" (some bob) up_route ≡ next)
    × (reach bobs_role "p2" (some bob) detail_route ≡ next)
    × (reach bobs_role "p2" (some bob) up_route ≡ forbidden)
    × (reach bobs_role "p3" (some bob) detail_route ≡ forbidden)
    × (reach bobs_role "p1" none up_route ≡ unauthorized)
unfolding reach has_permission
answers = (refl, refl, refl, refl, refl)

reach-changes_example :
    (is_login up ≡ true)
    ⊎ ((c : Claims) × (some bob ≡ some c)
        × ((c.role ≡ role_admin)
            ⊎ ((c.role ≡ role_operator)
                × (bobs_role c.user_id "p1" ≢ "")
                × (bobs_role c.user_id "p1" ≢ role_viewer))))
reach-changes_example =
    reach-changes bobs_role "p1" (some bob) up_route up_route-In refl
      (λ e. ground (arith, eq_iff "p1" "")) answers.0

of_project : is_of_project detail_route ≡ true
unfolding contains_text
of_project = refl

reach-project_example :
    (c : Claims) × (some bob ≡ some c) × ((c.role ≡ role_admin) ⊎ (bobs_role c.user_id "p2" ≢ ""))
reach-project_example =
    reach-project bobs_role "p2" (some bob) detail_route detail_route-In of_project
      (λ e. ground (arith, eq_iff "p2" "")) answers.1

reach-public_example : (reach bobs_role "p1" none up_route ≡ next) ↔ (is_public up ≡ true)
reach-public_example = reach-public bobs_role "p1" up_route up_route-In
